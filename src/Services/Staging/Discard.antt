-- ===== src/Services/Staging/Discard.antt =====
-- What a discard has done, where it returns: it clears the pointer, deletes nothing yet, and
-- queues the deletion of the exact version that was staged.
use netbox_openbao.Prelude.{ℕ, Option, some, [], ◌∷◌, ◌++◌, ◌≡◌}
use netbox_openbao.Exec.{Exec}
use netbox_openbao.Models.{Credential, User, discard}
use netbox_openbao.Backends.{Backend}
use netbox_openbao.World.{MaterialAttempt, MaterialTransaction, World, Env}
use netbox_openbao.Services.Staging.{discarded}

-- The deletion that a discard of `c` queues.
abbrev pub queued : Credential → Backend → Option User → Option ℕ → MaterialAttempt
queued c backend user audit = record {
  credential = (discarded c).0;
  backend = backend;
  path = c.path;
  user = user;
  action = discard;
  version = c.staged_kv_version;
  audit_id = audit;
}

module _ {V : Type 0} (env : Env V) where
  abbrev pub Discarded :
      Credential → Option User → Option Backend → World V → Credential → World V → Type 0
  Discarded c user chosen w d out =
      (backend : Backend) × (owner : MaterialTransaction) × (audit : Option ℕ) × (chosen
        ≡ some backend)
      × (d ≡ (discarded c).0)
      × (out.vault ≡ w.vault)
      × (w.owner ≡ some owner)
      × (out.owner
          ≡ some
              (record owner { deletions = owner.deletions ++ (queued c backend user audit ∷ []) }))
