-- ===== src/Examples/Transactions.antt =====
-- A rotation that fails, is refused, is not answered, or commits, on the sample installation.
use netbox_openbao.Prelude.{◌||◌, ◌⊎◌, is_nil, some, none, ◌∷◌, [], ℕ, true, false, ◌≡◌, refl}
use netbox_openbao.Errors.{untranslated}
use netbox_openbao.Exec.{Exec, Outcome, ok, raise, throw, ◌>>=◌}
use netbox_openbao.Models.{Credential}
use netbox_openbao.World.{MaterialTransaction, World, Env, refused, unanswered}
use netbox_openbao.Services.Staging.{rotate_material}
use netbox_openbao.MaterialTransactions.{
  guarded, begin, material_transaction, owner_or, fresh_owner, finish_deletions, commit_required,
}
use netbox_openbao.MaterialTransactions.Recovery.{Quiet, IsNone}
use netbox_openbao.MaterialTransactions.Atomic.{material_transaction_ends}
use netbox_openbao.MaterialTransactions.Deletions.{delete_queued, finish_deletions-cases}
use netbox_openbao.Samples.{
  engine, staged_router, staged_world, Server, env, env_with, router, operator, new_password,
  idle_world,
}

abbrev Result : Type 0
Result = Credential × ℕ

-- The rotation of the router's password, in the transaction of a caller.
abbrev rotation : Env Server → Exec (World Server) Result
rotation e = rotate_material e router new_password (some operator) none

abbrev owner_in : World Server → MaterialTransaction
owner_in w = owner_or env w.owner (fresh_owner "")

abbrev value_in : Outcome Result → Result
value_in (ok a) = a
value_in (raise e) = (router, 0)

-- The caller fails behind the rotation.
abbrev failing : Exec (World Server) Result
failing = rotation env >>= λ _. throw untranslated

abbrev failed_world : World Server
failed_world = (guarded env failing idle_world).1

-- The database refuses the commit.
abbrev env_refused : Env Server
env_refused = env_with (λ db. refused)

abbrev refused_run : Outcome Result × World Server
refused_run = guarded env_refused (rotation env_refused) idle_world

-- The database does not answer, but took the commit.
abbrev env_unanswered : Env Server
env_unanswered = env_with (λ db. unanswered true)

abbrev unanswered_run : Outcome Result × World Server
unanswered_run = guarded env_unanswered (rotation env_unanswered) idle_world

-- The commit succeeds.
abbrev inner_run : Outcome Result × World Server
inner_run = rotation env (begin env idle_world)

abbrev outer_run : Outcome Result × World Server
outer_run = material_transaction env (rotation env) idle_world

-- The caller goes on behind a nested transaction that failed.
abbrev catching : Exec (World Server) Result
catching w = (ok (router, 0), (material_transaction env failing w).1)

abbrev caught_world : World Server
caught_world = (catching (begin env idle_world)).1

material_transaction_ends_example : Quiet IsNone (material_transaction env failing idle_world).1
material_transaction_ends_example = material_transaction_ends env failing idle_world refl refl

-- The owner of a discard that is committed.
abbrev discard_owner : MaterialTransaction
discard_owner = record (fresh_owner "operation") {
  committed = true;
  deletions =
      record {
        credential = staged_router;
        backend = record {
          kind = netbox_openbao.Backends.openbao_backend;
          engine = engine;
          auth_material = none;
        };
        path = staged_router.path;
        user = some operator;
        action = netbox_openbao.Models.discard;
        version = some 2;
        audit_id = some 1;
      }
      ∷ [];
}

finish_deletions-cases_example :
    (((is_nil discard_owner.deletions || discard_owner.committed) ≡ true)
      × ((finish_deletions env discard_owner staged_world).1.vault
          ≡ delete_queued env discard_owner.deletions staged_world.vault))
    ⊎ (((is_nil discard_owner.deletions || discard_owner.committed) ≡ false)
        × (finish_deletions env discard_owner staged_world ≡ (raise commit_required, staged_world)))
finish_deletions-cases_example = finish_deletions-cases env discard_owner staged_world
