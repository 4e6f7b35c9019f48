-- ===== src/Services/Staging/Done.antt =====
-- What a promotion and a discard have done, where they return.
use netbox_openbao.Prelude.{Bool, true, false, Option, some, List, ◌≡◌, refl, arith, ap}
use netbox_openbao.Errors.{Exn}
use netbox_openbao.Exec.{Exec, ok, require}
use netbox_openbao.Models.{Credential, User, Request, Action}
use netbox_openbao.Backends.{Backend, VersionInfo}
use netbox_openbao.World.{World, Env}
use netbox_openbao.Services.Access.{enforce_policy_access}
use netbox_openbao.Services.Staging.{promoted, find_version, still_there}

module _ {V : Type 0} (env : Env V) where
  pub enforce-same :
      (c : Credential) (user : Option User) (action : Option Action) (request : Option Request)
      (w out : World V) (u : Unit)
      → enforce_policy_access env c user action request w ≡ (ok u, out)
      → w ≡ out
  unfolding enforce_policy_access
  enforce-same c user action request w out u h = ground (arith, h)

  pub require-same :
      (b : Bool) (e : Exn) (w out : World V) (u : Unit)
      → require b e w ≡ (ok u, out)
      → b ≡ true × w ≡ out
  require-same true e w out u h = (refl, ap (λ r. r.1) h)
  require-same false e w out u h = cc

  -- What a promotion needs of the secret store, and what it makes of the object.
  abbrev pub Promoted : Credential → Option Backend → World V → Credential → World V → Type 0
  Promoted c chosen w d out =
      (backend : Backend) × (listed : List VersionInfo) × (found : VersionInfo) × (chosen
        ≡ some backend)
      × ((env.backend backend).list_versions c.path w.vault ≡ (ok listed, out.vault))
      × (find_version c.staged_kv_version listed ≡ some found)
      × (still_there found ≡ true)
      × (d ≡ (promoted w.now c).0)
