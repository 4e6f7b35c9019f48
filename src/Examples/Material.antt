-- ===== src/Examples/Material.antt =====
-- Writes, promotions, discards and reveals on the sample installation.
use netbox_openbao.Prelude.{◌&&◌, ℕ, true, false, none, some, List, [], ◌∷◌, ◌≡◌, refl, ◌⊎◌}
use netbox_openbao.Errors.{permission_denied}
use netbox_openbao.Exec.{Exec, Outcome, ok, raise}
use netbox_openbao.Json.{Value, is_blank}
use netbox_openbao.Models.{
  Credential, Policy, Action, reveal, rotate, stage, find_policy, find_credential, Db,
}
use netbox_openbao.World.{World}
use netbox_openbao.Backends.{Backend, SecretBackend}
use netbox_openbao.Services.Projection.{credential_backend}
use netbox_openbao.Services.Access.{enforce_policy_access, enforce_update_access}
use netbox_openbao.Services.Access.Gate.{
  Permitted, enforce_policy_access-cases, enforce_update_access-cases,
}
use netbox_openbao.Services.Store.{write_through, record_version}
use netbox_openbao.Services.Store.Attempts.{OnRecord, write_through-recorded}
use netbox_openbao.Services.Reveal.{is_blank_text, reveal_material}
use netbox_openbao.Services.Reveal.Done.{Revealed, reveal_material-ok}
use netbox_openbao.Services.Staging.{promote_staged, discard_staged, promoted, discarded, pin_live}
use netbox_openbao.Services.Staging.Columns.{Saves, operations-Saves}
use netbox_openbao.MaterialTransactions.{fresh_owner}
use netbox_openbao.Synchronization.{
  synchronized_material_change, lock_material_subjects, selectors_of, subject_ids,
}
use netbox_openbao.Synchronization.Locks.{Locked, lock_material_subjects-ok}
use netbox_openbao.Secrets.Schema.{FieldSpec, Schema}
use netbox_openbao.Secrets.Registry.{get}
use netbox_openbao.Automation.{Reference, admit}
use netbox_openbao.Automation.Admitted.{Usable, Served, Declared, admit-ok}
use netbox_openbao.Samples.{
  Server, env, engine, policy, operator, router, staged_router, password, idle_world, staged_world,
  two_versions,
}

-- A world in which a transaction is open.
abbrev opened : World Server → World Server
opened w = record w { owner = some (fresh_owner "operation"); in_atomic = true }

abbrev backend : Backend
backend = record {
  kind = netbox_openbao.Backends.openbao_backend;
  engine = engine;
  auth_material = none;
}

write_through-recorded_example :
    OnRecord
      (fresh_owner "operation")
      backend
      router.path
      (some 2)
      (write_through env router
        (some backend)
        ""
        (password "new")
        (some 1)
        (some operator)
        none
        rotate
        true
        (opened idle_world)).1
    × ((write_through env router
          (some backend)
          ""
          (password "new")
          (some 1)
          (some operator)
          none
          rotate
          true
          (opened idle_world)).1.vault
        ≡ two_versions)
write_through-recorded_example =
    write_through-recorded env router backend "" (password "new") (some 1) (some operator) none
      rotate true (opened idle_world) (fresh_owner "operation") refl

abbrev value_in : Outcome Credential → Credential
value_in (ok a) = a
value_in (raise e) = router

abbrev promotion : Outcome Credential × World Server
promotion = promote_staged env staged_router (some operator) none true "" staged_world

abbrev removal : Outcome Credential × World Server
removal = discard_staged env staged_router (some operator) none staged_world

abbrev shown : Outcome (Value × ℕ) × World Server
shown = reveal_material env router (some operator) none "audit" none idle_world

abbrev shown_value : Outcome (Value × ℕ) → Value × ℕ
shown_value (ok r) = r
shown_value (raise e) = (netbox_openbao.Json.null, 0)

reveal_material-ok_example :
    (p : Policy) × (find_policy router.policy_id idle_world.db ≡ some p)
    × Permitted p (some operator)
    × Revealed env router
        (some operator)
        none
        "audit"
        none
        p
        (credential_backend env router idle_world.db)
        idle_world
        (shown_value shown.0).0
        60
        shown.1
unfolding reveal_material
reveal_material-ok_example =
    reveal_material-ok env router (some operator) none "audit" none (shown_value shown.0).0 60
      idle_world shown.1 refl

-- A credential without material.
abbrev fresh : Credential
fresh = record router { kv_version = none; live_kv_version = none }

abbrev written_one : Credential
written_one = (record_version 1 10 "" netbox_openbao.Models.write true fresh).0

abbrev staged_two : Credential
staged_two = (record_version 2 20 "" stage false (pin_live written_one).0).0

operations-Saves_example :
    Saves staged_router (record_version 3 40 "" rotate true staged_router)
    × Saves staged_router (promoted 40 staged_router)
    × Saves staged_router (discarded staged_router)
    × Saves staged_router (pin_live staged_router)
operations-Saves_example = operations-Saves 3 40 "" rotate true staged_router

enforce_policy_access-cases_example :
    (Permitted policy (some operator)
      × (enforce_policy_access env router (some operator) (some reveal) none idle_world
          ≡ (ok tt, idle_world)))
    ⊎ ((¬ Permitted policy (some operator))
        × ((enforce_policy_access env router (some operator) (some reveal) none idle_world).0
            ≡ raise permission_denied))
unfolding find_policy
enforce_policy_access-cases_example =
    enforce_policy_access-cases env router (some operator) (some reveal) none idle_world policy refl

-- The object of the caller names another tier; its row does not.
abbrev moved_router : Credential
moved_router = record router { policy_id = 2 }

enforce_update_access-cases_example :
    (Permitted policy (some operator)
      × (enforce_update_access env (some moved_router) (some operator) (some rotate) none idle_world
          ≡ (ok tt, idle_world)))
    ⊎ ((¬ Permitted policy (some operator))
        × ((enforce_update_access env
              (some moved_router)
              (some operator)
              (some rotate)
              none
              idle_world).0
            ≡ raise permission_denied))
unfolding find_policy find_credential
enforce_update_access-cases_example =
    enforce_update_access-cases env moved_router router (some operator) (some rotate) none
      idle_world 3 policy refl refl refl

abbrev locking_run : Outcome (List Credential) × World Server
locking_run = lock_material_subjects (router ∷ []) [] (opened idle_world)

abbrev rows_in : Outcome (List Credential) → List Credential
rows_in (ok rows) = rows
rows_in (raise e) = []

lock_material_subjects-ok_example :
    (selectors : List Credential) × (selectors_of (subject_ids (router ∷ [])) (opened idle_world).db
      ≡ some selectors)
    × Locked (subject_ids (router ∷ [])) selectors (rows_in locking_run.0) locking_run.1
unfolding lock_material_subjects
lock_material_subjects-ok_example =
    lock_material_subjects-ok (router ∷ []) [] (rows_in locking_run.0) (opened idle_world)
      locking_run.1 refl

-- A service that only returns the row it was given.
abbrev shows_row : Credential → Exec (World Server) Credential
shows_row row w = (ok row, w)

abbrev shown_row : Outcome Credential × World Server
shown_row = synchronized_material_change env rotate router (some operator) none shows_row idle_world

abbrev spec : FieldSpec
spec = record { required = true; secret = true }

abbrev password_schema : Schema
password_schema = record {
  vault_fields = ("password", spec) ∷ [];
  extractor = none;
  allow_arbitrary_keys = false;
  json_schema = none;
  stored = none;
}

abbrev reference : Reference
reference = record { pinned = some 1; fields = "password" ∷ [] }

admit-ok_example :
    (true ≡ true)
    × Usable 100 router policy operator
    × ((policy.require_reason && is_blank_text "deploy") ≡ false)
    × Served router reference 1
    × Declared password_schema.vault_fields reference.fields (("password", spec) ∷ [])
unfolding admit get
admit-ok_example =
    admit-ok true 100 router policy password_schema operator reference "deploy" 1
      (("password", spec) ∷ []) refl
