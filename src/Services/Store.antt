-- ===== src/Services/Store.antt =====
-- `prepare_material`, `store_credential` and `write_material` of netbox_openbao/services.py: a row
-- and its material as one unit.
mod Version
pub mod Attempts
unfoldable pub use Version.{
  set_attribute, set_attributes, move_pointers, note_action, record_version,
}
use netbox_openbao.Prelude.{
  ℕ, String, Bool, true, false, Option, none, some, List, [], ◌∷◌, ◌++◌, not, is_some, opt_eq, any,
  str_eq, ◌&&◌, if◌then◌else◌,
}
use netbox_openbao.Errors.{Exn, untranslated}
use netbox_openbao.Exec.{Exec, Outcome, ok, raise, pure, throw, lift, modify, continue, ◌>>=◌, ◌>>◌}
use netbox_openbao.Json.{Value, Payload}
use netbox_openbao.Models.{
  Credential, Policy, User, Request, Action, write, rotate, stage, staged, Db, find_credential,
  current_settings,
}
use netbox_openbao.Models.Columns.{
  Column, kv_version, live_kv_version, staged_kv_version, last_verified, last_rotated, status,
  save_columns,
}
use netbox_openbao.Models.Credentials.{apply_defaults, full_clean, save}
use netbox_openbao.Secrets.Extractors.{Attribute, words, time, Metadata}
use netbox_openbao.Secrets.Registry.{validate_payload, extract_metadata}
use netbox_openbao.Secrets.Identity.{derive_key_fingerprint, record_key_version}
use netbox_openbao.Backends.{Backend, SecretBackend}
use netbox_openbao.World.{
  MaterialAttempt, MaterialTransaction, World, Env, write_db, on_vault, lock_wait,
}
use netbox_openbao.Services.Audit.{entry, log_access}
use netbox_openbao.Services.Projection.{credential_backend, defer_custom_metadata}
use netbox_openbao.MaterialTransactions.{current_material_transaction, material_transaction}
use netbox_openbao.Synchronization.{lock_material_subject, refresh_material_selectors}

-- The attempt that was appended last is the object that the code goes on to fill in.
on_last {ℓ} : {A : Type ℓ} → (A → A) → List A → List A
on_last f [] = []
on_last f (x ∷ []) = f x ∷ []
on_last f (x ∷ y ∷ rest) = x ∷ on_last f (y ∷ rest)

abbrev add_id : Option ℕ → List ℕ → List ℕ
add_id none ids = ids
add_id (some pk) ids = pk ∷ ids

module _ {V : Type 0} where
  on_owner : (MaterialTransaction → MaterialTransaction) → World V → World V
  on_owner f w = elim w.owner [ none ↦ w | some owner ↦ record w { owner = some (f owner) } ]

  append_attempt : MaterialAttempt → World V → World V
  unfolding on_owner
  append_attempt attempt =
      on_owner (λ owner. record owner { attempts = owner.attempts ++ (attempt ∷ []) })

  set_attempt : (MaterialAttempt → MaterialAttempt) → World V → World V
  unfolding on_owner on_last
  set_attempt f = on_owner (λ owner. record owner { attempts = on_last f owner.attempts })

  declare_credential : Option ℕ → World V → World V
  unfolding on_owner
  declare_credential pk = on_owner (λ owner. record owner {
    graph_ids = record owner.graph_ids { credential = add_id pk owner.graph_ids.credential };
  })

  -- `save(update_fields=...)`: a statement that meets no row is an error.
  unfoldable pub save_fields : Credential → List Column → Exec (World V) (Unit {0})
  unfolding save_columns write_db
  save_fields c columns w =
      if is_some c.pk && any (λ row. opt_eq row.pk c.pk) w.db.credentials
      then (ok tt, write_db (save_columns c columns) w)
      else (raise untranslated, w)

  written : Outcome (Credential × Db) → Exec (World V) Credential
  unfolding write_db
  written (raise e) w = (raise e, w)
  written (ok (c, db)) w = (ok c, write_db (λ _. db) w)

  -- `credential.save()`: a new row waits for the row of the settings.
  unfoldable pub save_object : Credential → Exec (World V) Credential
  unfolding apply_defaults save written lock_wait
  save_object c w = elim (apply_defaults w.db c) [
    | raise e ↦ (raise e, w)
    | ok defaulted ↦
        let w' : World V = elim defaulted.pk [ none ↦ lock_wait w | some _ ↦ w ] in
        written (save w'.db defaulted) w'
  ]

module _ {V : Type 0} (env : Env V) where
  -- `prepare_material`
  unfoldable pub prepare_material : String → Value → Db → Outcome (Payload × Metadata)
  unfolding validate_payload extract_metadata current_settings
  prepare_material credential_type payload db =
      elim (validate_payload env.jsonschema db.stored_types credential_type payload) [
        | raise e ↦ raise e
        | ok cleaned ↦
            elim (extract_metadata (current_settings db).store_public_material env.crypto
              db.stored_types credential_type cleaned) [
                | raise e ↦ raise e
                | ok metadata ↦ ok (cleaned, metadata)
              ]
      ]

  -- The write itself: the attempt is on record before it, and its version as soon as it is known.
  attempt_write :
      Credential → Backend → Option User → Action → Payload → Option ℕ → Exec (World V) ℕ
  unfolding append_attempt set_attempt on_vault
  attempt_write c backend user action cleaned cas w =
      let attempt : MaterialAttempt = record {
        credential = c;
        backend = backend;
        path = c.path;
        user = user;
        action = action;
        version = none;
        audit_id = none;
      } in
      let (r, w') =
        on_vault ((env.backend backend).write c.path cleaned cas) (append_attempt attempt w) in
      continue r
        (λ version s. (ok version, set_attempt (λ a. record a { version = some version }) s)) w'

  finish_write :
      Credential
      → List Column
      → Option User
      → Option Request
      → Action
      → ℕ
      → Exec (World V) (Credential × ℕ)
  unfolding save_fields defer_custom_metadata log_access set_attempt
  finish_write c columns user request action version =
      save_fields c columns
      >> modify (defer_custom_metadata (c.pk ∷ []))
      >> log_access env c user (entry action true "" "") request
      >>= λ audit. modify (set_attempt (λ a. record a { audit_id = audit })) >> pure (c, version)

  pub write_through :
      Credential
      → Option Backend
      → (fingerprint : String) → Payload
      → (cas : Option ℕ) → Option User
      → Option Request
      → Action
      → (promote : Bool) → Exec (World V) (Credential × ℕ)
  unfolding attempt_write record_version finish_write
  write_through c none fingerprint cleaned cas user request action promote = throw untranslated
  write_through c (some backend) fingerprint cleaned cas user request action promote =
      attempt_write c backend user action cleaned cas >>= λ version w.
      (let (recorded, columns) = record_version version w.now fingerprint action promote c in
        finish_write recorded columns user request action version w)

  -- From the row that `persist` saved on.
  unfoldable pub store_saved :
      (fingerprint : String)
      → Payload
      → (cas : Option ℕ) → Option User
      → Option Request
      → Action
      → (promote : Bool) → Credential
      → Exec (World V) (Credential × ℕ)
  unfolding refresh_material_selectors current_material_transaction declare_credential write_through
      credential_backend
  store_saved fingerprint cleaned cas user request action promote c =
      refresh_material_selectors c
      >> current_material_transaction
      >> modify (declare_credential c.pk)
      >> λ w.
          write_through c (credential_backend env c w.db) fingerprint cleaned cas user request
            action promote w

  lock_subject : Bool → Option Credential → Option Policy → Exec (World V) (Option Credential)
  unfolding lock_material_subject
  lock_subject prelocked subject target =
      if prelocked then pure subject else lock_material_subject subject target

  -- `persist` closes over the object of the caller, which is the subject wherever there is one; it
  -- is given that object as the locking left it.
  store_body :
      (persist : Option Credential → Metadata → Exec (World V) Credential)
      → (credential_type : String) → Value
      → (cas : Option ℕ) → Option User
      → Option Request
      → Action
      → (subject : Option Credential) → (promote : Bool) → (target : Option Policy)
      → (prelocked : Bool) → Exec (World V) (Credential × ℕ)
  unfolding prepare_material derive_key_fingerprint lock_subject store_saved
  store_body persist credential_type payload cas user request action subject promote target
        prelocked w =
      continue (prepare_material credential_type payload w.db)
        (λ prepared.
          lift (derive_key_fingerprint env.crypto w.db.stored_types credential_type prepared.0)
          >>= λ fingerprint. lock_subject prelocked subject target >>= λ locked.
              persist locked prepared.1
              >>= store_saved fingerprint prepared.0 cas user request action promote)
        w

  -- `store_credential`
  unfoldable pub store_credential :
      (persist : Option Credential → Metadata → Exec (World V) Credential)
      → (credential_type : String) → Value
      → (cas : Option ℕ) → Option User
      → Option Request
      → Option Action
      → (subject : Option Credential) → (promote : Bool) → (target : Option Policy)
      → (prelocked : Bool) → Exec (World V) (Credential × ℕ)
  unfolding store_body material_transaction
  store_credential persist credential_type payload cas user request action subject promote target
        prelocked =
      material_transaction env (
        store_body persist credential_type payload cas user request
          (elim action [ none ↦ write | some a ↦ a ]) subject promote target prelocked)

  -- The `persist` of `write_material`
  unfoldable pub persist_object :
      Credential → Option Credential → Metadata → Exec (World V) Credential
  unfolding set_attributes full_clean save_object
  persist_object c locked metadata w =
      continue
        (full_clean env.fields_valid w.db
          (set_attributes metadata (elim locked [ none ↦ c | some object ↦ object ])))
        save_object w

  -- `write_material`
  unfoldable pub write_material :
      Credential
      → Value
      → (cas : Option ℕ) → Option User
      → Option Request
      → Option Action
      → (promote : Bool) → Exec (World V) (Credential × ℕ)
  unfolding store_credential persist_object
  write_material c payload cas user request action promote =
      store_credential (persist_object c) c.credential_type payload cas user request action (some c)
        promote none false
