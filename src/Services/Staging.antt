-- ===== src/Services/Staging.antt =====
-- `rotate_material`, `stage_material`, `promote_staged` and `discard_staged` of
-- netbox_openbao/services.py.
mod Moves
pub mod Pointers
pub mod Columns
pub mod Done
pub mod Discard
pub use Moves.{has_staged_version, still_there, present, staged_number}
unfoldable pub use Moves.{find_version, pin_live, promoted, discarded, promotion_reason}
use netbox_openbao.Prelude.{
  ℕ, ◌≡◌, refl, ◌<>◌, String, Bool, true, false, Option, none, some, List, [], ◌∷◌, ◌++◌, not,
  is_some, first, str_eq, ◌==◌, ◌&&◌, ◌||◌, opt_eq, print_number, strip, strip_end, if◌then◌else◌,
}
use netbox_openbao.Errors.{
  Exn, openbao, invalid, already_staged, nothing_staged, version_gone, untranslated,
}
use netbox_openbao.Exec.{
  Exec, Outcome, ok, raise, pure, throw, modify, require, continue, ◌>>=◌, ◌>>◌,
}
use netbox_openbao.Json.{Value}
use netbox_openbao.Models.{
  Credential, User, Request, Action, rotate, stage, promote, discard, Status, active, Db,
}
use netbox_openbao.Models.Columns.{Column, live_kv_version, staged_kv_version, last_rotated, status}
use netbox_openbao.Secrets.Identity.{clear_staged_key, promote_key_identity}
use netbox_openbao.Backends.{Backend, SecretBackend, VersionInfo}
use netbox_openbao.World.{MaterialAttempt, MaterialTransaction, World, Env, on_vault}
use netbox_openbao.Services.Audit.{entry, log_access}
use netbox_openbao.Services.Access.{enforce_policy_access}
use netbox_openbao.Services.Projection.{credential_backend}
use netbox_openbao.Services.Store.{write_material, save_fields}
use netbox_openbao.MaterialTransactions.{current_material_transaction}
use netbox_openbao.Synchronization.{synchronized_material_change}

module _ {V : Type 0} (env : Env V) where
  rotate_body : Value → Option User → Option Request → Credential → Exec (World V) (Credential × ℕ)
  unfolding enforce_policy_access write_material
  rotate_body payload user request c =
      enforce_policy_access env c user (some rotate) request
      >> write_material env c payload c.kv_version user request (some rotate) true

  -- `rotate_material`
  unfoldable pub rotate_material :
      Credential → Value → Option User → Option Request → Exec (World V) (Credential × ℕ)
  unfolding rotate_body synchronized_material_change
  rotate_material c payload user request =
      synchronized_material_change env rotate c user request (rotate_body payload user request)

  save_pin : Credential × List Column → Exec (World V) Credential
  unfolding save_fields
  save_pin (c, []) = pure c
  save_pin (c, column ∷ rest) = save_fields c (column ∷ rest) >> pure c

  pub stage_body :
      Value → Option User → Option Request → Credential → Exec (World V) (Credential × ℕ)
  unfolding enforce_policy_access save_pin pin_live write_material
  stage_body payload user request c =
      enforce_policy_access env c user (some stage) request
      >> require (not (has_staged_version c)) (invalid already_staged)
      >> save_pin (pin_live c)
      >>= λ pinned.
          write_material env pinned payload pinned.kv_version user request (some stage) false

  -- `stage_material`
  unfoldable pub stage_material :
      Credential → Value → Option User → Option Request → Exec (World V) (Credential × ℕ)
  unfolding stage_body synchronized_material_change
  stage_material c payload user request =
      synchronized_material_change env stage c user request (stage_body payload user request)

  note_promotion :
      Bool → String → Bool → Credential → Option User → Option Request → Exec (World V) (Unit {0})
  unfolding log_access
  note_promotion success reason missing c user request =
      log_access env c user
        (entry promote success reason
          (if missing then "Staged version is no longer present." else ""))
        request
      >> pure tt

  finish_promotion :
      (reason : String) → Option User → Option Request → Credential → Exec (World V) Credential
  unfolding promoted save_fields note_promotion
  finish_promotion reason user request c w =
      let (c', columns) = promoted w.now c in
      (save_fields c' columns >> note_promotion true reason false c' user request >> pure c') w

  check_versions :
      (reason : String)
      → Option User
      → Option Request
      → Credential
      → Outcome (List VersionInfo)
      → Exec (World V) Credential
  unfolding log_access note_promotion finish_promotion find_version
  check_versions reason user request c (raise (openbao e)) =
      log_access env c user (entry promote false "" e.message) request >> throw (openbao e)
  check_versions reason user request c (raise e) = throw e
  check_versions reason user request c (ok listed) =
      if present (find_version c.staged_kv_version listed)
      then finish_promotion reason user request c
      else (note_promotion false "" true c user request
          >> throw (invalid (version_gone (staged_number c))))

  promote_through :
      (reason : String)
      → Option User
      → Option Request
      → Credential
      → Option Backend
      → Exec (World V) Credential
  unfolding check_versions on_vault
  promote_through reason user request c none w = (raise untranslated, w)
  promote_through reason user request c (some backend) w =
      let (r, w') = on_vault ((env.backend backend).list_versions c.path) w in
      check_versions reason user request c r w'

  pub promote_body :
      (reason : String) → Option User → Option Request → Credential → Exec (World V) Credential
  unfolding enforce_policy_access promote_through credential_backend
  promote_body reason user request c =
      enforce_policy_access env c user (some promote) request
      >> require (has_staged_version c) (invalid nothing_staged)
      >> λ w. promote_through reason user request c (credential_backend env c w.db) w

  -- `promote_staged`; nothing is written to the secret store.
  unfoldable pub promote_staged :
      Credential
      → Option User
      → Option Request
      → (verified : Bool) → (note : String) → Exec (World V) Credential
  unfolding promote_body synchronized_material_change promotion_reason
  promote_staged c user request verified note =
      synchronized_material_change env promote c user request
        (promote_body (promotion_reason verified note) user request)

  queue_deletion : MaterialAttempt → Exec (World V) (Unit {0})
  unfolding current_material_transaction
  queue_deletion deletion = current_material_transaction >>= λ owner w. (
    ok tt,
    record w { owner = some (record owner { deletions = owner.deletions ++ (deletion ∷ []) }) },
  )

  discard_entry_reason : Credential → String
  unfolding print_number
  discard_entry_reason c = "discarded version " <> print_number (staged_number c)

  abbrev pending_message : String
  pending_message = "Staged pointer cleared; exact-version cleanup is pending commit."

  discard_through :
      Option User → Option Request → Credential → Option Backend → Exec (World V) Credential
  unfolding discarded save_fields log_access queue_deletion discard_entry_reason
  discard_through user request c none = throw untranslated
  discard_through user request c (some backend) =
      let (c', columns) = discarded c in
      save_fields c' columns
      >> log_access env c' user (entry discard false (discard_entry_reason c) pending_message)
          request
      >>= λ audit.
          queue_deletion (record {
            credential = c';
            backend = backend;
            path = c'.path;
            user = user;
            action = discard;
            version = c.staged_kv_version;
            audit_id = audit;
          })
          >> pure c'

  pub discard_body : Option User → Option Request → Credential → Exec (World V) Credential
  unfolding enforce_policy_access discard_through credential_backend
  discard_body user request c =
      enforce_policy_access env c user (some discard) request
      >> require (has_staged_version c) (invalid nothing_staged)
      >> λ w. discard_through user request c (credential_backend env c w.db) w

  -- `discard_staged`
  unfoldable pub discard_staged :
      Credential → Option User → Option Request → Exec (World V) Credential
  unfolding discard_body synchronized_material_change
  discard_staged c user request =
      synchronized_material_change env discard c user request (discard_body user request)

reason_example : promotion_reason true "" ≡ "verified"
unfolding promotion_reason
reason_example = refl
