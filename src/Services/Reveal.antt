-- ===== src/Services/Reveal.antt =====
-- `reveal_material` and `read_automation_bundle` of netbox_openbao/services.py.
pub mod Done
use Prim.Native.Char.{code}
use netbox_openbao.Prelude.{
  ℕ, suc, ◌+◌, String, Bool, true, false, Option, none, some, List, [], ◌∷◌, not, leb, ltb, str_eq,
  ◌==◌, ◌&&◌, ◌||◌, min, is_space, if◌then◌else◌,
}
use netbox_openbao.Errors.{
  Exn, openbao, worded, failed, invalid, reason_required, untranslated, does_not_exist,
}
use netbox_openbao.Exec.{
  Exec, Outcome, ok, raise, pure, throw, lift, modify, require, continue, ◌>>=◌, ◌>>◌,
}
use netbox_openbao.Json.{Value, text, object, Payload, entries}
use netbox_openbao.Models.{
  Credential, Policy, User, Request, Action, reveal, Db, find_policy, current_settings,
}
use netbox_openbao.Secrets.Schema.{FieldSpec, VaultFields}
use netbox_openbao.Secrets.Registry.{get}
use netbox_openbao.Secrets.Identity.{verify_bundle_identity}
use netbox_openbao.Backends.{Backend, SecretBackend}
use netbox_openbao.World.{World, Env, on_vault}
use netbox_openbao.Services.Audit.{entry, log_access}
use netbox_openbao.Services.Access.{enforce_policy_access}
use netbox_openbao.Services.Projection.{credential_backend}

-- `not (reason or '').strip()`
unfoldable pub is_blank_text : String → Bool
unfolding is_space
is_blank_text String.[] = true
is_blank_text (String.◌∷◌ c s) = is_space (code c) && is_blank_text s

-- `min(int(get_config('reveal_ttl') or 300), policy.max_reveal_ttl)`
unfoldable pub reveal_ttl_of : Db → Policy → ℕ
unfolding current_settings
reveal_ttl_of db policy =
    let configured = (current_settings db).reveal_ttl in
    min (if configured == 0 then 300 else configured) policy.max_reveal_ttl

-- The version that is read: the one that was asked for, or the live one, or the latest.
unfoldable pub effective_version : Credential → Option ℕ → Option ℕ
effective_version c none = c.live_kv_version
effective_version c (some version) = some version

-- `len(text.encode('utf-8'))`
unfoldable pub utf8_length : String → ℕ
utf8_length String.[] = 0
utf8_length (String.◌∷◌ c s) =
    (if ltb (code c) 128
      then 1
      else if ltb (code c) 2048
      then 2
      else if ltb (code c) 65536
      then 3
      else 4)
    + utf8_length s

unfoldable pub invalid_payload : Exn
unfolding worded
invalid_payload = openbao (worded failed "The credential payload is invalid.")

project_field : String → FieldSpec → Payload → Outcome Payload → Outcome Payload
unfolding get utf8_length invalid_payload
project_field name spec bundle (raise e) = raise e
project_field name spec bundle (ok rest) = elim (get name bundle) [
  | none ↦ if spec.required then raise invalid_payload else ok rest
  | some (text s) ↦
      if leb (utf8_length s) 262144 then ok ((name, text s) ∷ rest) else raise invalid_payload
  | some _ ↦ raise invalid_payload
]

-- The declared fields of the bundle, in their order; every refusal is the same exception.
unfoldable pub project_bundle : VaultFields → Payload → Outcome Payload
unfolding project_field
project_bundle [] bundle = ok []
project_bundle ((name, spec) ∷ rest) bundle =
    let others = project_bundle rest bundle in project_field name spec bundle others

module _ {V : Type 0} (env : Env V) where
  log_reveal :
      Credential → Option User → Option Request → String → Outcome Value → Exec (World V) Value
  unfolding log_access
  log_reveal c user request reason (ok bundle) =
      log_access env c user (entry reveal true reason "") request >> pure bundle
  log_reveal c user request reason (raise (openbao e)) =
      log_access env c user (entry reveal false reason e.message) request >> throw (openbao e)
  log_reveal c user request reason (raise e) = throw e

  read_through :
      Credential
      → Option User
      → Option Request
      → String
      → Option ℕ
      → Option Backend
      → Exec (World V) Value
  unfolding log_reveal on_vault
  read_through c user request reason version none w = (raise untranslated, w)
  read_through c user request reason version (some backend) w =
      let (r, w') = on_vault ((env.backend backend).read c.path version) w in
      log_reveal c user request reason r w'

  reveal_with :
      Credential
      → Option User
      → Option Request
      → String
      → Option ℕ
      → Option Policy
      → Exec (World V) (Value × ℕ)
  unfolding is_blank_text log_access read_through credential_backend effective_version reveal_ttl_of
  reveal_with c user request reason version none = throw does_not_exist
  reveal_with c user request reason version (some policy) =
      if policy.require_reason && is_blank_text reason
      then (log_access env c user (entry reveal false "" "Reason required by policy.") request
          >> throw (invalid reason_required))
      else (λ w.
          (read_through c user request reason (effective_version c version)
                (credential_backend env c w.db)
              >>= λ bundle s. (ok (bundle, reveal_ttl_of s.db policy), s))
            w)

  -- `reveal_material`
  unfoldable pub reveal_material :
      Credential
      → Option User
      → Option Request
      → (reason : String) → (version : Option ℕ) → Exec (World V) (Value × ℕ)
  unfolding enforce_policy_access reveal_with find_policy
  reveal_material c user request reason version =
      enforce_policy_access env c user (some reveal) request >> λ w.
      reveal_with c user request reason version (find_policy c.policy_id w.db) w

  unfoldable pub bundle_of :
      Credential
      → VaultFields
      → (expected : String) → Option Policy
      → Value
      → Exec (World V) (Payload × ℕ)
  unfolding verify_bundle_identity project_bundle invalid_payload reveal_ttl_of
  bundle_of c fields expected none bundle w = (raise does_not_exist, w)
  bundle_of c fields expected (some policy) (object bundle) w =
      continue (verify_bundle_identity env.crypto w.db.stored_types c (entries bundle) expected)
        (λ _. lift (project_bundle fields (entries bundle)) >>= λ result s.
          (ok (result, reveal_ttl_of s.db policy), s))
        w
  bundle_of c fields expected (some policy) _ w = (raise invalid_payload, w)

  unfoldable pub read_bundle :
      Credential
      → ℕ
      → VaultFields
      → (expected : String) → Option Backend
      → Exec (World V) (Payload × ℕ)
  unfolding bundle_of on_vault find_policy
  read_bundle c version fields expected none w = (raise untranslated, w)
  read_bundle c version fields expected (some backend) w =
      (on_vault ((env.backend backend).read c.path (some version)) >>= λ bundle s.
      bundle_of c fields expected (find_policy c.policy_id s.db) bundle s)
        w

  -- `read_automation_bundle`: exactly the version that the caller authorized.
  unfoldable pub read_automation_bundle :
      Credential → (version : ℕ) → VaultFields → (expected : String) → Exec (World V) (Payload × ℕ)
  unfolding read_bundle credential_backend
  read_automation_bundle c version fields expected w =
      read_bundle c version fields expected (credential_backend env c w.db) w
