-- ===== src/Backends/Session.antt =====
-- What the backends of netbox_openbao/backends share: the health that they report, the verification of
-- TLS, and the refresh of a service identity in base.py.
use netbox_openbao.Prelude.{
  ℕ, ◌<>◌, String, Bool, true, false, Option, none, some, List, [], ◌∷◌, first, str_eq,
  print_number, not, ◌==◌, if◌then◌else◌,
}
use netbox_openbao.Json.{Value, null, int, pos, Items, nil, cons, Fields, end, field, Payload}
use netbox_openbao.Models.{Engine}
use netbox_openbao.Models.AuthMaterials.{EngineAuthMaterial}

-- `EngineStatusChoices`
pub data EngineStatus : Type 0 where
  unknown healthy sealed standby unreachable unauthorized : EngineStatus

pub record Health : Type 0 where
  pub status : EngineStatus
  pub message : String
  pub raw : Option Value

-- `engine.ca_cert_path or engine.tls_verify`
pub data Verify : Type 0 where
  ca_bundle : String → Verify
  system_trust : Bool → Verify

abbrev pub verify_of : Engine → Verify
verify_of engine =
    if str_eq engine.ca_cert_path ""
    then system_trust engine.tls_verify
    else ca_bundle engine.ca_cert_path

-- `bool(verify)`
unfoldable pub verifies : Verify → Bool
verifies (ca_bundle path) = not (str_eq path "")
verifies (system_trust b) = b

-- `refresh_auth_material`: whether the identity changed, and the identity after it.
unfoldable pub refreshed :
    Option EngineAuthMaterial → EngineAuthMaterial → Bool × Option EngineAuthMaterial
refreshed none material = (true, none)
refreshed (some row) material =
    if row.revision == material.revision then (false, some material) else (true, some row)

unfoldable pub refresh_auth_material :
    List EngineAuthMaterial → Option EngineAuthMaterial → Bool × Option EngineAuthMaterial
unfolding refreshed
refresh_auth_material table none = (false, none)
refresh_auth_material table (some material) =
    refreshed (first (λ row. row.pk == material.pk) table) material

-- `cache_identity`
unfoldable pub cache_identity : EngineAuthMaterial → String
unfolding print_number
cache_identity row = print_number row.pk <> (":" <> print_number row.revision)

abbrev pub identity_or_missing : Option EngineAuthMaterial → String
unfolding cache_identity
identity_or_missing none = "missing"
identity_or_missing (some row) = cache_identity row

-- JSON of the code's own.
unfoldable pub fields_of : Payload → Fields
fields_of [] = end
fields_of ((key, value) ∷ rest) = field key value (fields_of rest)

unfoldable pub numbers : List (Option ℕ) → Items
numbers [] = nil
numbers (none ∷ rest) = cons null (numbers rest)
numbers (some n ∷ rest) = cons (int (pos n)) (numbers rest)
