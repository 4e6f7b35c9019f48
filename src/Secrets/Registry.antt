-- ===== src/Secrets/Registry.antt =====
-- netbox_openbao/secrets/registry.py: which schema a type has, which payloads it accepts, and
-- which public attributes are taken from them. `jsonschema` and the cryptography are arguments.
mod Dict
pub mod Accepts
pub mod Extraction
pub use Dict.{keys}
unfoldable pub use Dict.{get}
use netbox_openbao.Prelude.{
  String, Bool, true, false, Option, none, some, List, [], ◌∷◌, contains_text, keep, not, is_nil,
  is_some, sorted, ◌&&◌, ◌||◌, str_eq, if◌then◌else◌,
}
use netbox_openbao.Errors.{
  Exn, invalid, untranslated, unknown_type, not_an_object, payload_empty, missing_fields,
  unsupported_fields, schema_mismatch,
}
use netbox_openbao.Exec.{Outcome, ok, raise}
use netbox_openbao.Json.{Value, object, Payload, entries, truthy, is_blank}
use netbox_openbao.Secrets.Schema.{
  FieldSpec, VaultFields, StoredType, Schema, credential_schemas, lookup_schema, as_schema,
  stored_schema,
}
use netbox_openbao.Secrets.Extractors.{
  Crypto, Metadata, extract_ssh_metadata, extract_certificate_metadata,
}

-- `jsonschema.validate`: where the payload does not match the document, if anywhere. `none` is a
-- deployment without the package.
abbrev pub JsonSchema : Type 0
JsonSchema = Option (Value → Payload → Option String)

abbrev pub StoredTypes : Type 0
StoredTypes = Option (List StoredType)

from_stored : String → Option StoredType → Outcome Schema
unfolding as_schema
from_stored name (some row) = ok (as_schema row)
from_stored name none = raise (invalid (unknown_type name))

-- Built-in types win over stored ones.
unfoldable pub get_schema : StoredTypes → String → Outcome Schema
unfolding from_stored lookup_schema credential_schemas stored_schema
get_schema stored name = elim (lookup_schema name credential_schemas) [
  | some schema ↦ ok schema
  | none ↦ from_stored name (stored_schema stored name)
]

unfoldable pub is_known_credential_type : StoredTypes → String → Bool
unfolding lookup_schema credential_schemas stored_schema
is_known_credential_type stored name =
    is_some (lookup_schema name credential_schemas) || is_some (stored_schema stored name)

-- `not cleaned.get(name)`, negated
abbrev pub is_given : Payload → String → Bool
is_given cleaned name = elim (get name cleaned) [ none ↦ false | some v ↦ truthy v ]

-- The names of the required fields without a truthy value.
unfoldable pub missing : VaultFields → Payload → List String
missing [] cleaned = []
missing ((name, spec) ∷ rest) cleaned =
    if spec.required && not (is_given cleaned name)
    then name ∷ missing rest cleaned
    else missing rest cleaned

-- `set(cleaned) - set(fields)`
unfoldable pub unknown : VaultFields → Payload → List String
unknown fields cleaned = keep (λ key. not (contains_text (keys fields) key)) (keys cleaned)

abbrev pub violation : JsonSchema → Option Value → Payload → Option String
violation (some validate) (some document) cleaned = validate document cleaned
violation _ _ _ = none

check_schema : JsonSchema → Schema → Payload → Outcome Payload
check_schema jsonschema schema cleaned = elim (violation jsonschema schema.json_schema cleaned) [
  | some path ↦ raise (invalid (schema_mismatch path))
  | none ↦ if is_nil cleaned then raise (invalid payload_empty) else ok cleaned
]

abbrev pub blanks_dropped : Payload → Payload
blanks_dropped = keep (λ item. not (is_blank item.1))

unfoldable pub validate_items : JsonSchema → Schema → Payload → Outcome Payload
unfolding check_schema
validate_items jsonschema schema items =
    let cleaned = blanks_dropped items in
    let absent = missing schema.vault_fields cleaned in
    let extra = unknown schema.vault_fields cleaned in
    if not (is_nil absent)
    then raise (invalid (missing_fields (sorted absent)))
    else if not schema.allow_arbitrary_keys && not (is_nil extra)
    then raise (invalid (unsupported_fields (sorted extra)))
    else check_schema jsonschema schema cleaned

validate_against : JsonSchema → Outcome Schema → Value → Outcome Payload
unfolding validate_items entries
validate_against jsonschema (raise e) v = raise e
validate_against jsonschema (ok schema) (object fields) =
    validate_items jsonschema schema (entries fields)
validate_against jsonschema (ok schema) _ = raise (invalid not_an_object)

unfoldable pub validate_payload : JsonSchema → StoredTypes → String → Value → Outcome Payload
unfolding validate_against get_schema
validate_payload jsonschema stored name v = validate_against jsonschema (get_schema stored name) v

-- `EXTRACTORS`. A payload without the field that the extractor reads raises a `KeyError`.
unfoldable pub run_extractor : Crypto → String → Payload → Option (Outcome Metadata)
unfolding extract_ssh_metadata extract_certificate_metadata
run_extractor crypto name payload =
    if str_eq name "ssh"
    then some (elim (get "private_key" payload) [
      | none ↦ raise untranslated
      | some key ↦ extract_ssh_metadata crypto key (get "passphrase" payload)
    ])
    else if str_eq name "x509"
    then some (elim (get "certificate" payload) [
      | none ↦ raise untranslated
      | some certificate ↦ extract_certificate_metadata crypto certificate
    ])
    else none

-- `EXTRACTABLE_FIELDS`
abbrev pub extractable_fields : List String
extractable_fields =
    "public_key" ∷ "fingerprint" ∷ "key_type" ∷ "cert_serial" ∷ "cert_subject" ∷ "cert_issuer"
    ∷ "valid_from" ∷ "valid_until" ∷ []

allowed : Metadata → Metadata
allowed = keep (λ item. contains_text extractable_fields item.0)

allow_extracted : Option (Outcome Metadata) → Outcome Metadata
unfolding allowed
allow_extracted none = ok []
allow_extracted (some (raise e)) = raise e
allow_extracted (some (ok extracted)) = ok (allowed extracted)

extract_with : Crypto → Outcome Schema → Payload → Outcome Metadata
unfolding allow_extracted run_extractor
extract_with crypto (raise e) payload = raise e
extract_with crypto (ok schema) payload = elim schema.extractor [
  | none ↦ ok []
  | some name ↦ allow_extracted (run_extractor crypto name payload)
]

-- `extract_metadata`; the first argument is the setting `store_public_material`.
unfoldable pub extract_metadata : Bool → Crypto → StoredTypes → String → Payload → Outcome Metadata
unfolding extract_with get_schema
extract_metadata store_public crypto stored name payload =
    if store_public then extract_with crypto (get_schema stored name) payload else ok []
