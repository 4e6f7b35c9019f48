-- ===== src/Secrets/Schema.antt =====
-- The data of netbox_openbao/secrets/registry.py: what a credential type declares, the table of
-- the built-in types, and the stored types of netbox_openbao/models/schemas.py.
use netbox_openbao.Prelude.{
  String, Bool, true, false, Option, none, some, List, [], ◌∷◌, map, contains_text, str_eq, first,
  if◌then◌else◌,
}
use netbox_openbao.Json.{Value}

-- `{'required': ..., 'secret': ...}`
pub record FieldSpec : Type 0 where
  pub required : Bool
  pub secret : Bool

abbrev pub VaultFields : Type 0
VaultFields = List (String × FieldSpec)

-- A row of `CredentialTypeSchema`. The JSON Schema document is kept whole, beside the two entries
-- that the code reads of it: the names of its properties, and its list of required names.
pub record StoredType : Type 0 where
  pub slug : String
  pub name : String
  pub document : Value
  pub properties : List String
  pub required : List String
  pub secret_fields : List String
  pub extractor : String

pub record Schema : Type 0 where
  pub vault_fields : VaultFields
  pub extractor : Option String
  pub allow_arbitrary_keys : Bool
  pub json_schema : Option Value
  pub stored : Option StoredType

abbrev spec : Bool → Bool → FieldSpec
spec required secret = record { required = required; secret = secret }

abbrev built_in : VaultFields → Option String → Schema
built_in fields extractor = record {
  vault_fields = fields;
  extractor = extractor;
  allow_arbitrary_keys = false;
  json_schema = none;
  stored = none;
}

-- `CREDENTIAL_SCHEMAS`
unfoldable pub credential_schemas : List (String × Schema)
credential_schemas =
    ("password", built_in (("password", spec true true) ∷ []) none)
    ∷ ("ssh-password", built_in (("password", spec true true) ∷ []) none)
    ∷ ("api-token", built_in (("token", spec true true) ∷ []) none)
    ∷ (
      "ssh-keypair",
      built_in
          (("private_key", spec true true)
            ∷ ("passphrase", spec false true)
            ∷ ("public_key", spec false false)
            ∷ [])
          (some "ssh"),
    )
    ∷ (
      "x509-keypair",
      built_in
          (("private_key", spec true true)
            ∷ ("certificate", spec true false)
            ∷ ("chain", spec false false)
            ∷ [])
          (some "x509"),
    )
    ∷ (
      "x509-ca",
      built_in (("private_key", spec false true) ∷ ("certificate", spec true false) ∷ [])
          (some "x509"),
    )
    ∷ (
      "snmp-v3",
      built_in
          (("auth_password", spec true true)
            ∷ ("priv_password", spec false true)
            ∷ ("auth_protocol", spec false false)
            ∷ ("priv_protocol", spec false false)
            ∷ [])
          none,
    )
    ∷ (
      "wireguard",
      built_in
          (("private_key", spec true true)
            ∷ ("preshared_key", spec false true)
            ∷ ("public_key", spec false false)
            ∷ [])
          none,
    )
    ∷ (
      "generic-kv",
      record {
        vault_fields = [];
        extractor = none;
        allow_arbitrary_keys = true;
        json_schema = none;
        stored = none;
      },
    )
    ∷ []

-- `CREDENTIAL_SCHEMAS.get(name)`
unfoldable pub lookup_schema : String → List (String × Schema) → Option Schema
lookup_schema name [] = none
lookup_schema name ((key, schema) ∷ rest) =
    if str_eq key name then some schema else lookup_schema name rest

-- `_as_schema`
unfoldable pub as_schema : StoredType → Schema
as_schema stored = record {
  vault_fields =
      map
        (λ name. (
          name,
          record {
            required = contains_text stored.required name;
            secret = contains_text stored.secret_fields name;
          },
        ))
        stored.properties;
  extractor = if str_eq stored.extractor "" then none else some stored.extractor;
  allow_arbitrary_keys = false;
  json_schema = some stored.document;
  stored = some stored;
}

-- `_stored_schema`: the first row of the slug; `none` for a table that cannot be read.
unfoldable pub stored_schema : Option (List StoredType) → String → Option StoredType
stored_schema none name = none
stored_schema (some rows) name = first (λ row. str_eq row.slug name) rows
