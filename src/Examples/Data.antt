-- ===== src/Examples/Data.antt =====
-- Payloads, prefixes and service identities at concrete inputs.
use netbox_openbao.Prelude.{
  false, str_eq, contains_text, not, ◌&&◌, ◌||◌, true, none, some, [], ◌∷◌, ◌++◌, ◌≡◌, ◌↔◌, ◌⊎◌,
  refl, All,
}
use netbox_openbao.Exec.{ok}
use netbox_openbao.Json.{
  Value, text, object, Fields, field, end, Payload, entries, is_blank, truthy,
}
use netbox_openbao.Models.{Assignment, Credential, Db, AuthMaterial, of_engine, of_policy}
use netbox_openbao.Models.Paths.{validate_path_prefix, path_for_prefix, segments}
use netbox_openbao.Models.Paths.Segments.{
  Proper, validate_path_prefix_iff, path_for_prefix-segments,
}
use netbox_openbao.Secrets.Schema.{Schema}
use netbox_openbao.Secrets.Extractors.{Crypto, ed25519, words, Metadata}
use netbox_openbao.Secrets.Registry.{
  validate_payload, get_schema, extract_metadata, blanks_dropped, missing, unknown, get,
}
use netbox_openbao.Secrets.Registry.Accepts.{
  Accepts, of_entries, validate_payload_iff, validate_payload_again,
}
use netbox_openbao.Secrets.Registry.Extraction.{IsExtractable, extract_metadata_allowlist}
use netbox_openbao.Backends.{get_backend, policy_material}
use netbox_openbao.Backends.Identity.{get_backend-owner}
use netbox_openbao.Models.Assignments.{Target, Draft}
use netbox_openbao.AssignableModels.{
  Labels, Registry, register_assignable_models, normalize, assignable_model_labels,
}
use netbox_openbao.AssignableModels.Resolved.{assignable_model_labels_iff}
use netbox_openbao.AssignableModels.Registered.{Valid, register_assignable_models-Valid}
use netbox_openbao.Samples.{no_crypto, password, engine, policy, router, db_of}

-- A payload with a blank field, which is dropped.
abbrev with_blank : Value
with_blank = object (field "password" (text "new") (field "note" (text "") end))

validate_payload_iff_example :
    (validate_payload none (some []) "password" with_blank ≡ ok (password "new")) ↔ (
      (schema : Schema) × (fields : Fields) × (get_schema (some []) "password" ≡ ok schema)
      × (with_blank ≡ object fields)
      × (password "new" ≡ blanks_dropped (entries fields))
      × Accepts none schema (password "new"))
validate_payload_iff_example =
    validate_payload_iff none (some []) "password" with_blank (password "new")

validate_payload_again_example :
    validate_payload none (some []) "password" (object (of_entries (password "new")))
    ≡ ok (password "new")
unfolding validate_payload missing get is_blank truthy unknown
validate_payload_again_example =
    validate_payload_again none (some []) "password" with_blank (password "new") refl

-- A library that loads one key, and base64 and SHA-256 that leave their argument as it is.
abbrev one_key : Crypto
one_key = record no_crypto {
  load_ssh_private_key =
      λ key passphrase. some (record { openssh = some "ssh-ed25519 AAAA"; class = ed25519 });
  b64decode = λ s. some s;
}

abbrev key_payload : Payload
key_payload = ("private_key", text "key") ∷ []

abbrev key_metadata : Metadata
key_metadata =
    ("public_key", words "ssh-ed25519 AAAA")
    ∷ ("fingerprint", words "SHA256:AAAA")
    ∷ ("key_type", words "ed25519")
    ∷ []

extract_metadata_allowlist_example :
    All IsExtractable key_metadata × ((true ≡ true) ⊎ (key_metadata ≡ []))
unfolding extract_metadata get
extract_metadata_allowlist_example =
    extract_metadata_allowlist true one_key (some []) "ssh-keypair" key_payload key_metadata refl

validate_path_prefix_iff_example :
    (validate_path_prefix "team/netbox" ≡ ok tt) ↔ Proper "team/netbox"
validate_path_prefix_iff_example = validate_path_prefix_iff "team/netbox"

path_for_prefix-segments_example :
    Proper "team/netbox"
    × (segments "team/netbox/credentials/0f1e"
        ≡ segments "team/netbox" ++ ("credentials" ∷ segments "0f1e"))
unfolding path_for_prefix
path_for_prefix-segments_example =
    path_for_prefix-segments "team/netbox" "0f1e" "team/netbox/credentials/0f1e" refl

abbrev engine_identity : AuthMaterial
engine_identity = record { pk = 1; owner = of_engine 1; revision = 0 }

get_backend-owner_example :
    (engine_identity.owner ≡ of_policy 1)
    ⊎ ((policy_material policy (db_of router) ≡ none) × (engine_identity.owner ≡ of_engine 1))
unfolding get_backend
get_backend-owner_example = get_backend-owner engine policy (db_of router) engine_identity refl

-- A registry of models in which only one label names a model.
abbrev labels : Labels
labels = record {
  lower = λ s. s;
  repr = λ v. "value";
  model_exists = λ l. str_eq l "my_plugin.endpoint";
}

abbrev registry : Registry
registry =
    register_assignable_models labels
      (text " my_plugin.endpoint " ∷ text "my_plguin.endpoint" ∷ text "" ∷ [])
      (record { registered = []; rejected = [] })

registry-Valid : Valid labels registry
unfolding register_assignable_models
registry-Valid = (refl, tt)

assignable_model_labels_iff_example :
    contains_text
      (assignable_model_labels labels
        (text "dcim.device" ∷ [])
        (text "my_plugin.endpoint" ∷ [])
        registry)
      "my_plugin.endpoint"
    ≡ ((contains_text (normalize labels (text "dcim.device" ∷ [])) "my_plugin.endpoint"
          || contains_text registry.registered "my_plugin.endpoint")
        && not (
            contains_text (normalize labels (text "my_plugin.endpoint" ∷ [])) "my_plugin.endpoint"))
assignable_model_labels_iff_example =
    assignable_model_labels_iff labels (text "dcim.device" ∷ []) (text "my_plugin.endpoint" ∷ [])
      registry "my_plugin.endpoint"

denied_example :
    contains_text
      (assignable_model_labels labels
        (text "dcim.device" ∷ [])
        (text "my_plugin.endpoint" ∷ [])
        registry)
      "my_plugin.endpoint"
    ≡ false
unfolding assignable_model_labels register_assignable_models
denied_example = refl

register_assignable_models-Valid_example :
    Valid labels (register_assignable_models labels (text "Bad" ∷ text "x.y" ∷ []) registry)
    × (contains_text
          (register_assignable_models labels (text "Bad" ∷ text "x.y" ∷ []) registry).registered
          "my_plugin.endpoint"
        ≡ true)
unfolding register_assignable_models
register_assignable_models-Valid_example =
    register_assignable_models-Valid labels (text "Bad" ∷ text "x.y" ∷ []) registry
      "my_plugin.endpoint" registry-Valid refl

-- An SSH credential with a legacy binding to a device, of which another column is edited.
abbrev ssh_router : Credential
ssh_router = record router { credential_type = "ssh-password" }

abbrev legacy : Assignment
legacy = record {
  pk = 1;
  credential_id = 3;
  app_label = "dcim";
  model = "device";
  object_id = 9;
  purpose = "login";
  is_primary = false;
  enabled = true;
}

abbrev legacy_db : Db
legacy_db = record (db_of ssh_router) { assignments = legacy ∷ [] }

abbrev device : Target
device = record { app_label = "dcim"; model = "device"; object_id = 9 }

abbrev edited : Draft
edited = record { pk = some 1; credential_id = some 3; target = some device }
