-- ===== src/Errors.antt =====
-- The exceptions of netbox_openbao/backends/exceptions.py, and the Django exceptions that the
-- modelled code raises or catches.
use netbox_openbao.Prelude.{ℕ, String, Option, none, List}

-- The classes of backends/exceptions.py. `failed` is the base class itself.
pub data OpenBaoClass : Type 0 where
  failed configuration auth not_found conflict unavailable mutation_unknown : OpenBaoClass

-- An exception object: its class, its fixed text and an HTTP status at most.
pub record OpenBaoError : Type 0 where
  pub class : OpenBaoClass
  pub message : String
  pub status_code : Option ℕ

unfoldable pub default_message : OpenBaoClass → String
default_message failed = "OpenBao request failed."
default_message configuration = "Secret backend is not correctly configured."
default_message auth = "OpenBao rejected the plugin credentials for this engine."
default_message not_found = "No secret exists at the requested path."
default_message conflict = "The secret was modified concurrently; the write was refused."
default_message unavailable = "OpenBao is unreachable or sealed."
default_message mutation_unknown =
    "OpenBao may have accepted the request; verify state before retrying."

-- `Cls(status_code=code)` and `Cls(message)`
unfoldable pub coded : OpenBaoClass → Option ℕ → OpenBaoError
unfolding default_message
coded c code = record { class = c; message = default_message c; status_code = code }

unfoldable pub worded : OpenBaoClass → String → OpenBaoError
worded c message = record { class = c; message = message; status_code = none }

-- Why a `ValidationError` was raised: the field it names and the detail of its text.
pub data Invalid : Type 0 where
  unknown_type : String → Invalid
  not_an_object payload_empty : Invalid
  missing_fields unsupported_fields : List String → Invalid
  schema_mismatch : String → Invalid
  engine_mismatch window_reversed direct_ssh_type direct_ssh_binding : Invalid
  not_assignable : String → Invalid
  reason_required already_staged nothing_staged : Invalid
  version_gone : ℕ → Invalid
  relationships_changed participant_missing : Invalid
  bad_path_prefix prefix_in_use : Invalid
  other_invalid : Invalid

pub data Exn : Type 0 where
  openbao : OpenBaoError → Exn
  invalid : Invalid → Exn
  permission_denied automation_denied : Exn
  -- A constraint of the database; `rejected` says that its SQLSTATE begins with 23.
  integrity_error : Exn
  does_not_exist : Exn
  -- The connection failed, so that the outcome of a statement is not known.
  operational_error : Exn
  -- `CapabilitySchemaError` of administration/schema.py, and errors of the language, by their texts.
  capability_schema value_error runtime_error : String → Exn
  -- `AuthMaterialDecryptionError` of models/auth.py, and `AdministrationAuditError` of
  -- administration/audit.py
  undecryptable administration_unaudited : Exn
  -- Anything else that a library may raise.
  untranslated : Exn
