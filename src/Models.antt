-- ===== src/Models.antt =====
-- The rows of the database (netbox_openbao/models), with the columns that the modelled code reads
-- or writes, and the objects of NetBox that it is given: users and requests.
pub mod Columns
pub mod Paths
pub mod Credentials
pub mod Assignments
pub mod AuthMaterials
use netbox_openbao.Prelude.{
  ℕ, suc, String, Bool, true, false, Option, none, some, List, [], ◌∷◌, ◌==◌, opt_eq, first,
  if◌then◌else◌,
}
use netbox_openbao.Secrets.Schema.{StoredType}

-- `CredentialStatusChoices`
pub data Status : Type 0 where
  active staged rotating expired retired compromised : Status

-- `AccessActionChoices`
pub data Action : Type 0 where
  reveal write rotate stage promote discard delete configure : Action

pub record User : Type 0 where
  pub pk : ℕ
  pub username : String
  pub is_authenticated : Bool
  pub is_active : Bool
  pub is_superuser : Bool
  pub groups : List ℕ

-- What `_request_context` reads of a request: the client address, where it can be determined.
pub record Request : Type 0 where
  pub client_ip : Option String
  pub id : String

-- models/engines.py
pub record Engine : Type 0 where
  pub pk : ℕ
  pub slug : String
  pub backend : String
  pub api_url : String
  pub namespace : String
  pub kv_mount : String
  pub kv_version : ℕ
  pub auth_method : String
  pub tls_verify : Bool
  pub ca_cert_path : String

-- models/policies.py
pub record Policy : Type 0 where
  pub pk : ℕ
  pub slug : String
  pub engine_id : ℕ
  pub groups : List ℕ
  pub max_reveal_ttl : ℕ
  pub require_reason : Bool

-- models/credentials.py. An object that was not saved has no `pk` and a blank `path`.
pub record Credential : Type 0 where
  pub pk : Option ℕ
  pub name : String
  pub uuid : String
  pub credential_type : String
  pub policy_id : ℕ
  pub engine_id : Option ℕ
  pub path : String
  pub username : String
  pub public_key : String
  pub fingerprint : String
  pub key_type : String
  pub cert_serial : String
  pub cert_subject : String
  pub cert_issuer : String
  pub valid_from : Option ℕ
  pub valid_until : Option ℕ
  pub import_source : String
  pub status : Status
  pub rotation_interval : Option ℕ
  pub created : ℕ
  pub last_rotated : Option ℕ
  pub kv_version : Option ℕ
  pub live_kv_version : Option ℕ
  pub staged_kv_version : Option ℕ
  pub live_key_fingerprint : String
  pub live_key_version : Option ℕ
  pub staged_key_fingerprint : String
  pub staged_key_version : Option ℕ
  pub last_verified : Option ℕ

-- models/assignments.py; the content type is the pair of its two labels.
pub record Assignment : Type 0 where
  pub pk : ℕ
  pub credential_id : ℕ
  pub app_label : String
  pub model : String
  pub object_id : ℕ
  pub purpose : String
  pub is_primary : Bool
  pub enabled : Bool

-- models/auth.py: whose service identity a row is, and its revision.
pub data AuthOwner : Type 0 where
  of_engine of_policy of_cluster : ℕ → AuthOwner

pub record AuthMaterial : Type 0 where
  pub pk : ℕ
  pub owner : AuthOwner
  pub revision : ℕ

-- models/audit.py
pub record AccessLog : Type 0 where
  pub pk : ℕ
  pub credential : Option ℕ
  pub credential_name_snapshot : String
  pub credential_uuid_snapshot : Option String
  pub user : Option ℕ
  pub username_snapshot : String
  pub action : Action
  pub success : Bool
  pub reason : String
  pub message : String
  pub source_ip : Option String
  pub request_id : String
  pub executor : Option ℕ
  pub executor_snapshot : String
  pub execution_id : Option ℕ
  pub intent_run_id : Option ℕ
  pub step_id : String
  pub reference_name : String
  pub assignment_id : Option ℕ
  pub resolved_version : Option ℕ
  pub purpose : String
  pub dispatch_nonce_digest : String

-- models/automation.py
pub record Receipt : Type 0 where
  pub execution_id : ℕ
  pub dispatch_nonce_digest : String
  pub step_id : String
  pub reference_name : String
  pub credential_uuid : String
  pub assignment_id : ℕ
  pub resolved_version : ℕ

-- The columns of models/settings.py that the modelled code reads.
pub record Settings : Type 0 where
  pub path_prefix : String
  pub store_public_material : Bool
  pub reveal_ttl : ℕ

pub record Db : Type 0 where
  pub credentials : List Credential
  pub policies : List Policy
  pub engines : List Engine
  pub assignments : List Assignment
  pub auth_materials : List AuthMaterial
  pub stored_types : Option (List StoredType)
  pub access_log : List AccessLog
  pub receipts : List Receipt
  pub settings : Option Settings
  -- The sequences of the two tables that the code inserts into.
  pub next_credential : ℕ
  pub next_log : ℕ

-- `objects.filter(pk=pk).first()`
unfoldable pub find_credential : ℕ → Db → Option Credential
find_credential pk db = first (λ row. opt_eq row.pk (some pk)) db.credentials

unfoldable pub find_policy : ℕ → Db → Option Policy
find_policy pk db = first (λ row. row.pk == pk) db.policies

unfoldable pub find_engine : ℕ → Db → Option Engine
find_engine pk db = first (λ row. row.pk == pk) db.engines

-- `get_config`, for the three settings: the row, or the defaults of the model.
abbrev pub default_settings : Settings
default_settings = record { path_prefix = "netbox"; store_public_material = true; reveal_ttl = 300 }

unfoldable pub current_settings : Db → Settings
current_settings db = elim db.settings [ none ↦ default_settings | some row ↦ row ]
