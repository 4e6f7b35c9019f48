-- ===== src/Samples.antt =====
-- A small installation on which the examples run: a key-value server with versions, the rows of
-- one engine, one tier and its credentials, and an environment whose commits succeed.
use netbox_openbao.Prelude.{
  ℕ, suc, String, Bool, true, false, Option, none, some, List, [], ◌∷◌, map, first, str_eq, ◌==◌,
  any, opt_eq, not, ◌&&◌, if◌then◌else◌,
}
use netbox_openbao.Errors.{openbao, coded, conflict, not_found}
use netbox_openbao.Exec.{Exec, Outcome, ok, raise}
use netbox_openbao.Json.{Value, text, object, Fields, field, end, Payload}
use netbox_openbao.Models.{
  Status, active, Action, User, Engine, Policy, Credential, AuthMaterial, of_engine, of_policy,
  AccessLog, Db, Assignment,
}
use netbox_openbao.Secrets.Extractors.{Crypto}
use netbox_openbao.Backends.{SecretBackend, VersionInfo}
use netbox_openbao.World.{World, Env, Commit, done}

-- One version of a secret, and the versions of each path.
pub record Stored : Type 0 where
  pub number : ℕ
  pub material : Payload
  pub deleted : Bool

abbrev pub Server : Type 0
Server = List (String × List Stored)

abbrev versions_at : String → Server → List Stored
versions_at path [] = []
versions_at path ((p, versions) ∷ rest) =
    let others = versions_at path rest in if str_eq p path then versions else others

abbrev put : String → List Stored → Server → Server
put path versions [] = (path, versions) ∷ []
put path versions ((p, old) ∷ rest) =
    let others = put path versions rest in
    if str_eq p path then (path, versions) ∷ rest else (p, old) ∷ others

-- The number of the newest version: versions are kept newest first.
abbrev current : List Stored → ℕ
current [] = 0
current (v ∷ rest) = v.number

abbrev as_fields : Payload → Fields
as_fields [] = end
as_fields ((k, v) ∷ rest) = field k v (as_fields rest)

abbrev wanted : Option ℕ → Stored → Bool
wanted none v = not v.deleted
wanted (some n) v = not v.deleted && v.number == n

abbrev answer : Option Stored → Server → Outcome Value × Server
answer none server = (raise (openbao (coded not_found (some 404))), server)
answer (some v) server = (ok (object (as_fields v.material)), server)

abbrev cas_allows : Option ℕ → ℕ → Bool
cas_allows none n = true
cas_allows (some m) n = m == n

abbrev write_version : String → Payload → Option ℕ → Exec Server ℕ
write_version path material cas server =
    let versions = versions_at path server in
    let number = suc (current versions) in
    if cas_allows cas (current versions)
    then (
      ok number,
      put path (record { number = number; material = material; deleted = false } ∷ versions) server,
    )
    else (raise (openbao (coded conflict (some 409))), server)

abbrev delete_stored : List (Option ℕ) → Stored → Stored
delete_stored [] v = record v { deleted = true }
delete_stored (n ∷ rest) v =
    if any (opt_eq (some v.number)) (n ∷ rest) then record v { deleted = true } else v

abbrev delete_versions : String → List (Option ℕ) → Exec Server (Unit {0})
delete_versions path numbers server =
    (ok tt, put path (map (delete_stored numbers) (versions_at path server)) server)

abbrev info : Stored → VersionInfo
info v = record { version = v.number; deletion_time = none; destroyed = v.deleted }

abbrev pub key_value : SecretBackend Server
key_value = record {
  read = λ path version server. answer (first (wanted version) (versions_at path server)) server;
  write = write_version;
  delete = delete_versions;
  list_versions = λ path server. (ok (map info (versions_at path server)), server);
  set_metadata = λ path metadata server. (ok tt, server);
}

abbrev pub no_crypto : Crypto
no_crypto = record {
  printed = λ v. "";
  load_ssh_private_key = λ key passphrase. none;
  load_pem_private_key = λ key passphrase. none;
  load_pem_certificate = λ pem. none;
  load_der_certificate = λ der. none;
  b64decode = λ s. none;
  sha256 = λ s. s;
  b64encode_stripped = λ s. s;
}

abbrev pub env_with : (Db → Commit) → Env Server
env_with commit = record {
  backend = λ backend. key_value;
  crypto = no_crypto;
  fields_valid = λ db c. true;
  jsonschema = none;
  log_accepts = λ db row. true;
  commit = commit;
  credential_url = λ c. "";
}

abbrev pub env : Env Server
env = env_with (λ db. done)

abbrev pub engine : Engine
engine = record {
  pk = 1;
  slug = "main";
  backend = "openbao";
  api_url = "https://bao.example";
  namespace = "";
  kv_mount = "secret";
  kv_version = 2;
  auth_method = "approle";
  tls_verify = true;
  ca_cert_path = "";
}

abbrev pub policy : Policy
policy = record {
  pk = 1;
  slug = "network";
  engine_id = 1;
  groups = 7 ∷ [];
  max_reveal_ttl = 60;
  require_reason = true;
}

abbrev pub operator : User
operator = record {
  pk = 5;
  username = "operator";
  is_authenticated = true;
  is_active = true;
  is_superuser = false;
  groups = 7 ∷ [];
}

-- A credential with one live version.
abbrev pub router : Credential
router = record {
  pk = some 3;
  name = "router";
  uuid = "0f1e";
  credential_type = "password";
  policy_id = 1;
  engine_id = some 1;
  path = "netbox/credentials/0f1e";
  username = "admin";
  public_key = "";
  fingerprint = "";
  key_type = "";
  cert_serial = "";
  cert_subject = "";
  cert_issuer = "";
  valid_from = none;
  valid_until = none;
  import_source = "";
  status = active;
  rotation_interval = none;
  created = 0;
  last_rotated = none;
  kv_version = some 1;
  live_kv_version = some 1;
  staged_kv_version = none;
  live_key_fingerprint = "";
  live_key_version = none;
  staged_key_fingerprint = "";
  staged_key_version = none;
  last_verified = none;
}

-- The same credential with a second version that is staged.
abbrev pub staged_router : Credential
staged_router = record router {
  kv_version = some 2;
  staged_kv_version = some 2;
  status = netbox_openbao.Models.staged;
}

abbrev pub password : String → Payload
password s = ("password", text s) ∷ []

abbrev pub db_of : Credential → Db
db_of c = record {
  credentials = c ∷ [];
  policies = policy ∷ [];
  engines = engine ∷ [];
  assignments = [];
  auth_materials = record { pk = 1; owner = of_engine 1; revision = 0 } ∷ [];
  stored_types = some [];
  access_log = [];
  receipts = [];
  settings = none;
  next_credential = 4;
  next_log = 1;
}

abbrev pub stored : ℕ → String → Stored
stored number s = record { number = number; material = password s; deleted = false }

abbrev pub one_version : Server
one_version = ("netbox/credentials/0f1e", stored 1 "old" ∷ []) ∷ []

abbrev pub two_versions : Server
two_versions = ("netbox/credentials/0f1e", stored 2 "new" ∷ stored 1 "old" ∷ []) ∷ []

abbrev pub world_of : Credential → Server → World Server
world_of c server = record {
  base = db_of c;
  db = db_of c;
  vault = server;
  owner = none;
  closed_owner = none;
  callbacks = [];
  in_atomic = false;
  connection_lost = false;
  held = none;
  others = [];
  now = 100;
  next_operation = "operation";
}

abbrev pub idle_world : World Server
idle_world = world_of router one_version

abbrev pub staged_world : World Server
staged_world = world_of staged_router two_versions

-- The payload of a rotation.
abbrev pub new_password : Value
new_password = object (field "password" (text "new") end)
