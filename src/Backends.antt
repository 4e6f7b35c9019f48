-- ===== src/Backends.antt =====
-- netbox_openbao/backends/__init__.py and base.py: which backend serves an engine, with which
-- service identity, and the contract that every backend implements.
pub mod Identity
pub mod Session
pub mod Broker
pub mod OpenBao
use netbox_openbao.Prelude.{
  ℕ, String, Bool, false, Option, none, some, List, str_eq, first, ◌==◌, if◌then◌else◌,
}
use netbox_openbao.Exec.{Exec}
use netbox_openbao.Json.{Value, Payload}
use netbox_openbao.Models.{
  Engine, Policy, AuthMaterial, AuthOwner, of_engine, of_policy, of_cluster, Db,
}

-- The classes of the registry `BACKENDS`.
pub data BackendKind : Type 0 where
  openbao_backend vault_backend broker_backend : BackendKind

-- A backend object: its class, its engine and the service identity that it will present.
pub record Backend : Type 0 where
  pub kind : BackendKind
  pub engine : Engine
  pub auth_material : Option AuthMaterial

-- `BACKENDS.get(engine.backend or DEFAULT_BACKEND, OpenBaoBackend)`
unfoldable pub backend_class : String → BackendKind
backend_class name =
    if str_eq name "vault"
    then vault_backend
    else if str_eq name "broker"
    then broker_backend
    else openbao_backend

abbrev pub owns_engine : ℕ → AuthOwner → Bool
owns_engine pk (of_engine n) = n == pk
owns_engine pk _ = false

abbrev pub owns_policy : ℕ → AuthOwner → Bool
owns_policy pk (of_policy n) = n == pk
owns_policy pk _ = false

-- `engine.auth_material` and `policy.auth_material`
abbrev pub engine_material : Engine → Db → Option AuthMaterial
engine_material e db = first (λ row. owns_engine e.pk row.owner) db.auth_materials

abbrev pub policy_material : Policy → Db → Option AuthMaterial
policy_material p db = first (λ row. owns_policy p.pk row.owner) db.auth_materials

abbrev pub or_engine : Engine → Db → Option AuthMaterial → Option AuthMaterial
or_engine e db (some row) = some row
or_engine e db none = engine_material e db

choose_material : Engine → Option Policy → Db → Option AuthMaterial
choose_material e none db = engine_material e db
choose_material e (some p) db = or_engine e db (policy_material p db)

unfoldable pub get_backend : Engine → Option Policy → Db → Backend
unfolding choose_material backend_class
get_backend e p db = record {
  kind = backend_class e.backend;
  engine = e;
  auth_material = choose_material e p db;
}

-- An entry of `list_versions`.
pub record VersionInfo : Type 0 where
  pub version : ℕ
  pub deletion_time : Option String
  pub destroyed : Bool

-- The abstract methods of `SecretBackend` that touch material, as actions on the state `V` of the
-- service behind. `delete` without versions destroys the path; the list
-- that it is passed may hold a `None`.
pub record SecretBackend (V : Type 0) : Type 0 where
  pub read : (path : String) (version : Option ℕ) → Exec V Value
  pub write : (path : String) (material : Payload) (cas : Option ℕ) → Exec V ℕ
  pub delete : (path : String) (versions : List (Option ℕ)) → Exec V (Unit {0})
  pub list_versions : (path : String) → Exec V (List VersionInfo)
  pub set_metadata : (path : String) (metadata : List (String × String)) → Exec V (Unit {0})
