-- ===== src/Automation/Authority.antt =====
-- What automation.py is given: the authority of an execution, from the RPC plugin, and the answers
-- of NetBox about users, objects and permissions.
use netbox_openbao.Prelude.{ℕ, String, Bool, Option, List, str_eq, ◌==◌, ◌&&◌}
use netbox_openbao.Models.{Credential, User, Engine, Assignment}
use netbox_openbao.Models.Assignments.{Target}
use netbox_openbao.Secrets.Schema.{Schema}
use netbox_openbao.World.{World}
use netbox_openbao.Automation.{Reference}

-- The keys of `params` that the code reads.
pub record Params : Type 0 where
  pub execution_id : ℕ
  pub step_id : String
  pub reference_name : String

-- The dict of `_identity`.
pub record Identity : Type 0 where
  pub credential_uuid : String
  pub assignment_id : ℕ
  pub target_type : String
  pub target_id : ℕ
  pub purpose : String
  pub username : String
  pub fingerprint : String
  pub credential_type : String
  pub policy_id : ℕ
  pub engine_id : ℕ
  pub engine_identity : String
  pub schema_digest : String

abbrev pub same_identity : Identity → Identity → Bool
same_identity a b =
    str_eq a.credential_uuid b.credential_uuid
    && a.assignment_id == b.assignment_id
    && str_eq a.target_type b.target_type
    && a.target_id == b.target_id
    && str_eq a.purpose b.purpose
    && str_eq a.username b.username
    && str_eq a.fingerprint b.fingerprint
    && str_eq a.credential_type b.credential_type
    && a.policy_id == b.policy_id
    && a.engine_id == b.engine_id
    && str_eq a.engine_identity b.engine_identity
    && str_eq a.schema_digest b.schema_digest

-- The attributes of an authority that the code reads. Of its frozen reference: the version and the
-- fields, what it names the credential by, the purpose, and the object that it is for.
pub record Authority : Type 0 where
  pub reference : Reference
  pub assignment_id : Option ℕ
  pub credential_uuid : String
  pub purpose : String
  pub target_type : String
  pub target_id : ℕ
  pub target_object : Target
  pub initiating_actor : ℕ
  pub actor_username : String
  pub reason : String
  pub execution_id : ℕ
  pub dispatch_nonce : String
  pub step_id : String
  pub reference_name : String
  pub correlation_id : String
  pub intent_run_id : Option ℕ
  pub provider_identity : Identity

-- The surroundings, each asked at the moment of the call. `authorize` is `none` for any exception of
-- the RPC plugin; the two checks of an authority say whether they pass.
pub record Surroundings (V : Type 0) : Type 0 where
  pub authorize : World V → Params → Option User → Option Authority
  pub within_lifetime : World V → Authority → Bool
  pub rpc_permits : World V → Authority → Bool
  pub find_user : World V → ℕ → Option User
  pub views_target : World V → User → Target → Bool
  pub views_assignment : World V → User → Assignment → Bool
  pub views_service : World V → User → ℕ → Bool
  pub reveals : World V → User → Credential → Bool
  pub services_on : World V → Target → List ℕ
  pub service_exists : World V → ℕ → Bool
  pub assignable : World V → List String
  -- SHA-256 of a text, of the selectors of an engine with the path, and of the parts of a schema
  pub sha256 : String → String
  pub engine_identity : Engine → String → String
  pub schema_digest : Schema → String
