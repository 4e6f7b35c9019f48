-- ===== src/Examples/Dispatch.antt =====
-- A dispatch of an execution that reads a password, and its repetition.
use netbox_openbao.Prelude.{Bool, true, false, none, some, [], ◌∷◌, ◌≡◌, ◌⊎◌, refl}
use netbox_openbao.Exec.{Outcome, ok, raise}
use netbox_openbao.Json.{entries}
use netbox_openbao.Models.{Assignment}
use netbox_openbao.Models.Assignments.{Target}
use netbox_openbao.World.{World}
use netbox_openbao.Automation.Authority.{Params, Identity, Authority, Surroundings}
use netbox_openbao.Automation.Delivery.{Resolution, key_of, spent, resolve_automation}
use netbox_openbao.Automation.Spent.Lasting.{Lasting}
use netbox_openbao.Automation.Spent.Once.{Untouched, resolve_automation-once}
use netbox_openbao.Samples.{Server, env, operator, router, idle_world, db_of}

abbrev params : Params
params = record { execution_id = 11; step_id = "step"; reference_name = "login" }

abbrev device : Target
device = record { app_label = "dcim"; model = "device"; object_id = 9 }

abbrev assignment : Assignment
assignment = record {
  pk = 1;
  credential_id = 3;
  app_label = "dcim";
  model = "device";
  object_id = 9;
  purpose = "login";
  is_primary = true;
  enabled = true;
}

abbrev reserved_identity : Identity
reserved_identity = record {
  credential_uuid = "0f1e";
  assignment_id = 1;
  target_type = "dcim.device";
  target_id = 9;
  purpose = "login";
  username = "admin";
  fingerprint = "";
  credential_type = "password";
  policy_id = 1;
  engine_id = 1;
  engine_identity = "main";
  schema_digest = "digest";
}

abbrev authority : Authority
authority = record {
  reference = record { pinned = none; fields = "password" ∷ [] };
  assignment_id = some 1;
  credential_uuid = "0f1e";
  purpose = "login";
  target_type = "dcim.device";
  target_id = 9;
  target_object = device;
  initiating_actor = 5;
  actor_username = "operator";
  reason = "deploy";
  execution_id = 11;
  dispatch_nonce = "nonce";
  step_id = "step";
  reference_name = "login";
  correlation_id = "request";
  intent_run_id = none;
  provider_identity = reserved_identity;
}

abbrev around : Surroundings Server
around = record {
  authorize = λ w params user. some authority;
  within_lifetime = λ w a. true;
  rpc_permits = λ w a. true;
  find_user = λ w pk. some operator;
  views_target = λ w user target. true;
  views_assignment = λ w user row. true;
  views_service = λ w user pk. true;
  reveals = λ w user c. true;
  services_on = λ w target. [];
  service_exists = λ w pk. false;
  assignable = λ w. "dcim.device" ∷ [];
  sha256 = λ s. s;
  engine_identity = λ e path. e.slug;
  schema_digest = λ schema. "digest";
}

abbrev ready : World Server
ready = record idle_world {
  db = record (db_of router) { assignments = assignment ∷ [] };
  base = record (db_of router) { assignments = assignment ∷ [] };
}

abbrev first_run : Outcome Resolution × World Server
first_run = resolve_automation env around operator params ready

abbrev is_delivered : Outcome Resolution → Bool
is_delivered (ok r) = true
is_delivered (raise e) = false

delivered_test : is_delivered first_run.0 ≡ true
unfolding resolve_automation entries
delivered_test = refl

repeated_test : is_delivered (resolve_automation env around operator params first_run.1).0 ≡ false
unfolding resolve_automation entries
repeated_test = refl

resolve_automation-once_example :
    (Untouched env around operator params first_run.1.vault
        (resolve_automation env around operator params first_run.1)
      ⊎ Lasting
          (key_of env around operator params authority)
          (resolve_automation env around operator params first_run.1).1)
    × (spent (key_of env around operator params authority) first_run.1.db ≡ true
        → spent (key_of env around operator params authority) first_run.1.base ≡ true
        → Untouched env around operator params first_run.1.vault
            (resolve_automation env around operator params first_run.1))
unfolding resolve_automation entries
resolve_automation-once_example =
    resolve_automation-once env around operator params authority first_run.1 refl refl tt
