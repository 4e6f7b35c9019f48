-- ===== src/Services/Audit.antt =====
-- `_request_context` and `log_access` of netbox_openbao/services.py.
use netbox_openbao.Prelude.{
  ℕ, suc, String, Bool, true, Option, none, some, [], ◌∷◌, ◌++◌, truncate, if◌then◌else◌,
}
use netbox_openbao.Exec.{Exec, ok}
use netbox_openbao.Models.{Credential, User, Request, Action, AccessLog, Db}
use netbox_openbao.World.{World, Env, write_db}

-- `_request_context`
abbrev source_ip : Option Request → Option String
source_ip none = none
source_ip (some r) = r.client_ip

abbrev request_id : Option Request → String
request_id none = ""
request_id (some r) = r.id

-- `user if (user is not None and user.is_authenticated) else None`
abbrev user_link : Option User → Option ℕ
user_link none = none
user_link (some u) = if u.is_authenticated then some u.pk else none

abbrev username_of : Option User → String
username_of none = ""
username_of (some u) = u.username

-- What one call of `log_access` records, with the defaults of its signature filled in.
pub record Entry : Type 0 where
  pub action : Action
  pub success : Bool
  pub reason : String
  pub message : String
  pub link : Bool

abbrev pub entry : Action → Bool → String → String → Entry
entry action success reason message = record {
  action = action;
  success = success;
  reason = reason;
  message = message;
  link = true;
}

-- The row, with the next number of the sequence.
unfoldable pub log_row : ℕ → Credential → Option User → Entry → Option Request → AccessLog
unfolding truncate
log_row pk c user e request = record {
  pk = pk;
  credential = if e.link then c.pk else none;
  credential_name_snapshot = truncate 200 c.name;
  credential_uuid_snapshot = some c.uuid;
  user = user_link user;
  username_snapshot = truncate 150 (username_of user);
  action = e.action;
  success = e.success;
  reason = e.reason;
  message = truncate 500 e.message;
  source_ip = source_ip request;
  request_id = request_id request;
  executor = none;
  executor_snapshot = "";
  execution_id = none;
  intent_run_id = none;
  step_id = "";
  reference_name = "";
  assignment_id = none;
  resolved_version = none;
  purpose = "";
  dispatch_nonce_digest = "";
}

unfoldable pub insert_log : AccessLog → Db → Db
insert_log row db = record db {
  access_log = db.access_log ++ (row ∷ []);
  next_log = suc db.next_log;
}

module _ {V : Type 0} (env : Env V) where
  -- An insertion in a savepoint: a refusal is logged, and leaves no row.
  unfoldable pub create_log : AccessLog → Exec (World V) (Option ℕ)
  unfolding insert_log write_db
  create_log row w =
      if env.log_accepts w.db row
      then (ok (some row.pk), write_db (insert_log row) w)
      else (ok none, w)

  unfoldable pub log_access :
      Credential → Option User → Entry → Option Request → Exec (World V) (Option ℕ)
  unfolding create_log log_row
  log_access c user e request w = create_log (log_row w.db.next_log c user e request) w
