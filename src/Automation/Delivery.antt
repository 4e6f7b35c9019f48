-- ===== src/Automation/Delivery.antt =====
-- The reservation and the delivery of automation.py: a receipt is committed before the secret store
-- may be read, and every failure is the same refusal.
use netbox_openbao.Prelude.{
  ℕ, String, Bool, true, false, Option, none, some, [], ◌∷◌, ◌++◌, any, str_eq, truncate,
  update_where, ◌==◌, ◌&&◌, if◌then◌else◌,
}
use netbox_openbao.Errors.{automation_denied, integrity_error, operational_error, untranslated}
use netbox_openbao.Exec.{Exec, Outcome, ok, raise, pure, require, ◌>>=◌, ◌>>◌}
use netbox_openbao.Json.{Payload}
use netbox_openbao.Models.{Credential, User, reveal, AccessLog, Receipt, Db}
use netbox_openbao.World.{World, Env, Commit, done, refused, unanswered, write_db, lock_wait}
use netbox_openbao.Services.Audit.{insert_log}
use netbox_openbao.Services.Reveal.{read_automation_bundle}
use netbox_openbao.Automation.Authority.{Params, Authority, Surroundings}
use netbox_openbao.Automation.Metadata.{
  Metadata, resolve_metadata, require_identity, check_dispatch,
}

-- The dict that a resolution answers with.
pub record Resolution : Type 0 where
  pub credential_uuid : String
  pub assignment_id : ℕ
  pub resolved_version : ℕ
  pub ttl : ℕ
  pub fields : Payload
  pub access_log_id : ℕ

-- The columns of the unique constraint of a receipt.
pub record Key : Type 0 where
  pub execution_id : ℕ
  pub dispatch_nonce_digest : String
  pub step_id : String
  pub reference_name : String

abbrev pub same_key : Key → Receipt → Bool
same_key k r =
    r.execution_id == k.execution_id
    && str_eq r.dispatch_nonce_digest k.dispatch_nonce_digest
    && str_eq r.step_id k.step_id
    && str_eq r.reference_name k.reference_name

unfoldable pub spent : Key → Db → Bool
spent k db = any (same_key k) db.receipts

-- `transaction.atomic()` around statements that open no other transaction: a failure, or a commit that
-- is refused or not answered, raises and leaves what is committed.
module _ {V : Type 0} (env : Env V) where
  abbrev pub rolled_back : World V → World V
  rolled_back w = record w { db = w.base; in_atomic = false }

  abbrev pub committed : World V → World V
  committed w = record w { base = w.db; in_atomic = false }

  unfoldable pub end_with : {A : Type 0} → A → Commit → Exec (World V) A
  end_with a done w = (ok a, committed w)
  end_with a refused w = (raise integrity_error, rolled_back w)
  end_with a (unanswered true) w = (raise operational_error, committed w)
  end_with a (unanswered false) w = (raise operational_error, rolled_back w)

  unfoldable pub end_block : {A : Type 0} → Outcome A → Exec (World V) A
  unfolding end_with
  end_block (ok a) w = end_with a (env.commit w.db) w
  end_block (raise e) w = (raise e, rolled_back w)

  unfoldable pub atomic : {A : Type 0} → Exec (World V) A → Exec (World V) A
  unfolding end_block
  atomic body w = let (r, w') = body (record w { in_atomic = true }) in end_block r w'

  module _ (around : Surroundings V) (user : User) (params : Params) where
    unfoldable pub nonce_digest : Authority → String
    nonce_digest a = around.sha256 a.dispatch_nonce

    unfoldable pub key_of : Authority → Key
    unfolding nonce_digest
    key_of a = record {
      execution_id = a.execution_id;
      dispatch_nonce_digest = nonce_digest a;
      step_id = a.step_id;
      reference_name = a.reference_name;
    }

    -- The columns that an authority adds, and those that a receipt adds.
    with_authority : Option Authority → AccessLog → AccessLog
    unfolding nonce_digest truncate
    with_authority none row = row
    with_authority (some a) row = record row {
      user = some a.initiating_actor;
      username_snapshot = truncate 150 a.actor_username;
      reason = truncate 500 a.reason;
      request_id = truncate 64 a.correlation_id;
      intent_run_id = a.intent_run_id;
      purpose = a.purpose;
      dispatch_nonce_digest = nonce_digest a;
    }

    with_receipt : Option Receipt → AccessLog → AccessLog
    with_receipt none row = row
    with_receipt (some r) row = record row {
      assignment_id = some r.assignment_id;
      resolved_version = some r.resolved_version;
    }

    credential_pk : Option Credential → Option ℕ
    credential_pk none = none
    credential_pk (some c) = c.pk

    credential_uuid : Option Credential → Option String
    credential_uuid none = none
    credential_uuid (some c) = some c.uuid

    abbrev pub refusal_message : String
    refusal_message = "Automation bundle refused or outcome unknown."

    unfoldable pub evidence : ℕ → Option Authority → Option Credential → Option Receipt → AccessLog
    unfolding with_authority with_receipt credential_pk credential_uuid truncate
    evidence pk a c receipt = with_receipt receipt (
        with_authority a (record {
          pk = pk;
          credential = credential_pk c;
          credential_name_snapshot = "";
          credential_uuid_snapshot = credential_uuid c;
          user = none;
          username_snapshot = "";
          action = reveal;
          success = false;
          reason = "";
          message = refusal_message;
          source_ip = none;
          request_id = "";
          executor = if user.is_authenticated then some user.pk else none;
          executor_snapshot = truncate 150 user.username;
          execution_id = some params.execution_id;
          intent_run_id = none;
          step_id = params.step_id;
          reference_name = params.reference_name;
          assignment_id = none;
          resolved_version = none;
          purpose = "";
          dispatch_nonce_digest = "";
        }))

    -- `record_automation_access`, which no caller asks for a success; here a refused insertion raises.
    unfoldable pub record_automation_access :
        Option Authority → Option Credential → Option Receipt → Exec (World V) ℕ
    unfolding evidence insert_log write_db
    record_automation_access a c receipt w =
        let row = evidence w.db.next_log a c receipt in
        if env.log_accepts w.db row
        then (ok row.pk, write_db (insert_log row) w)
        else (raise untranslated, w)

    -- `objects.create(...)` of a receipt: a transaction that inserts the same key is waited for, and a
    -- key that is there violates the constraint.
    unfoldable pub insert_receipt : Receipt → Key → Exec (World V) Receipt
    unfolding spent write_db lock_wait
    insert_receipt r k w =
        let w' = lock_wait w in
        if spent k w'.db
        then (raise integrity_error, w')
        else (ok r, write_db (λ db. record db { receipts = db.receipts ++ (r ∷ []) }) w')

    unfoldable pub receipt_of : Authority → Metadata → Receipt
    unfolding nonce_digest
    receipt_of a m = record {
      execution_id = a.execution_id;
      dispatch_nonce_digest = nonce_digest a;
      step_id = a.step_id;
      reference_name = a.reference_name;
      credential_uuid = m.graph.credential.uuid;
      assignment_id = m.assignment.pk;
      resolved_version = m.version;
    }

    unfoldable pub reservation : Authority → Exec (World V) Receipt
    unfolding resolve_metadata check_dispatch require_identity insert_receipt receipt_of key_of
    reservation a = do
      m ← resolve_metadata around a
      check_dispatch around a
      require_identity around a m
      insert_receipt (receipt_of a m) (key_of a)

    -- `except IntegrityError`
    unfoldable pub denied_if_taken : {A : Type 0} → Outcome A → Outcome A
    denied_if_taken (ok r) = ok r
    denied_if_taken (raise integrity_error) = raise automation_denied
    denied_if_taken (raise e) = raise e

    -- `_reserve`
    unfoldable pub reserve : Authority → Exec (World V) Receipt
    unfolding atomic reservation denied_if_taken
    reserve a w = let (r, w') = atomic (reservation a) w in (denied_if_taken r, w')

    -- `identity != reserved`
    unfoldable pub as_reserved : Authority → Metadata → Receipt → Bool
    unfolding nonce_digest
    as_reserved a m r =
        str_eq m.graph.credential.uuid r.credential_uuid
        && m.assignment.pk == r.assignment_id
        && m.version == r.resolved_version
        && str_eq (nonce_digest a) r.dispatch_nonce_digest

    -- `audit.save(update_fields=['success', 'message'])`
    unfoldable pub delivered : ℕ → Db → Db
    delivered pk db = record db {
      access_log =
          update_where (λ row. row.pk == pk)
            (λ row. record row { success = true; message = "Automation bundle delivered." })
            db.access_log;
    }

    unfoldable pub mark_delivered : ℕ → Exec (World V) (Unit {0})
    unfolding write_db delivered
    mark_delivered pk w = (ok tt, write_db (delivered pk) w)

    -- `authorize_dispatch`
    unfoldable pub authorize_dispatch : Exec (World V) Authority
    authorize_dispatch w = elim (around.authorize w params (some user)) [
      | none ↦ (raise automation_denied, w)
      | some a ↦ (ok a, w)
    ]

    -- What stands before the read in `_deliver`.
    unfoldable pub prepare : Receipt → Exec (World V) (Authority × Metadata × ℕ)
    unfolding authorize_dispatch resolve_metadata check_dispatch require_identity as_reserved
        record_automation_access
    prepare receipt = do
      authority ← authorize_dispatch
      m ← resolve_metadata around authority
      check_dispatch around authority
      require_identity around authority m
      require (as_reserved authority m receipt) automation_denied
      audit ← record_automation_access (some authority) (some m.graph.credential) (some receipt)
      check_dispatch around authority
      pure (authority, m, audit)

    abbrev pub answer : Metadata → ℕ → Payload × ℕ → Resolution
    answer m audit bundle = record {
      credential_uuid = m.graph.credential.uuid;
      assignment_id = m.assignment.pk;
      resolved_version = m.version;
      ttl = bundle.1;
      fields = bundle.0;
      access_log_id = audit;
    }

    -- What stands behind the read.
    unfoldable pub conclude : Authority → Metadata → ℕ → Payload × ℕ → Exec (World V) Resolution
    unfolding resolve_metadata check_dispatch require_identity mark_delivered
    conclude a m audit bundle = do
      final ← resolve_metadata around a
      require_identity around a final
      require (final.version == m.version) automation_denied
      check_dispatch around a
      mark_delivered audit
      pure (answer m audit bundle)

    unfoldable pub delivery : Receipt → Exec (World V) Resolution
    unfolding prepare conclude read_automation_bundle
    delivery receipt = do
      ready ← prepare receipt
      bundle ←
          read_automation_bundle env ready.1.graph.credential ready.1.version ready.1.fields
            ready.0.provider_identity.fingerprint
      conclude ready.0 ready.1 ready.2 bundle

    -- `_deliver`
    unfoldable pub deliver : Receipt → Exec (World V) Resolution
    unfolding atomic delivery
    deliver receipt = atomic (delivery receipt)

    -- The `except` of `resolve_automation`: the refusal is recorded if it can be, and stays a refusal.
    unfoldable pub refuse : Option Authority → Option Receipt → Exec (World V) Resolution
    unfolding record_automation_access
    refuse a receipt w =
        let (_, w') = record_automation_access a none receipt w in (raise automation_denied, w')

    unfoldable pub finish : Authority → Receipt → Outcome Resolution → Exec (World V) Resolution
    unfolding refuse
    finish a receipt (ok r) w = (ok r, w)
    finish a receipt (raise e) w = refuse (some a) (some receipt) w

    unfoldable pub reserved : Authority → Outcome Receipt → Exec (World V) Resolution
    unfolding deliver finish refuse
    reserved a (raise e) w = refuse (some a) none w
    reserved a (ok receipt) w = let (r, w') = deliver receipt w in finish a receipt r w'

    unfoldable pub authorized : Option Authority → Exec (World V) Resolution
    unfolding reserve reserved refuse
    authorized none w = refuse none none w
    authorized (some a) w = let (r, w') = reserve a w in reserved a r w'

    -- `resolve_automation`
    unfoldable pub resolve_automation : Exec (World V) Resolution
    unfolding authorized
    resolve_automation w =
        if w.in_atomic
        then (raise automation_denied, w)
        else authorized (around.authorize w params (some user)) w
