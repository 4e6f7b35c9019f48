-- ===== src/MaterialTransactions/Compensation.antt =====
-- `recover` of netbox_openbao/material_transactions.py: the compensation of the attempts of an
-- owner, each by its exact version, and the rows that tell of it.
use netbox_openbao.Prelude.{
  ℕ, String, Bool, true, false, Option, none, some, List, [], ◌∷◌, ◌++◌, truncate, if◌then◌else◌,
}
use netbox_openbao.Exec.{ok, raise}
use netbox_openbao.Models.{User, AccessLog}
use netbox_openbao.World.{MaterialAttempt, MaterialTransaction, World, Env, on_vault}
use netbox_openbao.Services.Audit.{create_log}

abbrev pub message_unknown : String
message_unknown = "Material transaction outcome unknown; reconciliation required."

abbrev pub message_committed : String
message_committed =
    "Material transaction committed; post-commit processing requires reconciliation."

abbrev pub message_removed : String
message_removed = "Material transaction rolled back; its exact version was removed."

abbrev pub message_residue : String
message_residue = "Material transaction rolled back; version cleanup requires reconciliation."

-- `discard_recovery_message`
unfoldable pub discard_recovery_message : (committed unknown : Bool) → String
discard_recovery_message committed unknown =
    if committed
    then "Discard committed; cleanup was not performed and requires reconciliation."
    else if unknown
    then "Discard outcome unknown; cleanup was not performed and requires reconciliation."
    else "Discard rolled back; no discard deletion was performed."

abbrev pub username : Option User → String
username none = ""
username (some u) = u.username

-- The row of `record_recovery`: no foreign key, since the credential's row may not exist.
unfoldable pub recovery_row : ℕ → String → MaterialAttempt → String → AccessLog
unfolding truncate
recovery_row pk operation attempt message = record {
  pk = pk;
  credential = none;
  credential_name_snapshot = "";
  credential_uuid_snapshot = some attempt.credential.uuid;
  user = none;
  username_snapshot = truncate 150 (username attempt.user);
  action = attempt.action;
  success = false;
  reason = "";
  message = message;
  source_ip = none;
  request_id = operation;
  executor = none;
  executor_snapshot = "";
  execution_id = none;
  intent_run_id = none;
  step_id = "";
  reference_name = "";
  assignment_id = none;
  resolved_version = attempt.version;
  purpose = "";
  dispatch_nonce_digest = "";
}

-- `reversed(xs)`
unfoldable pub reversed {ℓ} : {A : Type ℓ} → List A → List A
reversed [] = []
reversed (x ∷ xs) = reversed xs ++ (x ∷ [])

module _ {V : Type 0} (env : Env V) where
  unfoldable pub record_recovery : String → MaterialAttempt → String → World V → World V
  unfolding recovery_row create_log
  record_recovery operation attempt message w =
      (create_log env (recovery_row w.db.next_log operation attempt message) w).1

  unfoldable pub remove_version : MaterialAttempt → ℕ → World V → String × World V
  unfolding on_vault
  remove_version attempt version w =
      let (r, w') =
        on_vault ((env.backend attempt.backend).delete attempt.path (some version ∷ [])) w in
      elim r [ ok _ ↦ (message_removed, w') | raise _ ↦ (message_residue, w') ]

  -- The compensation of one attempt, and what is recorded of it.
  unfoldable pub compensate :
      (committed unknown : Bool) → MaterialAttempt → World V → String × World V
  unfolding remove_version
  compensate true unknown attempt w = (message_committed, w)
  compensate false true attempt w = (message_unknown, w)
  compensate false false attempt w = elim attempt.version [
    | none ↦ (message_unknown, w)
    | some version ↦ remove_version attempt version w
  ]

  unfoldable pub recover_attempt :
      (operation : String) (committed unknown : Bool) → MaterialAttempt → World V → World V
  unfolding compensate record_recovery
  recover_attempt operation committed unknown attempt w =
      let (message, w') = compensate committed unknown attempt w in
      record_recovery operation attempt message w'

  unfoldable pub recover_attempts :
      (operation : String) (committed unknown : Bool) → List MaterialAttempt → World V → World V
  unfolding recover_attempt
  recover_attempts operation committed unknown [] w = w
  recover_attempts operation committed unknown (attempt ∷ rest) w =
      recover_attempts operation committed unknown rest
        (recover_attempt operation committed unknown attempt w)

  unfoldable pub note_deletions :
      (operation : String) (message : String) → List MaterialAttempt → World V → World V
  unfolding record_recovery
  note_deletions operation message [] w = w
  note_deletions operation message (deletion ∷ rest) w =
      note_deletions operation message rest (record_recovery operation deletion message w)

  -- `recover`
  unfoldable pub recover : MaterialTransaction → (unknown : Bool) → World V → World V
  unfolding recover_attempts note_deletions reversed discard_recovery_message
  recover owner unknown w =
      note_deletions owner.operation_id (discard_recovery_message owner.committed unknown)
        owner.deletions
        (recover_attempts owner.operation_id owner.committed unknown (reversed owner.attempts) w)
