-- ===== src/MaterialTransactions.antt =====
-- netbox_openbao/material_transactions.py: one owner of the final commit of a change to material,
-- and the version-scoped compensation of the writes that did not come to stay.
mod Compensation
mod Cleanup
pub mod Recovery
pub mod Undo
pub mod Atomic
pub mod Settle
pub mod Fate
pub mod Result
pub mod Deletions
pub use Compensation.{
  message_unknown, message_committed, message_removed, message_residue, username,
}
unfoldable pub use Compensation.{
  discard_recovery_message, recovery_row, reversed, record_recovery, remove_version, compensate,
  recover_attempt, recover_attempts, note_deletions, recover,
}
pub use Cleanup.{has_log}
unfoldable pub use Cleanup.{
  commit_required, mark_discarded, finish_deletion, finish_all, finish_deletions,
}
use netbox_openbao.Prelude.{
  ℕ, String, Bool, true, false, Option, none, some, List, [], ◌∷◌, ◌++◌, not, ◌&&◌, is_nil, any,
  all, first, truncate, update_where, is_some, ◌==◌, if◌then◌else◌,
}
use netbox_openbao.Errors.{Exn, openbao, worded, failed, integrity_error, operational_error}
use netbox_openbao.Exec.{Exec, Outcome, ok, raise, pure, throw, continue}
use netbox_openbao.Models.{User, AccessLog, Db}
use netbox_openbao.Backends.{SecretBackend}
use netbox_openbao.World.{
  MaterialAttempt, MaterialTransaction, GraphIds, Callback, World, Env, Commit, done, refused,
  unanswered, mark_committed, publish, destroy, foreign, on_vault, write_db,
}
use netbox_openbao.Services.Audit.{create_log}
use netbox_openbao.Services.Projection.{publish_custom_metadata}
use netbox_openbao.Services.Deletion.{destroy_material}

unfoldable pub owner_refused : Exn
unfolding worded
owner_refused = openbao (worded failed "The material transaction was refused.")

unfoldable pub witness_lost : Exn
unfolding worded
witness_lost = openbao (worded failed "The material transaction did not retain its commit witness.")

abbrev pub fresh_owner : String → MaterialTransaction
fresh_owner id = record {
  operation_id = id;
  attempts = [];
  deletions = [];
  failed = false;
  committed = false;
  known_rollback = false;
  graph_ids = record { credential = []; policy = []; engine = [] };
  graph_frozen = false;
}

-- `witness`: each attempt and each deletion still has its row in the access log.
unfoldable pub witnessed : Db → MaterialTransaction → Bool
witnessed db owner =
    all (λ attempt. has_log db attempt.audit_id) (owner.attempts ++ owner.deletions)

unfoldable pub owner_required : Exn
unfolding worded
owner_required = openbao (worded failed "An outer material transaction is required.")

-- `current_material_transaction`
unfoldable pub current_material_transaction : {V : Type 0} → Exec (World V) MaterialTransaction
unfolding owner_required
current_material_transaction w = elim w.owner [
  | none ↦ (raise owner_required, w)
  | some owner ↦ (ok owner, w)
]

module _ {V : Type 0} (env : Env V) where
  set_committed : Option MaterialTransaction → Option MaterialTransaction
  set_committed none = none
  set_committed (some owner) = some (record owner { committed = true })

  run_callback : Callback → Exec (World V) (Unit {0})
  unfolding set_committed publish_custom_metadata destroy_material
  run_callback mark_committed w = (ok tt, record w { owner = set_committed w.owner })
  run_callback (publish pk) w = (ok tt, publish_custom_metadata env pk w)
  run_callback (destroy c) w = (ok tt, destroy_material env c w)
  run_callback (foreign none) w = (ok tt, w)
  run_callback (foreign (some e)) w = (raise e, w)

  -- The callbacks run in their order; one that raises ends the row.
  pub run_callbacks : List Callback → Exec (World V) (Unit {0})
  unfolding run_callback
  run_callbacks [] w = (ok tt, w)
  run_callbacks (c ∷ rest) w =
      let (r, w') = run_callback c w in continue r (λ _. run_callbacks rest) w'

  unfoldable pub begin : World V → World V
  begin w = record w {
    owner = some (fresh_owner w.next_operation);
    in_atomic = true;
    callbacks = mark_committed ∷ [];
  }

  pub rollback : World V → World V
  rollback w = record w { db = w.base; callbacks = []; in_atomic = false }

  -- The context variable is reset before the recovery; the object of the owner lives on.
  pub abandon : {A : Type 0} → MaterialTransaction → Exn → (unknown : Bool) → Exec (World V) A
  unfolding recover
  abandon owner e unknown w = (
    raise e,
    recover env owner unknown (record w {
      owner = none;
      closed_owner = some (record owner { known_rollback = not unknown && not owner.committed });
    }),
  )

  -- `_unknown_rollback` for an exception that the body did not raise.
  abbrev unknown_of : Exn → Bool
  unknown_of integrity_error = false
  unknown_of _ = true

  close : {A : Type 0} → A → MaterialTransaction → Exec (World V) A
  unfolding finish_deletions
  close a owner w =
      let (r, w') =
        finish_deletions env owner (record w { owner = none; closed_owner = some owner }) in
      continue r (λ _. pure a) w'

  abbrev pub owner_or : Option MaterialTransaction → MaterialTransaction → MaterialTransaction
  owner_or none fallback = fallback
  owner_or (some owner) fallback = owner

  pub after_commit : {A : Type 0} → A → MaterialTransaction → Exec (World V) A
  unfolding run_callbacks abandon close
  after_commit a owner w =
      let (r, w') =
        run_callbacks w.callbacks (record w { base = w.db; in_atomic = false; callbacks = [] }) in
      elim r [
        | ok _ ↦ close a (owner_or w'.owner owner) w'
        | raise e ↦ abandon (owner_or w'.owner owner) e (unknown_of e) w'
      ]

  commit_with : {A : Type 0} → A → MaterialTransaction → Commit → Exec (World V) A
  unfolding after_commit abandon rollback
  commit_with a owner done w = after_commit a owner w
  commit_with a owner refused w = abandon owner integrity_error false (rollback w)
  commit_with a owner (unanswered true) w =
      abandon owner operational_error true (rollback (record w { base = w.db }))
  commit_with a owner (unanswered false) w = abandon owner operational_error true (rollback w)

  -- What the owner checks before it commits.
  pub checked : {A : Type 0} → A → Option MaterialTransaction → Exec (World V) A
  unfolding witnessed owner_refused witness_lost
  checked a none w = (ok a, w)
  checked a (some owner) w =
      if owner.failed
      then (raise owner_refused, w)
      else if witnessed w.db owner
      then (ok a, w)
      else (raise witness_lost, w)

  pub settle : {A : Type 0} → MaterialTransaction → Outcome A → World V → Outcome A × World V
  unfolding commit_with abandon rollback
  settle start (ok a) w = commit_with a (owner_or w.owner start) (env.commit w.db) w
  settle start (raise e) w = abandon (owner_or w.owner start) e w.connection_lost (rollback w)

  -- The innermost `try`: the body, and behind it the checks of the owner.
  unfoldable pub guarded : {A : Type 0} → Exec (World V) A → Exec (World V) A
  unfolding begin checked
  guarded body w = let (r, w') = body (begin w) in continue r (λ a s. checked a s.owner s) w'

  pub owned : {A : Type 0} → Exec (World V) A → Exec (World V) A
  unfolding guarded settle
  owned body w = let (r, w') = guarded body w in settle (fresh_owner w.next_operation) r w'

  fail_owner : World V → World V
  fail_owner w = elim w.owner [
    | none ↦ w
    | some owner ↦ record w { owner = some (record owner { failed = true }) }
  ]

  joined : {A : Type 0} → Exec (World V) A → Exec (World V) A
  unfolding fail_owner
  joined body w =
      let (r, w') = body w in elim r [ ok a ↦ (ok a, w') | raise e ↦ (raise e, fail_owner w') ]

  -- `material_transaction`: a nested one joins its owner; a new one wants no open transaction.
  unfoldable pub material_transaction : {A : Type 0} → Exec (World V) A → Exec (World V) A
  unfolding owned joined worded
  material_transaction body w = elim w.owner [
    | some _ ↦ joined body w
    | none ↦
        if w.in_atomic
        then (
          raise (
              openbao (
                worded failed
                  "An outer material transaction requires autocommit before application transactions.")),
          w,
        )
        else owned body w
  ]
