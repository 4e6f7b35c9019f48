-- ===== src/MaterialTransactions/Recovery.antt =====
-- What the end of a material transaction leaves: no open transaction, no owner, nothing
-- uncommitted; and what the recovery of material_transactions.py does to the secret store.
use netbox_openbao.Prelude.{
  ℕ, String, Bool, true, false, Option, none, some, List, [], ◌∷◌, ◌≡◌, arith, ◌&&◌,
}
use netbox_openbao.Exec.{Outcome, ok, raise, continue}
use netbox_openbao.Models.{Credential, AccessLog}
use netbox_openbao.World.{
  MaterialAttempt, MaterialTransaction, Callback, World, Env, publish, destroy, foreign,
  mark_committed,
}
use netbox_openbao.Services.Audit.{create_log}
use netbox_openbao.Services.Projection.{publish_custom_metadata}
use netbox_openbao.Services.Deletion.{destroy_material}
use netbox_openbao.MaterialTransactions.{
  record_recovery, recover_attempt, recover_attempts, note_deletions, recover, finish_deletion,
  finish_all, finish_deletions, run_callback, run_callbacks, compensate, reversed,
}

-- Between transactions: nothing is open, and what is seen is what is committed.
pub record Quiet {V : Type 0} (P : Option MaterialTransaction → Type 0) (w : World V) : Type 0 where
  pub closed : w.in_atomic ≡ false
  pub agree : w.db ≡ w.base
  -- what is known of the context variable
  pub held : P w.owner

abbrev pub Anything : Option MaterialTransaction → Type 0
Anything _ = Unit

abbrev pub IsNone : Option MaterialTransaction → Type 0
IsNone owner = owner ≡ none

module _ {V : Type 0} (P : Option MaterialTransaction → Type 0) (env : Env V) where
  create_log-Quiet : (row : AccessLog) (w : World V) → Quiet P w → Quiet P (create_log env row w).1
  unfolding create_log
  create_log-Quiet row w q = ground arith

  publish-Quiet : (pk : ℕ) (w : World V) → Quiet P w → Quiet P (publish_custom_metadata env pk w)
  unfolding publish_custom_metadata
  publish-Quiet pk w q = ground arith

  destroy-Quiet : (c : Credential) (w : World V) → Quiet P w → Quiet P (destroy_material env c w)
  unfolding destroy_material
  destroy-Quiet c w q = ground arith

  record_recovery-Quiet :
      (operation : String) (a : MaterialAttempt) (message : String) (w : World V)
      → Quiet P w
      → Quiet P (record_recovery env operation a message w)
  unfolding record_recovery
  record_recovery-Quiet operation a message w q = create_log-Quiet _ w q

  recover_attempt-Quiet :
      (operation : String) (committed unknown : Bool) (a : MaterialAttempt) (w : World V)
      → Quiet P w
      → Quiet P (recover_attempt env operation committed unknown a w)
  unfolding recover_attempt
  recover_attempt-Quiet operation committed unknown a w q =
      record_recovery-Quiet operation a _ (compensate env committed unknown a w).1
        (compensate-Quiet committed unknown)
    where
      compensate-Quiet :
          (committed unknown : Bool) → Quiet P (compensate env committed unknown a w).1
      compensate-Quiet true unknown = q
      compensate-Quiet false true = q
      compensate-Quiet false false = ground arith

  recover_attempts-Quiet :
      (operation : String) (committed unknown : Bool) (done : List MaterialAttempt) (w : World V)
      → Quiet P w
      → Quiet P (recover_attempts env operation committed unknown done w)
  unfolding recover_attempts
  recover_attempts-Quiet operation committed unknown [] w q = q
  recover_attempts-Quiet operation committed unknown (a ∷ rest) w q =
      recover_attempts-Quiet operation committed unknown rest _
        (recover_attempt-Quiet operation committed unknown a w q)

  note_deletions-Quiet :
      (operation : String) (message : String) (ds : List MaterialAttempt) (w : World V)
      → Quiet P w
      → Quiet P (note_deletions env operation message ds w)
  unfolding note_deletions
  note_deletions-Quiet operation message [] w q = q
  note_deletions-Quiet operation message (d ∷ rest) w q =
      note_deletions-Quiet operation message rest _ (record_recovery-Quiet operation d message w q)

  pub recover-Quiet :
      (owner : MaterialTransaction) (unknown : Bool) (w : World V)
      → Quiet P w
      → Quiet P (recover env owner unknown w)
  unfolding recover
  recover-Quiet owner unknown w q = note_deletions-Quiet owner.operation_id _ owner.deletions _ (
      recover_attempts-Quiet owner.operation_id owner.committed unknown (reversed owner.attempts) w
        q)

  finish_deletion-Quiet :
      (operation : String) (d : MaterialAttempt) (w : World V)
      → Quiet P w
      → Quiet P (finish_deletion env operation d w).1
  unfolding finish_deletion
  finish_deletion-Quiet operation d w q = ground arith

  finish_all-Quiet :
      (operation : String) (ds : List MaterialAttempt) (complete : Bool) (w : World V)
      → Quiet P w
      → Quiet P (finish_all env operation ds complete w).1
  unfolding finish_all
  finish_all-Quiet operation [] complete w q = q
  finish_all-Quiet operation (d ∷ rest) complete w q =
      let (this, w') = finish_deletion env operation d w in
      finish_all-Quiet operation rest (complete && this) w' (finish_deletion-Quiet operation d w q)

  pub finish_deletions-Quiet :
      (owner : MaterialTransaction) (w : World V)
      → Quiet P w
      → Quiet P (finish_deletions env owner w).1
  unfolding finish_deletions
  finish_deletions-Quiet owner w q =
      ground (arith, finish_all-Quiet owner.operation_id owner.deletions true w q)

module _ {V : Type 0} (env : Env V) where
  run_callback-Quiet :
      (c : Callback) (w : World V) → Quiet Anything w → Quiet Anything (run_callback env c w).1
  unfolding run_callback
  run_callback-Quiet mark_committed w q = record { closed = q.closed; agree = q.agree; held = tt }
  run_callback-Quiet (publish pk) w q = publish-Quiet Anything env pk w q
  run_callback-Quiet (destroy c) w q = destroy-Quiet Anything env c w q
  run_callback-Quiet (foreign none) w q = q
  run_callback-Quiet (foreign (some e)) w q = q

  pub run_callbacks-Quiet :
      (cs : List Callback) (w : World V)
      → Quiet Anything w
      → Quiet Anything (run_callbacks env cs w).1
  unfolding run_callbacks
  run_callbacks-Quiet [] w q = q
  run_callbacks-Quiet (c ∷ rest) w q =
      let (r, w') = run_callback env c w in
      continue-Quiet r w' (run_callback-Quiet c w q) (run_callbacks-Quiet rest)
    where
      continue-Quiet :
          (r : Outcome (Unit {0})) (w' : World V)
          → Quiet Anything w'
          → ((u : World V) → Quiet Anything u → Quiet Anything (run_callbacks env rest u).1)
          → Quiet Anything (continue r (λ _. run_callbacks env rest) w').1
      continue-Quiet (ok _) w' q' next = next w' q'
      continue-Quiet (raise e) w' q' next = q'
