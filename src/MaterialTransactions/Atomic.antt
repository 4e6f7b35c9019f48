-- ===== src/MaterialTransactions/Atomic.antt =====
-- The fate of a body that `material_transaction` owns, on each way in which it can end.
use netbox_openbao.Prelude.{Bool, true, false, none, some, [], ◌≡◌, refl}
use netbox_openbao.Errors.{Exn, integrity_error, operational_error}
use netbox_openbao.Exec.{Exec, Outcome, ok, raise, continue}
use netbox_openbao.World.{MaterialTransaction, World, Env, Commit, done, refused, unanswered}
use netbox_openbao.MaterialTransactions.{
  guarded, rollback, settle, owned, abandon, commit_with, after_commit, close, material_transaction,
  run_callbacks, unknown_of, fresh_owner, finish_deletions, owner_or,
}
use netbox_openbao.MaterialTransactions.Recovery.{
  Quiet, IsNone, Anything, recover-Quiet, finish_deletions-Quiet, run_callbacks-Quiet,
}

module _ {V : Type 0} (env : Env V) (A : Type 0) where
  pub abandon-Quiet :
      (owner : MaterialTransaction) (e : Exn) (unknown : Bool) (w : World V)
      → Quiet Anything w
      → Quiet IsNone (abandon env {A = A} owner e unknown w).1
  unfolding abandon
  abandon-Quiet owner e unknown w q =
      recover-Quiet IsNone env owner unknown _
        (record { closed = q.closed; agree = q.agree; held = refl })

  pub rollback-Quiet : (w : World V) → Quiet Anything (rollback env w)
  unfolding rollback
  rollback-Quiet w = record { closed = refl; agree = refl; held = tt }

  close-Quiet :
      (a : A) (owner : MaterialTransaction) (w : World V)
      → Quiet Anything w
      → Quiet IsNone (close env a owner w).1
  unfolding close
  close-Quiet a owner w q =
      let start = record w { owner = none; closed_owner = some owner } in
      let (r, w') = finish_deletions env owner start in
      pass r w' (
        finish_deletions-Quiet IsNone env owner start
          (record { closed = q.closed; agree = q.agree; held = refl }))
    where
      pass :
          (r : Outcome (Unit {0})) (w' : World V)
          → Quiet IsNone w'
          → Quiet IsNone (continue r (λ _ s. (ok a, s)) w').1
      pass (ok _) w' q' = q'
      pass (raise e) w' q' = q'

  after_commit-Quiet :
      (a : A) (owner : MaterialTransaction) (w : World V)
      → Quiet IsNone (after_commit env a owner w).1
  unfolding after_commit
  after_commit-Quiet a owner w =
      let start = record w { base = w.db; in_atomic = false; callbacks = [] } in
      let (r, w') = run_callbacks env w.callbacks start in
      pass r w' (
        run_callbacks-Quiet env w.callbacks start
          (record { closed = refl; agree = refl; held = tt }))
    where
      pass :
          (r : Outcome (Unit {0})) (w' : World V)
          → Quiet Anything w'
          → Quiet IsNone
              (elim r as (λ _. Outcome A × World V) [
                | ok _ ↦ close env a (owner_or env w'.owner owner) w'
                | raise e ↦ abandon env (owner_or env w'.owner owner) e (unknown_of env e) w'
              ]).1
      pass (ok _) w' q' = close-Quiet a (owner_or env w'.owner owner) w' q'
      pass (raise e) w' q' = abandon-Quiet (owner_or env w'.owner owner) e (unknown_of env e) w' q'

  commit_with-Quiet :
      (a : A) (owner : MaterialTransaction) (c : Commit) (w : World V)
      → Quiet IsNone (commit_with env a owner c w).1
  unfolding commit_with
  commit_with-Quiet a owner done w = after_commit-Quiet a owner w
  commit_with-Quiet a owner refused w =
      abandon-Quiet owner integrity_error false _ (rollback-Quiet w)
  commit_with-Quiet a owner (unanswered true) w =
      abandon-Quiet owner operational_error true _ (rollback-Quiet (record w { base = w.db }))
  commit_with-Quiet a owner (unanswered false) w =
      abandon-Quiet owner operational_error true _ (rollback-Quiet w)

  settle-Quiet :
      (start : MaterialTransaction) (r : Outcome A) (w : World V)
      → Quiet IsNone (settle env start r w).1
  unfolding settle
  settle-Quiet start (ok a) w = commit_with-Quiet a (owner_or env w.owner start) (env.commit w.db) w
  settle-Quiet start (raise e) w =
      abandon-Quiet (owner_or env w.owner start) e w.connection_lost _ (rollback-Quiet w)

  pub owned_of_free :
      (body : Exec (World V) A) (w : World V)
      → w.owner ≡ none
      → w.in_atomic ≡ false
      → material_transaction env body w ≡ owned env body w
  unfolding material_transaction
  owned_of_free body w free idle = rw (free, idle)

  owned-Quiet : (body : Exec (World V) A) (w : World V) → Quiet IsNone (owned env body w).1
  unfolding owned
  owned-Quiet body w =
      settle-Quiet (fresh_owner w.next_operation) (guarded env body w).0 (guarded env body w).1

-- Where no owner and no transaction is open, then however the body, the commit, the callbacks and
-- the clean-up end, no transaction is left open, no owner is left in the context, and the
-- connection sees only what is committed.
pub material_transaction_ends :
    {V A : Type 0} (env : Env V) (body : Exec (World V) A) (w : World V)
    → w.owner ≡ none
    → w.in_atomic ≡ false
    → Quiet IsNone (material_transaction env body w).1
material_transaction_ends {A = A} env body w free idle =
    rw (owned_of_free env A body w free idle) (owned-Quiet env A body w)
