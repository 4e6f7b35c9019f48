-- ===== src/MaterialTransactions/Settle.antt =====
-- How `settle` ends a transaction: what an undone one leaves, what is left where the outcome is
-- not known, and what the checks of the owner let pass.
use netbox_openbao.Prelude.{
  Bool, true, false, none, some, ◌≡◌, refl, arith, ◌||◌, ◌∙◌, if◌then◌else◌, not, Bool-cases, inl,
  inr,
}
use netbox_openbao.Errors.{Exn, integrity_error, operational_error}
use netbox_openbao.Exec.{Exec, Outcome, ok, raise}
use netbox_openbao.Models.{Db}
use netbox_openbao.World.{MaterialTransaction, World, Env, Commit, done, refused, unanswered}
use netbox_openbao.MaterialTransactions.{
  begin, guarded, rollback, witnessed, reversed, checked, settle, owned, abandon, commit_with,
  after_commit, material_transaction, fresh_owner, owner_or, owner_refused, witness_lost,
}
use netbox_openbao.MaterialTransactions.Recovery.{Quiet, IsNone, Anything}
use netbox_openbao.MaterialTransactions.Undo.{SameRows, undo, recover-vault, recover-SameRows}
use netbox_openbao.MaterialTransactions.Atomic.{abandon-Quiet, rollback-Quiet, owned_of_free}

-- What an undone transaction leaves: nothing open, every row as `base` says, and the secret store
-- without the exact versions that the attempts of the owner had written.
pub record Undone {V : Type 0} (env : Env V) (owner : MaterialTransaction) (base : Db) (v : V)
    (out : World V) : Type 0 where
  pub quiet : Quiet IsNone out
  pub rows : SameRows out.db base
  pub store : out.vault ≡ undo env (reversed owner.attempts) v

-- What is left where the outcome is not known: nothing was deleted.
pub record Untouched {V : Type 0} (base : Db) (v : V) (out : World V) : Type 0 where
  pub quiet : Quiet IsNone out
  pub rows : SameRows out.db base
  pub store : out.vault ≡ v

module _ {V : Type 0} (env : Env V) (A : Type 0) where
  abandon-Undone :
      (owner : MaterialTransaction) (e : Exn) (w : World V)
      → owner.committed ≡ false
      → Quiet Anything w
      → Undone env owner w.db w.vault (abandon env {A = A} owner e false w).1
  unfolding abandon
  abandon-Undone owner e w fresh q =
      let start : World V = record w {
        owner = none;
        closed_owner = some (record owner { known_rollback = not owner.committed });
      } in
      record {
        quiet = abandon-Quiet env A owner e false w q;
        rows = recover-SameRows env owner false start;
        store = ground (arith, recover-vault env owner false start);
      }

  abandon-Untouched :
      (owner : MaterialTransaction) (e : Exn) (w : World V)
      → Quiet Anything w
      → Untouched w.db w.vault (abandon env {A = A} owner e true w).1
  unfolding abandon
  abandon-Untouched owner e w q =
      let start : World V = record w {
        owner = none;
        closed_owner = some (record owner { known_rollback = false });
      } in
      record {
        quiet = abandon-Quiet env A owner e true w q;
        rows = recover-SameRows env owner true start;
        store = recover-vault env owner true start;
      }

  settle-raise :
      (start owner : MaterialTransaction) (e : Exn) (w : World V)
      → w.owner ≡ some owner
      → w.connection_lost ≡ false
      → settle env {A = A} start (raise e) w ≡ abandon env owner e false (rollback env w)
  unfolding settle
  settle-raise start owner e w held live = simp (held, live)

  settle-ok :
      (start owner : MaterialTransaction) (a : A) (c : Commit) (w : World V)
      → w.owner ≡ some owner
      → env.commit w.db ≡ c
      → settle env start (ok a) w ≡ commit_with env a owner c w
  unfolding settle
  settle-ok start owner a c w held verdict = simp (held, verdict)

  pub settle_raised :
      (start owner : MaterialTransaction) (e : Exn) (w : World V)
      → w.owner ≡ some owner
      → owner.committed ≡ false
      → w.connection_lost ≡ false
      → (settle env {A = A} start (raise e) w).0 ≡ raise e
        × Undone env owner w.base w.vault (settle env {A = A} start (raise e) w).1
  unfolding abandon rollback
  settle_raised start owner e w held fresh live =
      rw (settle-raise start owner e w held live)
        (refl, abandon-Undone owner e (rollback env w) fresh (rollback-Quiet env A w))

  pub settle_refused :
      (start owner : MaterialTransaction) (a : A) (w : World V)
      → w.owner ≡ some owner
      → owner.committed ≡ false
      → env.commit w.db ≡ refused
      → (settle env start (ok a) w).0 ≡ raise integrity_error
        × Undone env owner w.base w.vault (settle env start (ok a) w).1
  unfolding commit_with abandon rollback
  settle_refused start owner a w held fresh verdict =
      rw (settle-ok start owner a refused w held verdict)
        (refl, abandon-Undone owner integrity_error (rollback env w) fresh (rollback-Quiet env A w))

  pub settle_unanswered :
      (start owner : MaterialTransaction) (a : A) (applied : Bool) (w : World V)
      → w.owner ≡ some owner
      → env.commit w.db ≡ unanswered applied
      → (settle env start (ok a) w).0 ≡ raise operational_error
        × Untouched (if applied then w.db else w.base) w.vault (settle env start (ok a) w).1
  unfolding commit_with abandon rollback
  settle_unanswered start owner a true w held verdict =
      rw (settle-ok start owner a (unanswered true) w held verdict) (
        refl,
        abandon-Untouched owner operational_error (rollback env (record w { base = w.db }))
            (rollback-Quiet env A (record w { base = w.db })),
      )
  settle_unanswered start owner a false w held verdict =
      rw (settle-ok start owner a (unanswered false) w held verdict)
        (refl, abandon-Untouched owner operational_error (rollback env w) (rollback-Quiet env A w))

  pub owned-settle :
      (body : Exec (World V) A) (r : Outcome A) (w m : World V)
      → w.owner ≡ none
      → w.in_atomic ≡ false
      → guarded env body w ≡ (r, m)
      → material_transaction env body w ≡ settle env (fresh_owner w.next_operation) r m
  unfolding owned
  owned-settle body r w m free idle run = owned_of_free env A body w free idle ∙ (simp run)

  pub guarded-checked :
      (body : Exec (World V) A) (a : A) (w m : World V)
      → body (begin env w) ≡ (ok a, m)
      → guarded env body w ≡ checked env a m.owner m
  unfolding guarded
  guarded-checked body a w m run = simp run

  pub checked_refuses :
      (a : A) (m : World V) (owner : MaterialTransaction)
      → owner.failed || not (witnessed m.db owner) ≡ true
      → (e : Exn) × checked env a (some owner) m ≡ (raise e, m)
  unfolding checked owner_refused witness_lost
  checked_refuses a m owner bad = elim (Bool-cases owner.failed) [
    | inl bad' ↦ (owner_refused, simp bad')
    | inr sound ↦
        let lost : witnessed m.db owner ≡ false = ground (arith, bad, sound) in
        (witness_lost, simp (sound, lost))
  ]

  -- What the checks let pass; they change nothing.
  pub checked-passes :
      (a b : A) (owner : MaterialTransaction) (m : World V)
      → (checked env a (some owner) m).0 ≡ ok b
      → owner.failed ≡ false × witnessed m.db owner ≡ true
  unfolding checked owner_refused witness_lost
  checked-passes a b owner m end = ground (arith, end)

  pub checked-same :
      (a : A) (owner : MaterialTransaction) (m : World V) → (checked env a (some owner) m).1 ≡ m
  unfolding checked
  checked-same a owner m = ground arith

  commit_with-commits :
      (a : A) (owner : MaterialTransaction) (c : Commit) (b : A) (w out : World V)
      → commit_with env a owner c w ≡ (ok b, out)
      → c ≡ done × after_commit env a owner w ≡ (ok b, out)
  unfolding commit_with abandon
  commit_with-commits a owner done b w out end = (refl, end)
  commit_with-commits a owner refused b w out end = cc
  commit_with-commits a owner (unanswered true) b w out end = cc
  commit_with-commits a owner (unanswered false) b w out end = cc

  pub settle-commits :
      (start : MaterialTransaction) (r : Outcome A) (b : A) (w out : World V)
      → settle env start r w ≡ (ok b, out)
      → (a : A) × (r ≡ ok a)
        × (env.commit w.db ≡ done)
        × after_commit env a (owner_or env w.owner start) w ≡ (ok b, out)
  unfolding settle abandon
  settle-commits start (ok a) b w out end =
      let (verdict, rest) =
        commit_with-commits a (owner_or env w.owner start) (env.commit w.db) b w out end in
      (a, refl, verdict, rest)
  settle-commits start (raise e) b w out end = cc
