-- ===== src/MaterialTransactions/Result.antt =====
-- The result of `material_transaction`, where it returns: it is the result of its body.
use netbox_openbao.Prelude.{false, Option, none, some, [], ◌≡◌, refl, arith, ◌∙◌, sym}
use netbox_openbao.Exec.{Exec, Outcome, ok, raise, continue}
use netbox_openbao.World.{MaterialTransaction, World, Env, done}
use netbox_openbao.MaterialTransactions.{
  begin, guarded, checked, settle, abandon, after_commit, close, material_transaction,
  run_callbacks, unknown_of, fresh_owner, finish_deletions, owner_or, owner_refused, witness_lost,
}
use netbox_openbao.MaterialTransactions.Settle.{owned-settle, settle-commits}

module _ {V : Type 0} (env : Env V) (A : Type 0) where
  continue-value :
      (r : Outcome (Unit {0})) (a b : A) (w out : World V)
      → continue r (λ _ s. (ok a, s)) w ≡ (ok b, out)
      → a ≡ b
  continue-value (ok _) a b w out end = ground (arith, end)
  continue-value (raise e) a b w out end = cc

  close-value :
      (a b : A) (owner : MaterialTransaction) (w out : World V)
      → close env a owner w ≡ (ok b, out)
      → a ≡ b
  unfolding close
  close-value a b owner w out end =
      let start = record w { owner = none; closed_owner = some owner } in
      let (r, w') = finish_deletions env owner start in continue-value r a b w' out end

  after_commit-value :
      (a b : A) (owner : MaterialTransaction) (w out : World V)
      → after_commit env a owner w ≡ (ok b, out)
      → a ≡ b
  unfolding after_commit abandon
  after_commit-value a b owner w out end =
      let start = record w { base = w.db; in_atomic = false; callbacks = [] } in
      let (r, w') = run_callbacks env w.callbacks start in pass r w' end
    where
      pass :
          (r : Outcome (Unit {0})) (w' : World V)
          → (elim r as (λ _. Outcome A × World V) [
            | ok _ ↦ close env a (owner_or env w'.owner owner) w'
            | raise e ↦ abandon env (owner_or env w'.owner owner) e (unknown_of env e) w'
          ])
            ≡ (ok b, out)
          → a ≡ b
      pass (ok _) w' h = close-value a b (owner_or env w'.owner owner) w' out h
      pass (raise e) w' h = cc

  checked-value :
      (a b : A) (o : Option MaterialTransaction) (m out : World V)
      → checked env a o m ≡ (ok b, out)
      → a ≡ b × m ≡ out
  unfolding checked owner_refused witness_lost
  checked-value a b none m out end = ground (arith, end)
  checked-value a b (some owner) m out end = ground (arith, end)

  guarded-value :
      (body : Exec (World V) A) (b : A) (w m : World V)
      → guarded env body w ≡ (ok b, m)
      → body (begin env w) ≡ (ok b, m)
  unfolding guarded
  guarded-value body b w m run = let (r, w') = body (begin env w) in pass r w' run
    where
      pass :
          (r : Outcome A) (w' : World V)
          → continue r (λ a s. checked env a s.owner s) w' ≡ (ok b, m)
          → ◌≡◌ {A = Outcome A × World V} (r, w') (ok b, m)
      pass (ok a) w' h =
          let (same, state) = checked-value a b w'.owner w' m h in ground (arith, same, state)
      pass (raise e) w' h = cc

-- Where an owned transaction returns a value, its body returned that value, and the state that the
-- body left is the one that was committed.
pub material_transaction-ok :
    {V A : Type 0} (env : Env V) (body : Exec (World V) A) (w out : World V) (b : A)
    → w.owner ≡ none
    → w.in_atomic ≡ false
    → material_transaction env body w ≡ (ok b, out)
    → (m : World V) × (body (begin env w) ≡ (ok b, m)) × (env.commit m.db ≡ done)
material_transaction-ok {A = A} env body w out b free idle end =
    let m = (guarded env body w).1 in
    let settled : settle env (fresh_owner w.next_operation) (guarded env body w).0 m ≡ (ok b, out) =
      sym (owned-settle env A body _ w _ free idle refl) ∙ end in
    let (a, outcome, verdict, rest) = settle-commits env A _ _ b m out settled in
    let same = after_commit-value env A a b _ m out rest in
    (m, guarded-value env A body b w m (ground (arith, outcome, same)), verdict)
