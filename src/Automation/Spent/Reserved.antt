-- ===== src/Automation/Spent/Reserved.antt =====
-- What a reservation leaves: a receipt that was not there, or an unused store.
use netbox_openbao.Prelude.{
  true, false, List, [], ◌∷◌, ◌++◌, ◌≡◌, refl, sym, subst, ap, arith, All, any, str_eq_iff, ==_refl,
  Bool-cases, inl, inr,
}
use netbox_openbao.Errors.{integrity_error}
use netbox_openbao.Exec.{Exec, Outcome, ok, raise, bind-ok}
use netbox_openbao.Exec.Keeps.{Keeps}
use netbox_openbao.Models.{User, Receipt, Db}
use netbox_openbao.World.{World, Env, Commit, done, refused, unanswered, write_db, lock_wait}
use netbox_openbao.Automation.Authority.{Params, Authority, Surroundings}
use netbox_openbao.Automation.Metadata.{
  Metadata, resolve_metadata, require_identity, check_dispatch,
}
use netbox_openbao.Automation.Delivery.{
  Key, same_key, spent, end_with, end_block, atomic, committed, key_of, insert_receipt, receipt_of,
  reservation, reserve, denied_if_taken, nonce_digest,
}
use netbox_openbao.Automation.Spent.Quiet.{
  resolve_metadata-Keeps, check_dispatch-Keeps, require_identity-Keeps,
}
use netbox_openbao.Automation.Spent.Lasting.{Leaves, Lasting, lock_wait-Lasting}
use netbox_openbao.Automation.Spent.Parts.{reservation_checks-Keeps}

pub kept-through :
    {S A : Type 0} {P : S → Type 0} (m : Exec S A) (s u : S) (r : Outcome A)
    → Keeps P m
    → P s
    → m s ≡ (r, u)
    → P u
kept-through {P = P} m s u r kept h e = subst P (ap (λ x. x.1) e) (kept.at s h)

any-last :
    (k : Key) (rs : List Receipt) (r : Receipt)
    → same_key k r ≡ true
    → any (same_key k) (rs ++ (r ∷ [])) ≡ true
any-last k [] r h = rw h refl
any-last k (x ∷ rs) r h = ground (arith, any-last k rs r h)

module _ {V : Type 0} where
  -- The store is as it was, and the other transactions leave the receipts of the key alone.
  pub record Idle (k : Key) (v : V) (w : World V) : Type 0 where
    pub vault : w.vault ≡ v
    pub others : All (Leaves k) w.others

  pub lock_wait-Idle : (k : Key) (v : V) (w : World V) → Idle k v w → Idle k v (lock_wait w)
  unfolding lock_wait
  lock_wait-Idle k v w h = go w.others h.others
    where
      go :
          (fs : List (Db → Db))
          → All (Leaves k) fs
          → Idle k v (elim fs as (λ _. World V) [
            | [] ↦ w
            | f ∷ rest ↦ record w { db = f w.db; base = f w.base; others = rest }
          ])
      go [] all = h
      go (f ∷ rest) (leaves, all) = record { vault = h.vault; others = all }

  pub write_db-Idle :
      (k : Key) (v : V) (f : Db → Db) (w : World V)
      → ((db : Db) → (f db).receipts ≡ db.receipts)
      → Idle k v w
      → Idle k v (write_db f w)
  unfolding write_db
  write_db-Idle k v f w same h = record { vault = h.vault; others = h.others }

module _ {V : Type 0} (env : Env V) (around : Surroundings V) (user : User) (params : Params) where
  insert_receipt-spent :
      (r : Receipt) (k : Key) (w : World V)
      → Lasting k w
      → (insert_receipt env around user params r k w).0 ≡ raise integrity_error
  unfolding insert_receipt
  insert_receipt-spent r k w h = rw (lock_wait-Lasting k w h).seen refl

  insert_receipt-Idle :
      (r : Receipt) (own k : Key) (v : V)
      → Keeps (Idle k v) (insert_receipt env around user params r own)
  unfolding insert_receipt write_db
  insert_receipt-Idle r own k v = record {
    at = λ w h.
        let idle = lock_wait-Idle k v w h in
        elim (Bool-cases (spent own (lock_wait w).db)) [
          | inl taken ↦ rw taken idle
          | inr free ↦ rw free (record { vault = idle.vault; others = idle.others })
        ];
  }

  insert_receipt-seen :
      (r out : Receipt) (k : Key) (w t : World V)
      → same_key k r ≡ true
      → insert_receipt env around user params r k w ≡ (ok out, t)
      → spent k t.db ≡ true
  unfolding insert_receipt spent write_db
  insert_receipt-seen r out k w t same h = elim (Bool-cases (spent k (lock_wait w).db)) [
    | inl taken ↦ absurd (cc (taken_raises taken, h))
    | inr free ↦
        let after : t ≡ inserted = cc (free_inserts free, h) in
        subst (λ x. any (same_key k) x.db.receipts ≡ true) (sym after)
          (any-last k (lock_wait w).db.receipts r same)
  ]
    where
      inserted : World V
      inserted = write_db (λ db. record db { receipts = db.receipts ++ (r ∷ []) }) (lock_wait w)

      taken_raises :
          spent k (lock_wait w).db ≡ true
          → insert_receipt env around user params r k w ≡ (raise integrity_error, lock_wait w)
      taken_raises e = rw e refl

      free_inserts :
          spent k (lock_wait w).db ≡ false
          → insert_receipt env around user params r k w ≡ (ok r, inserted)
      free_inserts e = rw e refl

  receipt-key :
      (a : Authority) (m : Metadata)
      → same_key (key_of env around user params a) (receipt_of env around user params a m) ≡ true
  unfolding key_of receipt_of
  receipt-key a m = ground (
    arith,
    ==_refl a.execution_id,
    (str_eq_iff (nonce_digest env around user params a) (nonce_digest env around user params a)).1
        refl,
    (str_eq_iff a.step_id a.step_id).1 refl,
    (str_eq_iff a.reference_name a.reference_name).1 refl,
  )

  -- What a reservation that returned leaves.
  reservation-ok :
      (a : Authority) (v : V) (w t : World V) (out : Receipt)
      → reservation env around user params a w ≡ (ok out, t)
      → Idle (key_of env around user params a) v w
      → Idle (key_of env around user params a) v t
        × (spent (key_of env around user params a) t.db ≡ true)
        × (Lasting (key_of env around user params a) w → ⊥)
  unfolding reservation
  reservation-ok a v w t out h idle =
      let k = key_of env around user params a in
      let (m, w1, r1, h1) = bind-ok (resolve_metadata around a) _ w t out h in
      let (_, w2, r2, h2) = bind-ok (check_dispatch around a) _ w1 t out h1 in
      let (_, w3, r3, h3) = bind-ok (require_identity around a m) _ w2 t out h2 in
      let through : (P : World V → Type 0) → ((x : World V) → P x → P (lock_wait x)) → P w → P w3 =
        λ P waits start.
          kept-through (require_identity around a m) w2 w3 (ok _)
            (require_identity-Keeps P waits around a m)
            (kept-through (check_dispatch around a) w1 w2 (ok _)
              (check_dispatch-Keeps P waits around a)
              (kept-through (resolve_metadata around a) w w1 (ok m)
                (resolve_metadata-Keeps P waits around a) start r1)
              r2)
            r3 in
      (
        kept-through
            (insert_receipt env around user params (receipt_of env around user params a m) k) w3 t
            (ok out) (insert_receipt-Idle (receipt_of env around user params a m) k k v)
            (through (Idle k v) (lock_wait-Idle k v) idle) h3,
        insert_receipt-seen (receipt_of env around user params a m) out k w3 t (receipt-key a m) h3,
        λ lasting. cc (
          insert_receipt-spent (receipt_of env around user params a m) k w3
              (through (Lasting k) (lock_wait-Lasting k) lasting),
          h3,
        ),
      )

  abbrev settled : Outcome Receipt × World V → Outcome Receipt × World V
  settled (r, w) = (denied_if_taken env around user params r, w)

  begun : World V → World V
  begun w = record w { in_atomic = true }

  end_block-ok :
      (r : Outcome Receipt) (t w1 : World V) (out : Receipt)
      → settled (end_block env r t) ≡ (ok out, w1)
      → (r ≡ ok out) × (w1 ≡ committed env t)
  unfolding end_block end_with denied_if_taken
  end_block-ok (raise integrity_error) t w1 out h = cc
  end_block-ok (raise e) t w1 out h = cc
  end_block-ok (ok a) t w1 out h = go (env.commit t.db) h
    where
      go :
          (c : Commit)
          → settled (end_with env a c t) ≡ (ok out, w1)
          → ◌≡◌ {A = Outcome Receipt} (ok a) (ok out) × (w1 ≡ committed env t)
      go done e = (ap (λ x. x.0) e, sym (ap (λ x. x.1) e))
      go refused e = cc
      go (unanswered true) e = cc
      go (unanswered false) e = cc

  -- A reservation that is made is committed, and there was none before.
  pub reserve-ok :
      (a : Authority) (v : V) (w w1 : World V) (out : Receipt)
      → reserve env around user params a w ≡ (ok out, w1)
      → Idle (key_of env around user params a) v w
      → Lasting (key_of env around user params a) w1
        × (Lasting (key_of env around user params a) w → ⊥)
  unfolding reserve atomic begun
  reserve-ok a v w w1 out h idle =
      let k = key_of env around user params a in
      let t = (reservation env around user params a (begun w)).1 in
      let (made, at) : ((reservation env around user params a (begun w)).0 ≡ ok out)
          × (w1 ≡ committed env t) =
        end_block-ok (reservation env around user params a (begun w)).0 t w1 out h in
      let (after, seen, fresh) =
        reservation-ok a v (begun w) t out (ap (λ (x : Outcome Receipt). (x, t)) made)
          (record { vault = idle.vault; others = idle.others }) in
      (
        subst (Lasting k) (sym at) (record { seen = seen; kept = seen; others = after.others }),
        λ lasting.
            fresh (record { seen = lasting.seen; kept = lasting.kept; others = lasting.others }),
      )

  end_block-Idle :
      {A : Type 0} (k : Key) (v : V) (r : Outcome A) (w : World V)
      → Idle k v w
      → Idle k v (end_block env r w).1
  unfolding end_block end_with
  end_block-Idle k v (raise e) w h = record { vault = h.vault; others = h.others }
  end_block-Idle k v (ok a) w h = go (env.commit w.db)
    where
      go : (c : Commit) → Idle k v (end_with env a c w).1
      go done = record { vault = h.vault; others = h.others }
      go refused = record { vault = h.vault; others = h.others }
      go (unanswered true) = record { vault = h.vault; others = h.others }
      go (unanswered false) = record { vault = h.vault; others = h.others }

  pub reserve-Idle :
      (a : Authority) (k : Key) (v : V) → Keeps (Idle k v) (reserve env around user params a)
  unfolding reserve atomic reservation begun
  reserve-Idle a k v = record {
    at = λ w h.
        end_block-Idle k v (reservation env around user params a (begun w)).0
          (reservation env around user params a (begun w)).1
          ((reservation_checks-Keeps env around user params (Idle k v) (lock_wait-Idle k v)
              (write_db-Idle k v) a
              (λ m.
                insert_receipt env around user params (receipt_of env around user params a m)
                  (key_of env around user params a))
              (λ m.
                insert_receipt-Idle (receipt_of env around user params a m)
                  (key_of env around user params a) k v)).at
            (record w { in_atomic = true }) (record { vault = h.vault; others = h.others }));
  }
