-- ===== src/Automation/Spent/Lasting.antt =====
-- A receipt that is committed stays, through every part of a resolution.
use netbox_openbao.Prelude.{Bool, true, false, List, [], ◌∷◌, ◌≡◌, refl, All, any, if◌then◌else◌}
use netbox_openbao.Exec.{Exec, Outcome, ok, raise}
use netbox_openbao.Exec.Keeps.{Keeps}
use netbox_openbao.Models.{Db}
use netbox_openbao.World.{World, Env, Commit, done, refused, unanswered, write_db, lock_wait}
use netbox_openbao.Automation.Delivery.{Key, same_key, spent, end_with, end_block, atomic}

-- Another transaction leaves a receipt of the key alone.
abbrev pub Leaves : Key → (Db → Db) → Type 0
Leaves k f = (db : Db) → spent k db ≡ true → spent k (f db) ≡ true

module _ {V : Type 0} (k : Key) where
  -- A receipt of the key stands, committed and in sight, and no other transaction removes it.
  pub record Lasting (w : World V) : Type 0 where
    pub seen : spent k w.db ≡ true
    pub kept : spent k w.base ≡ true
    pub others : All (Leaves k) w.others

  pub lock_wait-Lasting : (w : World V) → Lasting w → Lasting (lock_wait w)
  unfolding lock_wait
  lock_wait-Lasting w h = go w.others refl h.others
    where
      go :
          (fs : List (Db → Db))
          → w.others ≡ fs
          → All (Leaves k) fs
          → Lasting (elim fs as (λ _. World V) [
            | [] ↦ w
            | f ∷ rest ↦ record w { db = f w.db; base = f w.base; others = rest }
          ])
      go [] at all = h
      go (f ∷ rest) at (leaves, all) = record {
        seen = leaves w.db h.seen;
        kept = leaves w.base h.kept;
        others = all;
      }

  -- A statement that does not touch the receipts.
  pub write_db-Lasting :
      (f : Db → Db) (w : World V)
      → ((db : Db) → (f db).receipts ≡ db.receipts)
      → Lasting w
      → Lasting (write_db f w)
  unfolding write_db spent
  write_db-Lasting f w same h = record {
    seen = rw (same w.db) h.seen;
    kept = go w.in_atomic;
    others = h.others;
  }
    where
      go : (b : Bool) → any (same_key k) (if b then w.base else f w.base).receipts ≡ true
      go true = h.kept
      go false = rw (same w.base) h.kept

  -- However a block ends.
  pub end_block-Lasting :
      {A : Type 0} (env : Env V) (r : Outcome A) (w : World V)
      → Lasting w
      → Lasting (end_block env r w).1
  unfolding end_block end_with
  end_block-Lasting env (raise e) w h = record { seen = h.kept; kept = h.kept; others = h.others }
  end_block-Lasting env (ok a) w h = go (env.commit w.db)
    where
      go : (c : Commit) → Lasting (end_with env a c w).1
      go done = record { seen = h.seen; kept = h.seen; others = h.others }
      go refused = record { seen = h.kept; kept = h.kept; others = h.others }
      go (unanswered true) = record { seen = h.seen; kept = h.seen; others = h.others }
      go (unanswered false) = record { seen = h.kept; kept = h.kept; others = h.others }

  pub atomic-Lasting :
      {A : Type 0} (env : Env V) (body : Exec (World V) A)
      → Keeps Lasting body
      → Keeps Lasting (atomic env body)
  unfolding atomic
  atomic-Lasting env body kept = record {
    at = λ w h.
        end_block-Lasting env (body (record w { in_atomic = true })).0
          (body (record w { in_atomic = true })).1
          (kept.at (record w { in_atomic = true })
            (record { seen = h.seen; kept = h.kept; others = h.others }));
  }
