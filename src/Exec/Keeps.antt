-- ===== src/Exec/Keeps.antt =====
-- Invariants of code that mutates a state, with a rule for each way to put it together.
use netbox_openbao.Prelude.{◌≡◌, sym, subst, Bool, true, false, if◌then◌else◌}
use netbox_openbao.Errors.{Exn}
use netbox_openbao.Exec.{Exec, Outcome, ok, raise, continue, require, ◌>>=◌}

-- Where `P` holds, it holds of the state that is left, whether the code returns or raises.
pub record Keeps {S A : Type 0} (P : S → Type 0) (m : Exec S A) : Type 0 where
  pub at : (s : S) → P s → P (m s).1

module _ {S : Type 0} {P : S → Type 0} where
  Keeps-continue :
      {A B : Type 0} (r : Outcome A) (f : A → Exec S B) (s : S)
      → ((a : A) → Keeps P (f a))
      → P s
      → P (continue r f s).1
  Keeps-continue (ok a) f s kept h = (kept a).at s h
  Keeps-continue (raise e) f s kept h = h

  pub Keeps-bind :
      {A B : Type 0} (m : Exec S A) (f : A → Exec S B)
      → Keeps P m
      → ((a : A) → Keeps P (f a))
      → Keeps P (m >>= f)
  Keeps-bind m f first kept = record {
    at = λ s h. Keeps-continue (m s).0 f (m s).1 kept (first.at s h);
  }

  -- Code that only reads.
  pub Keeps-still : {A : Type 0} (m : Exec S A) → ((s : S) → (m s).1 ≡ s) → Keeps P m
  Keeps-still m still = record { at = λ s h. subst P (sym (still s)) h }

  pub Keeps-require : (b : Bool) (e : Exn) → Keeps P (require b e)
  Keeps-require true e = record { at = λ s h. h }
  Keeps-require false e = record { at = λ s h. h }

  pub Keeps-if :
      {A : Type 0} (b : Bool) (m n : Exec S A)
      → Keeps P m
      → Keeps P n
      → Keeps P (λ s. if b then m s else n s)
  Keeps-if true m n km kn = record { at = km.at }
  Keeps-if false m n km kn = record { at = kn.at }
