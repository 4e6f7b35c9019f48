-- ===== src/Exec.antt =====
-- Code that mutates a state and may raise. What was written before a raise stays written, so the
-- state comes back beside the exception too.
pub mod Outcomes
pub mod Keeps
use netbox_openbao.Prelude.{◌≡◌, refl, Bool, true, false}
use netbox_openbao.Errors.{Exn}

pub data Outcome {ℓ} (A : Type ℓ) : Type ℓ where
  ok : A → Outcome A
  raise : Exn → Outcome A

abbrev pub Exec {ℓ} : Type ℓ → Type ℓ → Type ℓ
Exec S A = S → Outcome A × S

module _ {ℓ} {S A : Type ℓ} where
  abbrev pub pure : A → Exec S A
  pure a s = (ok a, s)

  abbrev pub throw : Exn → Exec S A
  throw e s = (raise e, s)

  abbrev pub lift : Outcome A → Exec S A
  lift r s = (r, s)

  abbrev pub gets : (S → A) → Exec S A
  gets f s = (ok (f s), s)

module _ {ℓ} {S A B : Type ℓ} where
  abbrev pub continue : Outcome A → (A → Exec S B) → Exec S B
  continue (ok a) f s = f a s
  continue (raise e) f s = (raise e, s)

  infixl 10 ◌>>=◌ ◌>>◌
  abbrev pub ◌>>=◌ : Exec S A → (A → Exec S B) → Exec S B
  ◌>>=◌ m f s = let (r, s') = m s in continue r f s'

  abbrev pub ◌>>◌ : Exec S A → Exec S B → Exec S B
  m >> n = m >>= λ _. n

-- A statement that only changes the state.
abbrev pub modify : {S : Type 0} → (S → S) → Exec S Unit
modify f s = (ok tt, f s)

-- `if not test: raise e`
abbrev pub require : {S : Type 0} → Bool → Exn → Exec S Unit
require true e s = (ok tt, s)
require false e s = (raise e, s)

-- A successful bind ran both of its parts.
pub continue-eq-ok {ℓ} :
    {S A B : Type ℓ} (r : Outcome A) (f : A → Exec S B) (s : S) {b : B} {t : S}
    → continue r f s ≡ (ok b, t)
    → (a : A) × (r ≡ ok a) × (f a s ≡ (ok b, t))
continue-eq-ok (ok a) f s h = (a, refl, h)
continue-eq-ok (raise e) f s h = cc

pub bind-ok :
    {S A B : Type 0} (m : Exec S A) (f : A → Exec S B) (s t : S) (b : B)
    → (m >>= f) s ≡ (ok b, t)
    → (a : A) × (u : S) × (m s ≡ (ok a, u)) × (f a u ≡ (ok b, t))
bind-ok m f s t b h =
    let (a, first, second) = continue-eq-ok (m s).0 f (m s).1 h in (a, (m s).1, cc first, second)
