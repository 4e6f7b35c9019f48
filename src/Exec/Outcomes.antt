-- ===== src/Exec/Outcomes.antt =====
-- Code that may raise and changes nothing: the chain of its steps, and what a success tells.
use netbox_openbao.Prelude.{
  ◌≡◌, refl, ap, subst, suc, length, Bool, true, false, List, [], ◌∷◌, All,
}
use netbox_openbao.Errors.{Exn}
use netbox_openbao.Exec.{Outcome, ok, raise}

infixl 10 ◌>>=◌ ◌>>◌
abbrev pub ◌>>=◌ {ℓ κ} : {A : Type ℓ} {B : Type κ} → Outcome A → (A → Outcome B) → Outcome B
ok a >>= f = f a
raise e >>= f = raise e

abbrev pub ◌>>◌ {ℓ} : {B : Type ℓ} → Outcome (Unit {0}) → Outcome B → Outcome B
m >> k = m >>= λ _. k

-- `if not test: raise e`
abbrev pub guard : Bool → Exn → Outcome (Unit {0})
guard true e = ok tt
guard false e = raise e

-- `[f(x) for x in xs]`, in order, up to the first exception.
unfoldable pub each : {A B : Type 0} → (A → Outcome B) → List A → Outcome (List B)
each f [] = ok []
each f (x ∷ xs) = do y ← f x; ys ← each f xs; ok (y ∷ ys)

-- What a result has, if there is one.
abbrev pub Ensures {ℓ κ} : {A : Type ℓ} → (A → Type κ) → Outcome A → Type κ
Ensures Q (ok a) = Q a
Ensures Q (raise e) = Unit

pub ensured {ℓ κ} :
    {A : Type ℓ} (Q : A → Type κ) (m : Outcome A) {a : A} → Ensures Q m → m ≡ ok a → Q a
ensured Q (ok b) q h = let same : b ≡ _ = cc h in subst Q same q
ensured Q (raise e) q h = cc

-- The rest of a chain runs on a result of its first step only.
pub Ensures->>= {ℓ κ} :
    {A : Type ℓ} {B : Type ℓ} (Q : B → Type κ) (m : Outcome A) (f : A → Outcome B)
    → ((a : A) → m ≡ ok a → Ensures Q (f a))
    → Ensures Q (m >>= f)
Ensures->>= Q (ok a) f h = h a refl
Ensures->>= Q (raise e) f h = tt

-- The rest of a chain runs on what its first step ensures.
pub Ensures-chain {ℓ κ ι} :
    {A B : Type ℓ} (Q : B → Type κ) (P : A → Type ι) (m : Outcome A) (f : A → Outcome B)
    → Ensures P m
    → ((a : A) → P a → Ensures Q (f a))
    → Ensures Q (m >>= f)
Ensures-chain Q P (ok a) f p h = h a p
Ensures-chain Q P (raise e) f p h = tt

pub Ensures-guard {κ} :
    {B : Type 0} (Q : B → Type κ) (b : Bool) (e : Exn) (m : Outcome B)
    → (b ≡ true → Ensures Q m)
    → Ensures Q (guard b e >> m)
Ensures-guard Q true e m h = h refl
Ensures-guard Q false e m h = tt

-- What every result of `f` has, every element that `each` returns has, and none is lost.
pub Ensures-each :
    {A B : Type 0} (Q : B → Type 0) (f : A → Outcome B) (xs : List A)
    → ((x : A) → Ensures Q (f x))
    → Ensures (λ ys. All Q ys × (length ys ≡ length xs)) (each f xs)
unfolding each
Ensures-each Q f [] q = (tt, refl)
Ensures-each Q f (x ∷ xs) q =
    Ensures->>= _ (f x) (λ y. each f xs >>= λ ys. ok (y ∷ ys))
      λ y at.
        Ensures->>= _ (each f xs) (λ ys. ok (y ∷ ys))
          λ ys rest.
            let (all, count) = ensured _ (each f xs) (Ensures-each Q f xs q) rest in
            ((ensured Q (f x) (q x) at, all), ap suc count)
