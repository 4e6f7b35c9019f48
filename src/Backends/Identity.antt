-- ===== src/Backends/Identity.antt =====
-- Whose service identity a backend presents.
use netbox_openbao.Prelude.{
  ℕ, Bool, true, Option, none, some, List, [], ◌∷◌, ◌≡◌, refl, ◌⊎◌, inl, inr, arith, first,
  Bool-cases,
}
use netbox_openbao.Models.{Engine, Policy, AuthMaterial, AuthOwner, of_engine, of_policy, Db}
use netbox_openbao.Backends.{
  or_engine, engine_material, get_backend, owns_engine, owns_policy, policy_material,
}

first-holds {ℓ} :
    {A : Type ℓ} (p : A → Bool) (xs : List A) (a : A) → first p xs ≡ some a → p a ≡ true
first-holds p [] a h = cc
first-holds p (x ∷ xs) a h = elim (Bool-cases (p x)) [
  | inl holds ↦ ground arith
  | inr fails ↦ first-holds p xs a (rw fails at h)
]

of_engine-owner : (pk : ℕ) (owner : AuthOwner) → owns_engine pk owner ≡ true → owner ≡ of_engine pk
of_engine-owner pk (of_engine n) h = ground arith
of_engine-owner pk _ h = cc

of_policy-owner : (pk : ℕ) (owner : AuthOwner) → owns_policy pk owner ≡ true → owner ≡ of_policy pk
of_policy-owner pk (of_policy n) h = ground arith
of_policy-owner pk _ h = cc

or_engine-cases :
    (e : Engine) (db : Db) (found : Option AuthMaterial) {m : AuthMaterial}
    → or_engine e db found ≡ some m
    → (found ≡ some m) ⊎ ((found ≡ none) × (engine_material e db ≡ some m))
or_engine-cases e db (some row) h = inl h
or_engine-cases e db none h = inr (refl, h)

-- Where a backend made for a policy presents an identity, it is the policy's, or, if the policy has
-- none, that of the engine.
pub get_backend-owner :
    (e : Engine) (p : Policy) (db : Db) (m : AuthMaterial)
    → (get_backend e (some p) db).auth_material ≡ some m
    → (m.owner ≡ of_policy p.pk) ⊎ ((policy_material p db ≡ none) × (m.owner ≡ of_engine e.pk))
unfolding get_backend
get_backend-owner e p db m h = elim (or_engine-cases e db (policy_material p db) h) [
  | inl own ↦ inl (
      of_policy-owner p.pk m.owner
        (first-holds (λ r. owns_policy p.pk r.owner) db.auth_materials m own))
  | inr (absent, engine) ↦ inr (
    absent,
    of_engine-owner e.pk m.owner
        (first-holds (λ r. owns_engine e.pk r.owner) db.auth_materials m engine),
  )
]
