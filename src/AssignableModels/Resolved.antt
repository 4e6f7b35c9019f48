-- ===== src/AssignableModels/Resolved.antt =====
-- Which labels a deployment permits.
use netbox_openbao.Prelude.{
  String, Bool, true, false, List, [], ◌∷◌, ◌++◌, ◌≡◌, refl, arith, ◌∙◌, sym, ap, subst, not, ◌&&◌,
  ◌||◌, str_eq, str_eq_iff, contains_text, keep, Bool-cases, inl, inr,
}
use netbox_openbao.Json.{Value}
use netbox_openbao.AssignableModels.{
  Registry, Labels, normalize, insert_label, sorted_set, assignable_model_labels,
}

contains_text-append :
    (xs ys : List String) (l : String)
    → contains_text (xs ++ ys) l ≡ (contains_text xs l || contains_text ys l)
contains_text-append [] ys l = refl
contains_text-append (x ∷ xs) ys l = ground (arith, contains_text-append xs ys l)

contains_text-insert :
    (a : String) (bs : List String) (l : String)
    → contains_text (insert_label a bs) l ≡ (str_eq a l || contains_text bs l)
unfolding insert_label
contains_text-insert a [] l = refl
contains_text-insert a (b ∷ bs) l = ground (arith, contains_text-insert a bs l, str_eq_iff a b)

contains_text-sorted :
    (xs : List String) (l : String) → contains_text (sorted_set xs) l ≡ contains_text xs l
unfolding sorted_set
contains_text-sorted [] l = refl
contains_text-sorted (x ∷ xs) l =
    contains_text-insert x (sorted_set xs) l ∙ ap (λ b. str_eq x l || b) (contains_text-sorted xs l)

contains_text-keep :
    (p : String → Bool) (xs : List String) (l : String)
    → contains_text (keep p xs) l ≡ (contains_text xs l && p l)
contains_text-keep p [] l = refl
contains_text-keep p (x ∷ xs) l = elim (Bool-cases (p x)) [
  | inl kept ↦ elim (Bool-cases (str_eq x l)) [
    | inl same ↦ rw kept (rw (same, sym (here-true same kept)) refl)
    | inr other ↦ rw kept (rw other (contains_text-keep p xs l))
  ]
  | inr dropped ↦ elim (Bool-cases (str_eq x l)) [
    | inl same ↦ rw (dropped, same, contains_text-keep p xs l, gone same dropped) (ground arith)
    | inr other ↦ rw (dropped, other) (contains_text-keep p xs l)
  ]
]
  where
    here-true : str_eq x l ≡ true → p x ≡ true → p l ≡ true
    here-true same kept = subst (λ z. p z ≡ true) ((str_eq_iff x l).0 same) kept

    gone : str_eq x l ≡ true → p x ≡ false → p l ≡ false
    gone same dropped = subst (λ z. p z ≡ false) ((str_eq_iff x l).0 same) dropped

-- A label is permitted exactly if it is configured or registered, and not denied.
pub assignable_model_labels_iff :
    (labels : Labels) (configured denied : List Value) (r : Registry) (l : String)
    → contains_text (assignable_model_labels labels configured denied r) l ≡ (
        (contains_text (normalize labels configured) l || contains_text r.registered l)
        && not (contains_text (normalize labels denied) l))
unfolding assignable_model_labels
assignable_model_labels_iff labels configured denied r l =
    contains_text-sorted
      (keep (λ label. not (contains_text (normalize labels denied) label))
        (normalize labels configured ++ r.registered))
      l
    ∙ contains_text-keep (λ label. not (contains_text (normalize labels denied) label))
        (normalize labels configured ++ r.registered) l
    ∙ ap (λ b. b && not (contains_text (normalize labels denied) l))
        (contains_text-append (normalize labels configured) r.registered l)
