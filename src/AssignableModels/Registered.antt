-- ===== src/AssignableModels/Registered.antt =====
-- What a registration leaves in the sets.
use netbox_openbao.Prelude.{
  String, true, List, [], ◌∷◌, ◌≡◌, arith, All, contains_text, strip, str_eq, Bool-cases, inl, inr,
}
use netbox_openbao.Json.{Value, text}
use netbox_openbao.AssignableModels.{
  Registry, Labels, valid_label, register_one, register_assignable_models,
}

module _ (labels : Labels) where
  -- Every registered label has the shape of one, and names a model.
  abbrev pub Valid : Registry → Type 0
  Valid r = All (λ l. valid_label labels l ≡ true) r.registered

  register_one-Valid : (v : Value) (r : Registry) → Valid r → Valid (register_one labels v r)
  unfolding register_one
  register_one-Valid (text s) r valid = elim (Bool-cases (str_eq (strip s) "")) [
    | inl blank ↦ rw blank valid
    | inr given ↦ elim (Bool-cases (valid_label labels (labels.lower (strip s)))) [
      | inl sound ↦ rw (given, sound) (sound, valid)
      | inr bad ↦ rw (given, bad) valid
    ]
  ]
  register_one-Valid _ r valid = valid

  register_one-keeps :
      (v : Value) (r : Registry) (l : String)
      → contains_text r.registered l ≡ true
      → contains_text (register_one labels v r).registered l ≡ true
  unfolding register_one
  register_one-keeps (text s) r l held = ground (arith, held)
  register_one-keeps _ r l held = held

  register-Valid :
      (vs : List Value) (r : Registry) → Valid r → Valid (register_assignable_models labels vs r)
  unfolding register_assignable_models
  register-Valid [] r valid = valid
  register-Valid (v ∷ rest) r valid =
      register-Valid rest (register_one labels v r) (register_one-Valid v r valid)

  register-keeps :
      (vs : List Value) (r : Registry) (l : String)
      → contains_text r.registered l ≡ true
      → contains_text (register_assignable_models labels vs r).registered l ≡ true
  unfolding register_assignable_models
  register-keeps [] r l held = held
  register-keeps (v ∷ rest) r l held =
      register-keeps rest (register_one labels v r) l (register_one-keeps v r l held)

-- Where every registered label has the shape of a label and names a model: a registration, whatever
-- values it is called with, keeps it so, and loses no label that is registered.
pub register_assignable_models-Valid :
    (labels : Labels) (vs : List Value) (r : Registry) (l : String)
    → Valid labels r
    → contains_text r.registered l ≡ true
    → Valid labels (register_assignable_models labels vs r)
      × (contains_text (register_assignable_models labels vs r).registered l ≡ true)
register_assignable_models-Valid labels vs r l valid held =
    (register-Valid labels vs r valid, register-keeps labels vs r l held)
