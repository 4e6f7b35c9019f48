-- ===== src/AssignableModels.antt =====
-- netbox_openbao/registry.py, and `assignable_model_labels` of netbox_openbao/conf.py: the models
-- that a credential may be assigned to.
pub mod Resolved
pub mod Registered
use Prim.Native.Char.{code}
use netbox_openbao.Prelude.{
  ℕ, ◌<>◌, String, Bool, true, false, Option, none, some, List, [], ◌∷◌, ◌++◌, not, ◌&&◌, ◌||◌, leb,
  ◌==◌, str_eq, strip, contains_text, keep, text_le, if◌then◌else◌,
}
use netbox_openbao.Json.{Value, text}

-- `[a-z_]` and `[a-z0-9_]`
abbrev first_char : ℕ → Bool
first_char c = (leb 97 c && leb c 122) || c == 95

abbrev later_char : ℕ → Bool
later_char c = first_char c || (leb 48 c && leb c 57)

-- The rest of the second half, up to the end.
model_rest : String → Bool
model_rest String.[] = true
model_rest (String.◌∷◌ c s) = later_char (code c) && model_rest s

model_name : String → Bool
unfolding model_rest
model_name String.[] = false
model_name (String.◌∷◌ c s) = first_char (code c) && model_rest s

-- The rest of the first half, up to the dot.
label_rest : String → Bool
unfolding model_name
label_rest String.[] = false
label_rest (String.◌∷◌ c s) =
    let rest = label_rest s in if code c == 46 then model_name s else (later_char (code c) && rest)

-- `_LABEL_RE.match(candidate)`
unfoldable pub is_label : String → Bool
unfolding label_rest
is_label String.[] = false
is_label (String.◌∷◌ c s) = first_char (code c) && label_rest s

-- The two module-level sets.
pub record Registry : Type 0 where
  pub registered : List String
  pub rejected : List String

-- `str.lower`, `repr` of what is no text, and the registry of models of Django.
pub record Labels : Type 0 where
  pub lower : String → String
  pub repr : Value → String
  pub model_exists : String → Bool

-- `sorted` of a set: one place for each element.
unfoldable pub insert_label : String → List String → List String
unfolding text_le
insert_label a [] = a ∷ []
insert_label a (b ∷ bs) =
    let later = insert_label a bs in
    if str_eq a b then b ∷ bs else if text_le a b then a ∷ b ∷ bs else b ∷ later

unfoldable pub sorted_set : List String → List String
unfolding insert_label
sorted_set [] = []
sorted_set (a ∷ rest) = insert_label a (sorted_set rest)

module _ (labels : Labels) where
  -- `label.strip().lower()`, where it is a label of a model.
  abbrev pub valid_label : String → Bool
  valid_label candidate = is_label candidate && labels.model_exists candidate

  unfoldable pub register_one : Value → Registry → Registry
  unfolding is_label strip
  register_one (text s) r =
      if str_eq (strip s) ""
      then record r { rejected = labels.repr (text s) ∷ r.rejected }
      else if valid_label (labels.lower (strip s))
      then record r { registered = labels.lower (strip s) ∷ r.registered }
      else record r { rejected = s ∷ r.rejected }
  register_one v r = record r { rejected = labels.repr v ∷ r.rejected }

  -- `register_assignable_models`; the sets are lists here, of which only membership counts.
  unfoldable pub register_assignable_models : List Value → Registry → Registry
  unfolding register_one
  register_assignable_models [] r = r
  register_assignable_models (v ∷ rest) r = register_assignable_models rest (register_one v r)

  -- `_normalize`
  unfoldable pub normalize : List Value → List String
  unfolding strip
  normalize [] = []
  normalize (text s ∷ rest) =
      let others = normalize rest in
      if str_eq (strip s) "" then others else labels.lower (strip s) ∷ others
  normalize (_ ∷ rest) = normalize rest

  -- `assignable_model_labels`: what is configured and what is registered, less what is denied. A
  -- null list is an empty one.
  unfoldable pub assignable_model_labels : (configured denied : List Value) → Registry → List String
  unfolding normalize sorted_set
  assignable_model_labels configured denied r = sorted_set (
      keep (λ label. not (contains_text (normalize denied) label))
        (normalize configured ++ r.registered))
