-- ===== src/Secrets/Registry/Dict.antt =====
-- A Python dict with text keys, as the list of its items.
use netbox_openbao.Prelude.{String, Option, none, some, List, [], ◌∷◌, map, str_eq, if◌then◌else◌}

module _ {ℓ} {A : Type ℓ} where
  abbrev pub keys : List (String × A) → List String
  keys = map (λ item. item.0)

  -- `data.get(name)`
  unfoldable pub get : String → List (String × A) → Option A
  get name [] = none
  get name ((key, value) ∷ rest) = if str_eq key name then some value else get name rest
