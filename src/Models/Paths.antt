-- ===== src/Models/Paths.antt =====
-- `validate_path_prefix` of netbox_openbao/models/settings.py and `_path_for_prefix` of
-- netbox_openbao/models/credentials.py.
pub mod Segments
use Prim.Native.Char.{code}
use netbox_openbao.Prelude.{
  ℕ, ◌<>◌, ◌≡◌, refl, String, Bool, true, false, List, [], ◌∷◌, any, not, leb, ◌==◌, ◌||◌, ◌&&◌,
  str_eq, is_space, if◌then◌else◌,
}
use netbox_openbao.Errors.{Exn, invalid, bad_path_prefix}
use netbox_openbao.Exec.{Outcome, ok, raise}

abbrev pub slash : ℕ → Bool
slash c = c == 47

-- The first segment of a split, and the others.
abbrev pub extend : Prim.Native.Char.Char → List String → List String
extend c [] = String.◌∷◌ c "" ∷ []
extend c (segment ∷ rest) = String.◌∷◌ c segment ∷ rest

-- `text.split('/')`
unfoldable pub segments : String → List String
segments String.[] = "" ∷ []
segments (String.◌∷◌ c s) =
    let rest = segments s in if slash (code c) then "" ∷ rest else extend c rest

-- `prefix.startswith('/')` and `prefix.endswith('/')`
unfoldable pub starts_with_slash : String → Bool
starts_with_slash String.[] = false
starts_with_slash (String.◌∷◌ c s) = slash (code c)

unfoldable pub ends_with_slash : String → Bool
ends_with_slash String.[] = false
ends_with_slash (String.◌∷◌ c String.[]) = slash (code c)
ends_with_slash (String.◌∷◌ c (String.◌∷◌ d s)) = ends_with_slash (String.◌∷◌ d s)

unfoldable pub any_space : String → Bool
unfolding is_space
any_space String.[] = false
any_space (String.◌∷◌ c s) = is_space (code c) || any_space s

-- `segment in ('', '.', '..')`
abbrev pub bad_segment : String → Bool
bad_segment s = str_eq s "" || str_eq s "." || str_eq s ".."

unfoldable pub malformed : String → Bool
unfolding segments starts_with_slash ends_with_slash any_space
malformed prefix =
    str_eq prefix ""
    || starts_with_slash prefix
    || ends_with_slash prefix
    || any_space prefix
    || any bad_segment (segments prefix)

unfoldable pub validate_path_prefix : String → Outcome (Unit {0})
unfolding malformed
validate_path_prefix prefix = if malformed prefix then raise (invalid bad_path_prefix) else ok tt

-- `_path_for_prefix`
unfoldable pub path_for_prefix : String → String → Outcome String
unfolding malformed
path_for_prefix prefix uuid =
    if malformed prefix
    then raise (invalid bad_path_prefix)
    else ok (prefix <> ("/credentials/" <> uuid))

segments_example : segments "a/b//c" ≡ "a" ∷ "b" ∷ "" ∷ "c" ∷ []
unfolding segments
segments_example = refl

malformed_example : malformed "../x" ≡ true
unfolding malformed
malformed_example = refl
