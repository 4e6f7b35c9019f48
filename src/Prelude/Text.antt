-- ===== src/Prelude/Text.antt =====
-- Texts: the parts of Python's `str` that the code uses, on characters of a native `String`.
use Prim.Native.Nat.{ℕ, zero, suc, ◌/◌, ◌%◌, Ordering}
use Prim.Native.String.{String, compare, ◌++◌ as ◌<>◌}
use mathlib.Core.Path.{◌≡◌, refl}
use mathlib.Core.Bool.{Bool, true, false, ◌&&◌, ◌||◌}
use text.Mathlib.Text.{◌==◌ as str_eq}
use Prim.Native.Char.{code}
use mathlib.Core.List.{List, [], ◌∷◌}
use netbox_openbao.Prelude.Tests.{ltb, leb, ◌==◌, if◌then◌else◌}

-- `text[:n]`
unfoldable pub truncate : ℕ → String → String
truncate zero s = ""
truncate (suc n) String.[] = ""
truncate (suc n) (String.◌∷◌ c s) = String.◌∷◌ c (truncate n s)

-- `a <= b`, by code points.
unfoldable pub text_le : String → String → Bool
text_le a b = elim (compare a b) [ Ordering.gt ↦ false | _ ↦ true ]

insert_text : String → List String → List String
unfolding text_le
insert_text a [] = a ∷ []
insert_text a (b ∷ bs) = if text_le a b then a ∷ b ∷ bs else b ∷ insert_text a bs

-- `sorted(texts)`
unfoldable pub sorted : List String → List String
unfolding insert_text
sorted [] = []
sorted (a ∷ rest) = insert_text a (sorted rest)

-- `character.isspace()`, by code point.
unfoldable pub is_space : ℕ → Bool
is_space c =
    (leb 9 c && leb c 13)
    || (leb 28 c && leb c 32)
    || c == 133
    || c == 160
    || c == 5760
    || (leb 8192 c && leb c 8202)
    || c == 8232
    || c == 8233
    || c == 8239
    || c == 8287
    || c == 12288

-- `text.rstrip(...)`, by a test of the characters.
unfoldable pub strip_end : (ℕ → Bool) → String → String
strip_end p String.[] = ""
strip_end p (String.◌∷◌ c s) =
    let rest = strip_end p s in if p (code c) && str_eq rest "" then "" else String.◌∷◌ c rest

unfoldable pub strip_start : (ℕ → Bool) → String → String
strip_start p String.[] = ""
strip_start p (String.◌∷◌ c s) = if p (code c) then strip_start p s else String.◌∷◌ c s

-- `text.strip()`
unfoldable pub strip : String → String
unfolding strip_start strip_end is_space
strip s = strip_start is_space (strip_end is_space s)

-- One decimal digit.
digit : ℕ → String
digit zero = "0"
digit (suc zero) = "1"
digit (suc (suc zero)) = "2"
digit (suc (suc (suc zero))) = "3"
digit (suc (suc (suc (suc zero)))) = "4"
digit (suc (suc (suc (suc (suc zero))))) = "5"
digit (suc (suc (suc (suc (suc (suc zero)))))) = "6"
digit (suc (suc (suc (suc (suc (suc (suc zero))))))) = "7"
digit (suc (suc (suc (suc (suc (suc (suc (suc zero)))))))) = "8"
digit _ = "9"

-- The digits of `n`; `n + 1` rounds are more than a number has digits.
print_from : ℕ → ℕ → String
unfolding digit
print_from zero n = ""
print_from (suc fuel) n =
    let front = print_from fuel (n / 10) in if ltb n 10 then digit n else front <> digit (n % 10)

-- `str(n)`
unfoldable pub print_number : ℕ → String
unfolding print_from
print_number n = print_from (suc n) n

-- `separator.join(texts)`
unfoldable pub join : String → List String → String
join separator [] = ""
join separator (a ∷ []) = a
join separator (a ∷ b ∷ rest) = a <> (separator <> join separator (b ∷ rest))

printed_example : print_number 4096 ≡ "4096"
unfolding print_number
printed_example = refl
