-- ===== src/Administration/MountedPaths.antt =====
-- The path of a request to a mounted secret engine, in netbox_openbao/administration/engines.py.
pub mod Confined
use Prim.Native.Nat.{◌/◌, ◌%◌}
use Prim.Native.Char.{code}
use netbox_openbao.Prelude.{
  ℕ, zero, suc, ◌+◌, ◌<>◌, String, Bool, true, false, List, [], ◌∷◌, not, ◌&&◌, ◌||◌, ltb, leb,
  ◌==◌, all, map, join, ◌≡◌, refl, str_eq, strip, strip_start, strip_end, if◌then◌else◌,
}
use netbox_openbao.Errors.{Exn, capability_schema}
use netbox_openbao.Exec.{Outcome, ok, raise}
use netbox_openbao.Exec.Outcomes.{◌>>=◌, ◌>>◌, guard}
use netbox_openbao.Json.{Value, text}
use netbox_openbao.Models.Paths.{segments, starts_with_slash, ends_with_slash, slash}
use netbox_openbao.Administration.Values.{text_length}

-- `[A-Za-z0-9]`
abbrev pub alphanumeric : ℕ → Bool
alphanumeric c = (leb 48 c && leb c 57) || (leb 65 c && leb c 90) || (leb 97 c && leb c 122)

-- `[A-Za-z0-9_.-]` and `[A-Za-z0-9_.:@+~-]`
abbrev pub mount_char : ℕ → Bool
mount_char c = alphanumeric c || c == 95 || c == 46 || c == 45

abbrev pub resource_char : ℕ → Bool
resource_char c = mount_char c || c == 58 || c == 64 || c == 43 || c == 126

-- At most `n` characters, all of a class.
unfoldable pub run_of : (ℕ → Bool) → ℕ → String → Bool
run_of p n String.[] = true
run_of p zero (String.◌∷◌ c s) = false
run_of p (suc n) (String.◌∷◌ c s) = p (code c) && run_of p n s

-- A full match of one alphanumeric character and at most `n` of a class.
unfoldable pub full_match : (ℕ → Bool) → ℕ → String → Bool
unfolding run_of
full_match p n String.[] = false
full_match p n (String.◌∷◌ c s) = alphanumeric (code c) && run_of p n s

abbrev pub bad_mount : Exn
bad_mount = capability_schema "The secret-engine mount path is invalid."

abbrev pub bad_resource : Exn
bad_resource = capability_schema "The mounted resource path is invalid."

-- `value.strip().strip("/")`
unfoldable pub bare_mount : String → String
unfolding strip strip_start strip_end
bare_mount s = strip_start slash (strip_end slash (strip s))

unfoldable pub normalize_mount_path : Value → Outcome String
unfolding bare_mount full_match
normalize_mount_path (text s) =
    guard (full_match mount_char 127 (bare_mount s)) bad_mount >> ok (bare_mount s)
normalize_mount_path _ = raise bad_mount

-- `"//" in text`
unfoldable pub double_slash : String → Bool
double_slash String.[] = false
double_slash (String.◌∷◌ c String.[]) = false
double_slash (String.◌∷◌ c (String.◌∷◌ d s)) =
    (slash (code c) && slash (code d)) || double_slash (String.◌∷◌ d s)

abbrev pub dots : String → Bool
dots s = str_eq s "." || str_eq s ".."

unfoldable pub resource_segment : String → Bool
unfolding full_match
resource_segment s = full_match resource_char 199 s && not (dots s)

unfoldable pub normalize_resource_path : Value → Outcome String
unfolding text_length strip starts_with_slash ends_with_slash double_slash segments resource_segment
    join
normalize_resource_path (text s) = do
  guard (not (str_eq s "") && leb (text_length s) 1024) bad_resource
  guard
      (str_eq s (strip s)
        && not (starts_with_slash s)
        && not (ends_with_slash s)
        && not (double_slash s))
      bad_resource
  guard (all resource_segment (segments s)) bad_resource
  ok (join "/" (segments s))
normalize_resource_path _ = raise bad_resource

-- The bytes of a character in UTF-8.
utf8_bytes : ℕ → List ℕ
utf8_bytes c =
    if ltb c 128
    then c ∷ []
    else if ltb c 2048
    then (192 + c / 64) ∷ (128 + c % 64) ∷ []
    else if ltb c 65536
    then (224 + c / 4096) ∷ (128 + c / 64 % 64) ∷ (128 + c % 64) ∷ []
    else (240 + c / 262144) ∷ (128 + c / 4096 % 64) ∷ (128 + c / 64 % 64) ∷ (128 + c % 64) ∷ []

-- The character at a position of the hexadecimal digits.
hex_digit : ℕ → String → String
hex_digit n String.[] = ""
hex_digit zero (String.◌∷◌ c s) = String.◌∷◌ c ""
hex_digit (suc n) (String.◌∷◌ c s) = hex_digit n s

percent : List ℕ → String
unfolding hex_digit
percent [] = ""
percent (b ∷ rest) =
    "%"
    <> (hex_digit (b / 16) "0123456789ABCDEF"
        <> (hex_digit (b % 16) "0123456789ABCDEF" <> percent rest))

-- `urllib.parse.quote(text, safe=...)`; `safe` is a class beside the characters that never need it.
unfoldable pub quote : (ℕ → Bool) → String → String
unfolding utf8_bytes percent
quote safe String.[] = ""
quote safe (String.◌∷◌ c s) =
    let rest = quote safe s in
    if mount_char (code c) || code c == 126 || safe (code c)
    then String.◌∷◌ c rest
    else percent (utf8_bytes (code c)) <> rest

-- `safe="-._~"` and `safe="-._~:@+"`
abbrev pub mount_safe : ℕ → Bool
mount_safe c = c == 45 || c == 46 || c == 95 || c == 126

abbrev pub resource_safe : ℕ → Bool
resource_safe c = mount_safe c || c == 58 || c == 64 || c == 43

unfoldable pub compile_mounted_path : (mount_path resource_path : Value) → Outcome String
unfolding normalize_mount_path normalize_resource_path quote segments join
compile_mounted_path mount_path resource_path = do
  mount ← normalize_mount_path mount_path
  resource ← normalize_resource_path resource_path
  ok (
      "/"
      <> (quote mount_safe mount
          <> ("/" <> join "/" (map (quote resource_safe) (segments resource)))))

compiled_example : compile_mounted_path (text "/kv/") (text "team/db-1") ≡ ok "/kv/team/db-1"
unfolding compile_mounted_path
compiled_example = refl

escape_example : compile_mounted_path (text "kv") (text "a/../b") ≡ raise bad_resource
unfolding compile_mounted_path
escape_example = refl
