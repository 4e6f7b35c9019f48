-- ===== src/Administration/Values.antt =====
-- The checks on single JSON values of netbox_openbao/administration/cluster.py.
use Prim.Native.Char.{code}
use netbox_openbao.Prelude.{
  ℕ, ◌<>◌, String, Bool, true, false, none, some, not, ◌&&◌, ◌||◌, ltb, leb, ◌==◌, str_eq,
}
use netbox_openbao.Errors.{Exn, capability_schema}
use netbox_openbao.Exec.{Outcome, ok, raise}
use netbox_openbao.Exec.Outcomes.{◌>>◌, guard}
use netbox_openbao.Json.{pos, Value, null, bool, int, text, object, Fields, entries}
use netbox_openbao.Secrets.Registry.{get}

-- `CapabilitySchemaError(f'OpenBao returned invalid {field_name}.')`
abbrev pub returned_invalid : String → Exn
returned_invalid field_name = capability_schema ("OpenBao returned invalid " <> (field_name <> "."))

-- `value.get(key)` and `value.get(key, default)`
unfoldable pub get_or : String → Value → Fields → Value
unfolding get entries
get_or key default fields = elim (get key (entries fields)) [ none ↦ default | some v ↦ v ]

-- `len(text)`
unfoldable pub text_length : String → ℕ
text_length String.[] = 0
text_length (String.◌∷◌ c s) = Prim.Native.Nat.suc (text_length s)

-- `any(ord(character) < 32 or ord(character) == 127 for character in text)`
unfoldable pub has_control : String → Bool
has_control String.[] = false
has_control (String.◌∷◌ c s) = ltb (code c) 32 || code c == 127 || has_control s

-- `_mapping`
unfoldable pub mapping : Value → String → Outcome Fields
mapping (object fields) name = ok fields
mapping _ name = raise (returned_invalid name)

-- `_boolean`
unfoldable pub boolean : Value → String → Outcome Bool
boolean (bool b) name = ok b
boolean _ name = raise (returned_invalid name)

-- `_integer`, with the default minimum, which every caller takes.
unfoldable pub integer : Value → String → Outcome ℕ
integer (int (pos n)) name = ok n
integer _ name = raise (returned_invalid name)

-- `_string`
unfoldable pub string_of : Value → String → (maximum : ℕ) → (blank : Bool) → Outcome String
unfolding text_length has_control
string_of (text s) name maximum blank = do
  guard (leb (text_length s) maximum && not (has_control s)) (returned_invalid name)
  guard (blank || not (str_eq s "")) (returned_invalid name)
  ok s
string_of _ name maximum blank = raise (returned_invalid name)

-- `_optional_string`
unfoldable pub optional_string : Value → String → (maximum : ℕ) → Outcome String
unfolding string_of
optional_string null name maximum = ok ""
optional_string v name maximum = string_of v name maximum true
