-- ===== src/Administration/Wrapping.antt =====
-- The bounds on a value that is to be wrapped, in netbox_openbao/administration/finalization.py: a
-- worklist of values with their depths.
pub mod Terminates
pub mod Reviewed
use Prim.Native.Char.{code}
use netbox_openbao.Prelude.{
  ℕ, zero, suc, ◌+◌, ◌<>◌, String, Bool, true, false, List, [], ◌∷◌, not, ◌&&◌, ◌||◌, ltb, leb,
  ◌==◌, length, print_number, if◌then◌else◌,
}
use netbox_openbao.Errors.{Exn, capability_schema}
use netbox_openbao.Exec.{Outcome, ok, raise}
use netbox_openbao.Exec.Outcomes.{◌>>=◌, ◌>>◌, guard}
use netbox_openbao.Json.{
  ℤ, pos, negsuc, Float, nan, infinite, decimal, Value, null, bool, int, float, text, array, object,
  Items, nil, cons, Fields, end, field,
}
use netbox_openbao.Services.Reveal.{utf8_length}
use netbox_openbao.Administration.Values.{text_length}
use netbox_openbao.Administration.Cluster.{items}

abbrev pub max_wrapping_json_bytes : ℕ
max_wrapping_json_bytes = 256000

abbrev pub max_wrapping_json_depth : ℕ
max_wrapping_json_depth = 12

abbrev pub max_wrapping_json_members : ℕ
max_wrapping_json_members = 2000

abbrev pub max_wrapping_json_string : ℕ
max_wrapping_json_string = 100000

-- `any(ord(character) < 32 for character in text)`
unfoldable pub has_low : String → Bool
has_low String.[] = false
has_low (String.◌∷◌ c s) = ltb (code c) 32 || has_low s

unfoldable pub valid_json_text : String → Bool
unfolding text_length has_low
valid_json_text s = leb (text_length s) max_wrapping_json_string && not (has_low s)

-- `_validate_json_text`
unfoldable pub validate_json_text : String → (label : String) → Outcome (Unit {0})
unfolding valid_json_text
validate_json_text s label =
    guard (valid_json_text s)
      (capability_schema ("The wrapping data contains an invalid " <> (label <> ".")))

-- `_wrapping_children` of an object: its values, behind the checks of their keys.
unfoldable pub field_children : Fields → Outcome (List Value)
unfolding validate_json_text
field_children end = ok []
field_children (field key child rest) = do
  validate_json_text key "object key"
  others ← field_children rest
  ok (child ∷ others)

unfoldable pub wrapping_children : Value → Outcome (List Value)
unfolding items field_children
wrapping_children (object fields) = field_children fields
wrapping_children (array vs) = ok (items vs)
wrapping_children _ = ok []

-- `_validate_wrapping_scalar`; whatever JSON has is of a supported type.
unfoldable pub validate_wrapping_scalar : Value → Outcome (Unit {0})
unfolding validate_json_text
validate_wrapping_scalar (text s) = validate_json_text s "string"
validate_wrapping_scalar (float (decimal _ _)) = ok tt
validate_wrapping_scalar (float _) =
    raise (capability_schema "The wrapping data contains a non-finite number.")
validate_wrapping_scalar _ = ok tt

-- `pending.extend((child, depth + 1) for child in children)`, on a stack with its top in front.
unfoldable pub extend : ℕ → List Value → List (Value × ℕ) → List (Value × ℕ)
extend depth [] pending = pending
extend depth (child ∷ rest) pending = extend depth rest ((child, suc depth) ∷ pending)

-- How the loop ends: with an outcome, or out of the rounds that it was given.
pub data Run : Type 0 where
  done : Outcome (Unit {0}) → Run
  out_of_rounds : Run

abbrev pub on_ok : Outcome (Unit {0}) → Run → Run
on_ok (ok _) run = run
on_ok (raise e) run = done (raise e)

-- The rest of a round, with the members counted so far.
abbrev pub with_children : Outcome (List Value) → (List Value → Run) → Run
with_children (ok children) go = go children
with_children (raise e) go = done (raise e)

unfoldable pub loop : (rounds : ℕ) → (members : ℕ) → List (Value × ℕ) → Run
unfolding wrapping_children validate_wrapping_scalar extend
loop zero members [] = done (ok tt)
loop zero members (_ ∷ _) = out_of_rounds
loop (suc rounds) members [] = done (ok tt)
loop (suc rounds) members ((item, depth) ∷ pending) =
    if ltb max_wrapping_json_depth depth
    then done (raise (capability_schema "The wrapping data is nested too deeply."))
    else with_children (wrapping_children item) λ children.
      if ltb max_wrapping_json_members (members + length children)
      then done (raise (capability_schema "The wrapping data contains too many members."))
      else on_ok (validate_wrapping_scalar item)
          (loop rounds (members + length children) (extend depth children pending))

-- Rounds enough for every value: a round pops what was counted as a member, or the root.
abbrev pub enough : ℕ
enough = suc max_wrapping_json_members

module _ (float_repr : Float → String) where
  -- `json.dumps(text, ensure_ascii=False)`, in bytes of UTF-8, for a text without low characters.
  escapes : String → ℕ
  escapes String.[] = 0
  escapes (String.◌∷◌ c s) = (if code c == 34 || code c == 92 then 1 else 0) + escapes s

  quoted_length : String → ℕ
  unfolding escapes utf8_length
  quoted_length s = 2 + (utf8_length s + escapes s)

  integer_length : ℤ → ℕ
  unfolding text_length print_number
  integer_length (pos n) = text_length (print_number n)
  integer_length (negsuc n) = suc (text_length (print_number (suc n)))

  -- `len(json.dumps(value, ensure_ascii=False, separators=(',', ':')).encode('utf-8'))`
  unfoldable mutual
    unfolding quoted_length integer_length text_length

    pub encoded_length : Value → ℕ
    encoded_length null = 4
    encoded_length (bool true) = 4
    encoded_length (bool false) = 5
    encoded_length (int n) = integer_length n
    encoded_length (float x) = text_length (float_repr x)
    encoded_length (text s) = quoted_length s
    encoded_length (array vs) = 2 + items_length vs
    encoded_length (object fs) = 2 + fields_length fs

    items_length : Items → ℕ
    items_length nil = 0
    items_length (cons v nil) = encoded_length v
    items_length (cons v (cons w rest)) = encoded_length v + suc (items_length (cons w rest))

    fields_length : Fields → ℕ
    fields_length end = 0
    fields_length (field k v end) = quoted_length k + suc (encoded_length v)
    fields_length (field k v (field l w rest)) =
        quoted_length k + (encoded_length v + (2 + fields_length (field l w rest)))

  -- What follows the loop.
  unfoldable pub measured : Value → Run → Run
  unfolding encoded_length
  measured value (done (ok _)) = done (
      guard (leb (encoded_length value) max_wrapping_json_bytes)
        (capability_schema "The wrapping data exceeds its reviewed size bound."))
  measured value (done (raise e)) = done (raise e)
  measured value out_of_rounds = out_of_rounds

  -- `_validate_wrapping_json`, which returns the value itself.
  unfoldable pub validate_wrapping_json : Value → Run
  unfolding loop measured
  validate_wrapping_json (object fields) =
      measured (object fields) (loop enough 0 ((object fields, 0) ∷ []))
  validate_wrapping_json _ =
      done (raise (capability_schema "The wrapping data must be a JSON object."))
