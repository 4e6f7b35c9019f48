-- ===== src/Administration/Wrapping/Reviewed.antt =====
-- The worklist accepts what a recursive description of the bounds accepts.
use netbox_openbao.Prelude.{
  ℕ, zero, suc, ◌+◌, ◌-◌, ◌≤◌, String, Bool, true, false, List, [], ◌∷◌, ◌≡◌, ◌↔◌, refl, arith,
  length, ltb, leb, ◌&&◌, if◌then◌else◌, ◌<>◌,
}
use netbox_openbao.Errors.{capability_schema}
use netbox_openbao.Exec.{Outcome, ok, raise}
use netbox_openbao.Exec.Outcomes.{◌>>=◌, ◌>>◌, guard}
use netbox_openbao.Json.{
  Float, nan, infinite, decimal, Value, float, text, array, object, Items, nil, cons, Fields, end,
  field,
}
use netbox_openbao.Administration.Cluster.{items}
use netbox_openbao.Administration.Wrapping.{
  Run, done, out_of_rounds, on_ok, with_children, extend, loop, enough, wrapping_children,
  field_children, validate_json_text, valid_json_text, validate_wrapping_scalar,
  max_wrapping_json_members, max_wrapping_json_depth, max_wrapping_json_bytes, measured,
  encoded_length, validate_wrapping_json,
}
use netbox_openbao.Administration.Wrapping.Terminates.{length-extend}

abbrev finite : Float → Bool
finite (decimal _ _) = true
finite _ = false

-- The values and keys below a value are reviewed: no text is too long or has a low character, no
-- float is infinite or no number, and nothing stands deeper than the bound.
mutual
  pub reviewed : ℕ → Value → Bool
  reviewed depth (text s) = leb depth max_wrapping_json_depth && valid_json_text s
  reviewed depth (float x) = leb depth max_wrapping_json_depth && finite x
  reviewed depth (array vs) = leb depth max_wrapping_json_depth && reviewed_items (suc depth) vs
  reviewed depth (object fs) = leb depth max_wrapping_json_depth && reviewed_fields (suc depth) fs
  reviewed depth _ = leb depth max_wrapping_json_depth

  reviewed_items : ℕ → Items → Bool
  reviewed_items depth nil = true
  reviewed_items depth (cons v rest) = reviewed depth v && reviewed_items depth rest

  reviewed_fields : ℕ → Fields → Bool
  reviewed_fields depth end = true
  reviewed_fields depth (field key v rest) =
      valid_json_text key && (reviewed depth v && reviewed_fields depth rest)

-- How many values stand below a value.
mutual
  pub members_below : Value → ℕ
  members_below (array vs) = count_items vs
  members_below (object fs) = count_fields fs
  members_below _ = 0

  count_items : Items → ℕ
  count_items nil = 0
  count_items (cons v rest) = suc (members_below v + count_items rest)

  count_fields : Fields → ℕ
  count_fields end = 0
  count_fields (field key v rest) = suc (members_below v + count_fields rest)

all_reviewed : ℕ → List Value → Bool
all_reviewed depth [] = true
all_reviewed depth (v ∷ rest) = reviewed depth v && all_reviewed depth rest

total_below : List Value → ℕ
total_below [] = 0
total_below (v ∷ rest) = members_below v + total_below rest

scalar_reviewed : Value → Bool
scalar_reviewed (text s) = valid_json_text s
scalar_reviewed (float x) = finite x
scalar_reviewed _ = true

-- What the children of a value, or an exception in their place, say of it.
abbrev Describes : ℕ → Value → Outcome (List Value) → Type 0
Describes depth item (raise e) = reviewed depth item ≡ false
Describes depth item (ok cs) =
    (reviewed depth item ≡ (
      leb depth max_wrapping_json_depth && (scalar_reviewed item && all_reviewed (suc depth) cs)))
    × (members_below item ≡ length cs + total_below cs)

items-reviewed : (depth : ℕ) (vs : Items) → reviewed_items depth vs ≡ all_reviewed depth (items vs)
unfolding reviewed_items all_reviewed items
items-reviewed depth nil = refl
items-reviewed depth (cons v rest) = simp (items-reviewed depth rest)

items-count : (vs : Items) → count_items vs ≡ length (items vs) + total_below (items vs)
unfolding count_items total_below items
items-count nil = omega arith
items-count (cons v rest) = omega (arith, items-count rest)

abbrev FieldsDescribe : ℕ → Fields → Outcome (List Value) → Type 0
FieldsDescribe depth fs (raise e) = reviewed_fields depth fs ≡ false
FieldsDescribe depth fs (ok cs) =
    (reviewed_fields depth fs ≡ all_reviewed depth cs)
    × (count_fields fs ≡ length cs + total_below cs)

fields-Describe : (depth : ℕ) (fs : Fields) → FieldsDescribe depth fs (field_children fs)
unfolding reviewed_fields count_fields validate_json_text all_reviewed total_below field_children
fields-Describe depth end = (refl, omega arith)
fields-Describe depth (field key v rest) =
    step (valid_json_text key) refl (field_children rest) (fields-Describe depth rest)
  where
    step :
        (keyed : Bool)
        → valid_json_text key ≡ keyed
        → (others : Outcome (List Value)) → FieldsDescribe depth rest others
        → FieldsDescribe depth (field key v rest) (
            guard keyed (
              capability_schema ("The wrapping data contains an invalid " <> ("object key" <> ".")))
            >> (others >>= λ cs. ok (v ∷ cs)))
    step false at others d = ground (arith, at)
    step true at (raise e) d = ground (arith, at, d)
    step true at (ok cs) (d, n) = (ground (arith, at, d), omega (arith, n))

children-Describes : (depth : ℕ) (item : Value) → Describes depth item (wrapping_children item)
unfolding reviewed members_below scalar_reviewed wrapping_children all_reviewed total_below
children-Describes depth (array vs) =
    (ground (arith, items-reviewed (suc depth) vs), items-count vs)
children-Describes depth (object fs) = go (field_children fs) (fields-Describe (suc depth) fs)
  where
    go :
        (r : Outcome (List Value)) → FieldsDescribe (suc depth) fs r → Describes depth (object fs) r
    go (raise e) d = ground (arith, d)
    go (ok cs) (d, n) = (ground (arith, d), n)
children-Describes depth _ = (ground arith, omega arith)

-- The pending values, each at its depth.
pending_reviewed : List (Value × ℕ) → Bool
pending_reviewed [] = true
pending_reviewed ((v, depth) ∷ rest) = reviewed depth v && pending_reviewed rest

pending_below : List (Value × ℕ) → ℕ
pending_below [] = 0
pending_below ((v, depth) ∷ rest) = members_below v + pending_below rest

extend-reviewed :
    (depth : ℕ) (cs : List Value) (pending : List (Value × ℕ))
    → pending_reviewed (extend depth cs pending)
      ≡ (all_reviewed (suc depth) cs && pending_reviewed pending)
unfolding extend pending_reviewed all_reviewed
extend-reviewed depth [] pending = ground arith
extend-reviewed depth (c ∷ rest) pending =
    ground (arith, extend-reviewed depth rest ((c, suc depth) ∷ pending))

extend-below :
    (depth : ℕ) (cs : List Value) (pending : List (Value × ℕ))
    → pending_below (extend depth cs pending) ≡ total_below cs + pending_below pending
unfolding extend pending_below total_below
extend-below depth [] pending = omega arith
extend-below depth (c ∷ rest) pending =
    omega (arith, extend-below depth rest ((c, suc depth) ∷ pending))

abbrev accepted : Run → Bool
accepted (done (ok _)) = true
accepted _ = false

-- The two bounds on what is pending, with the members counted so far.
abbrev within : ℕ → List (Value × ℕ) → Bool
within members pending =
    pending_reviewed pending && leb (members + pending_below pending) max_wrapping_json_members

scalar-accepted :
    (item : Value) (run : Run)
    → accepted (on_ok (validate_wrapping_scalar item) run) ≡ (scalar_reviewed item && accepted run)
unfolding validate_wrapping_scalar scalar_reviewed validate_json_text
scalar-accepted (text s) run = ground arith
scalar-accepted (float (decimal _ _)) run = ground arith
scalar-accepted (float nan) run = ground arith
scalar-accepted (float (infinite b)) run = ground arith
scalar-accepted _ run = ground arith

loop-within :
    (rounds members : ℕ) (pending : List (Value × ℕ))
    → members ≤ max_wrapping_json_members
    → length pending + (max_wrapping_json_members - members) ≤ rounds
    → accepted (loop rounds members pending) ≡ within members pending
unfolding loop pending_reviewed pending_below
loop-within zero members [] counted left = ground arith
loop-within zero members (p ∷ rest) counted left = absurd (omega arith)
loop-within (suc rounds) members [] counted left = ground arith
loop-within (suc rounds) members ((item, depth) ∷ pending) counted left =
    go (wrapping_children item) (children-Describes depth item) λ cs fits.
      loop-within rounds (members + length cs) (extend depth cs pending) fits
        (omega (arith, left, fits, length-extend depth cs pending))
  where
    go :
        (r : Outcome (List Value))
        → Describes depth item r
        → ((cs : List Value)
            → members + length cs ≤ max_wrapping_json_members
            → accepted (loop rounds (members + length cs) (extend depth cs pending))
              ≡ within (members + length cs) (extend depth cs pending))
        → accepted (
            if ltb max_wrapping_json_depth depth
            then done (raise (capability_schema "The wrapping data is nested too deeply."))
            else with_children r λ children.
              if ltb max_wrapping_json_members (members + length children)
              then done (raise (capability_schema "The wrapping data contains too many members."))
              else on_ok
                  (validate_wrapping_scalar item)
                  (loop rounds (members + length children) (extend depth children pending)))
          ≡ within members ((item, depth) ∷ pending)
    go (raise e) d ih = ground (arith, d)
    go (ok cs) (d, n) ih = ground (
      arith,
      d,
      n,
      ih cs,
      extend-reviewed depth cs pending,
      extend-below depth cs pending,
      scalar-accepted item (loop rounds (members + length cs) (extend depth cs pending)),
    )

within-root :
    (v : Value)
    → within 0 ((v, 0) ∷ []) ≡ (reviewed 0 v && leb (members_below v) max_wrapping_json_members)
unfolding pending_reviewed pending_below
within-root v = ground arith

-- A value may be wrapped exactly if it is an object, every text and key in it is at most 100000
-- characters without a low one, every float is finite, nothing stands deeper than 12, at most 2000
-- values stand below it, and it is encoded in at most 256000 bytes.
pub validate_wrapping_json_iff :
    (float_repr : Float → String) (value : Value)
    → (validate_wrapping_json float_repr value ≡ done (ok tt)) ↔ (
        ((fields : Fields) × (value ≡ object fields))
        × (reviewed 0 value ≡ true)
        × (members_below value ≤ max_wrapping_json_members)
        × (encoded_length float_repr value ≤ max_wrapping_json_bytes))
unfolding validate_wrapping_json measured
validate_wrapping_json_iff float_repr (object fields) =
    go (loop enough 0 ((object fields, 0) ∷ []))
      (loop-within enough 0 ((object fields, 0) ∷ []) (omega arith) (omega arith))
  where
    go :
        (run : Run)
        → accepted run ≡ within 0 ((object fields, 0) ∷ [])
        → (measured float_repr (object fields) run ≡ done (ok tt)) ↔ (
            ((fs : Fields) × (object fields ≡ object fs))
            × (reviewed 0 (object fields) ≡ true)
            × (members_below (object fields) ≤ max_wrapping_json_members)
            × (encoded_length float_repr (object fields) ≤ max_wrapping_json_bytes))
    go (done (ok _)) h = (
      λ e. (
        (fields, refl),
        ground (arith, h, within-root (object fields)),
        ground (arith, h, within-root (object fields)),
        ground (arith, e),
      ),
      λ (_, _, _, small). ground (arith, small),
    )
    go (done (raise e)) h = (
      λ e. cc,
      λ (_, good, few, _). absurd (ground (arith, h, good, few, within-root (object fields))),
    )
    go out_of_rounds h = (
      λ e. cc,
      λ (_, good, few, _). absurd (ground (arith, h, good, few, within-root (object fields))),
    )
validate_wrapping_json_iff float_repr _ = (λ e. cc, λ ((_, same), _, _, _). cc)
