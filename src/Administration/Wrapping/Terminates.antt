-- ===== src/Administration/Wrapping/Terminates.antt =====
-- The worklist never runs out of its rounds.
use netbox_openbao.Prelude.{
  ℕ, zero, suc, ◌+◌, ◌-◌, ◌≤◌, Bool, true, false, List, [], ◌∷◌, ◌≡◌, refl, arith, length, ltb,
  if◌then◌else◌,
}
use netbox_openbao.Exec.{Outcome, ok, raise}
use netbox_openbao.Json.{Value, object, Float}
use netbox_openbao.Prelude.{String}
use netbox_openbao.Administration.Wrapping.{
  Run, done, out_of_rounds, on_ok, with_children, extend, loop, enough, wrapping_children,
  validate_wrapping_scalar, max_wrapping_json_members, max_wrapping_json_depth, measured,
  validate_wrapping_json,
}

pub length-extend :
    (depth : ℕ) (children : List Value) (pending : List (Value × ℕ))
    → length (extend depth children pending) ≡ length children + length pending
unfolding extend
length-extend depth [] pending = omega arith
length-extend depth (c ∷ rest) pending =
    omega (arith, length-extend depth rest ((c, suc depth) ∷ pending))

-- A run that came to an end.
abbrev pub Ends : Run → Type 0
Ends (done r) = Unit
Ends out_of_rounds = ⊥

Ends-unless :
    (t : Bool) (r : Outcome (Unit {0})) (run : Run)
    → (t ≡ false → Ends run)
    → Ends (if t then done r else run)
Ends-unless true r run h = tt
Ends-unless false r run h = h refl

Ends-with_children :
    (r : Outcome (List Value)) (go : List Value → Run)
    → ((children : List Value) → Ends (go children))
    → Ends (with_children r go)
Ends-with_children (ok children) go h = h children
Ends-with_children (raise e) go h = tt

Ends-on_ok : (r : Outcome (Unit {0})) (run : Run) → Ends run → Ends (on_ok r run)
Ends-on_ok (ok u) run h = h
Ends-on_ok (raise e) run h = tt

loop-Ends :
    (rounds members : ℕ) (pending : List (Value × ℕ))
    → members ≤ max_wrapping_json_members
    → length pending + (max_wrapping_json_members - members) ≤ rounds
    → Ends (loop rounds members pending)
unfolding loop
loop-Ends zero members [] counted left = tt
loop-Ends zero members (p ∷ rest) counted left = absurd (omega arith)
loop-Ends (suc rounds) members [] counted left = tt
loop-Ends (suc rounds) members ((item, depth) ∷ pending) counted left =
    Ends-unless (ltb max_wrapping_json_depth depth) _ _ λ _.
      Ends-with_children (wrapping_children item) _ λ children.
        Ends-unless (ltb max_wrapping_json_members (members + length children)) _ _ λ few.
          let fits : members + length children ≤ max_wrapping_json_members = ground (arith, few) in
          Ends-on_ok (validate_wrapping_scalar item) _ (
            loop-Ends rounds (members + length children) (extend depth children pending) fits
              (omega (arith, left, fits, length-extend depth children pending)))

-- Whatever value is to be wrapped, its check comes to an end within 2001 rounds of its loop.
pub validate_wrapping_json-Ends :
    (float_repr : Float → String) (value : Value) → Ends (validate_wrapping_json float_repr value)
unfolding validate_wrapping_json measured
validate_wrapping_json-Ends float_repr (object fields) =
    go (loop enough 0 ((object fields, 0) ∷ []))
      (loop-Ends enough 0 ((object fields, 0) ∷ []) (omega arith) (omega arith))
  where
    go : (run : Run) → Ends run → Ends (measured float_repr (object fields) run)
    go (done (ok _)) h = tt
    go (done (raise e)) h = tt
    go out_of_rounds h = h
validate_wrapping_json-Ends float_repr _ = tt
