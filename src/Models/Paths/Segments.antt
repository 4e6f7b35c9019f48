-- ===== src/Models/Paths/Segments.antt =====
-- Which prefixes are accepted, and what the segments of a derived path are.
use Prim.Native.Char.{code}
use text.Mathlib.TextLemmas.{nil-append, cons-append, append_assoc}
use netbox_openbao.Prelude.{
  ◌<>◌, String, true, false, List, [], ◌∷◌, ◌++◌, ◌≡◌, ◌↔◌, refl, ap, sym, ◌∙◌, arith, any,
  Bool-cases, inl, inr, str_eq, str_eq_iff, subst, is_nil,
}
use netbox_openbao.Errors.{invalid, bad_path_prefix}
use netbox_openbao.Exec.{ok, raise}
use netbox_openbao.Models.Paths.{
  slash, extend, segments, starts_with_slash, ends_with_slash, any_space, bad_segment, malformed,
  validate_path_prefix, path_for_prefix,
}

-- A prefix of proper segments without white space.
abbrev pub Proper : String → Type 0
Proper prefix = (any_space prefix ≡ false) × (any bad_segment (segments prefix) ≡ false)

starts-bad : (s : String) → starts_with_slash s ≡ true → any bad_segment (segments s) ≡ true
unfolding starts_with_slash segments
starts-bad String.[] h = cc
starts-bad (String.◌∷◌ c s) h = ground (arith, h)

abbrev others : List String → List String
others [] = []
others (s ∷ rest) = rest

others-bad : (l : List String) → any bad_segment (others l) ≡ true → any bad_segment l ≡ true
others-bad [] h = cc
others-bad (s ∷ rest) h = ground (arith, h)

others-extend : (c : Prim.Native.Char.Char) (l : List String) → others (extend c l) ≡ others l
others-extend c [] = refl
others-extend c (s ∷ rest) = refl

pub segments-cons : (s : String) → is_nil (segments s) ≡ false
unfolding segments
segments-cons String.[] = refl
segments-cons (String.◌∷◌ c s) = elim (Bool-cases (slash (code c))) [
  | inl yes' ↦ rw yes' refl
  | inr no' ↦ rw no' (extend-cons (segments s))
]
  where
    extend-cons : (l : List String) → is_nil (extend c l) ≡ false
    extend-cons [] = refl
    extend-cons (x ∷ rest) = refl

ends-bad : (s : String) → ends_with_slash s ≡ true → any bad_segment (others (segments s)) ≡ true
unfolding ends_with_slash segments
ends-bad String.[] h = cc
ends-bad (String.◌∷◌ c String.[]) h = ground (arith, h)
ends-bad (String.◌∷◌ c (String.◌∷◌ d s)) h =
    let before = ends-bad (String.◌∷◌ d s) h in
    elim (Bool-cases (slash (code c))) [
      | inl yes' ↦ rw yes' (others-bad (segments (String.◌∷◌ d s)) before)
      | inr no' ↦ rw (no', others-extend c (segments (String.◌∷◌ d s))) before
    ]

blank-bad : (s : String) → str_eq s "" ≡ true → any bad_segment (segments s) ≡ true
unfolding segments
blank-bad s h = subst (λ z. any bad_segment (segments z) ≡ true) (sym ((str_eq_iff s "").0 h)) refl

Proper-accepted : (prefix : String) → Proper prefix → malformed prefix ≡ false
unfolding malformed
Proper-accepted prefix (spaceless, good) = ground (
  arith,
  spaceless,
  good,
  blank-bad prefix,
  starts-bad prefix,
  ends-bad prefix,
  others-bad (segments prefix),
)

accepted-Proper : (prefix : String) → malformed prefix ≡ false → Proper prefix
unfolding malformed
accepted-Proper prefix h = ground (arith, h)

-- A path prefix is accepted exactly if it has no white space and none of its segments is empty or
-- a dot or two dots.
pub validate_path_prefix_iff :
    (prefix : String) → (validate_path_prefix prefix ≡ ok tt) ↔ Proper prefix
unfolding validate_path_prefix
validate_path_prefix_iff prefix = (
  (λ h. accepted-Proper prefix (ground (arith, h))),
  (λ proper. simp (Proper-accepted prefix proper)),
)

extend-append :
    (c : Prim.Native.Char.Char) (a : String) (l : List String)
    → extend c (segments a ++ l) ≡ extend c (segments a) ++ l
extend-append c a l = go (segments a) (segments-cons a)
  where
    go : (k : List String) → is_nil k ≡ false → extend c (k ++ l) ≡ extend c k ++ l
    go [] h = cc
    go (s ∷ rest) h = refl

pub segments-join : (a b : String) → segments (a <> ("/" <> b)) ≡ segments a ++ segments b
unfolding segments
segments-join String.[] b = rw (nil-append ("/" <> b), cons-append "/" "" b, nil-append b) refl
segments-join (String.◌∷◌ c a) b = elim (Bool-cases (slash (code c))) [
  | inl yes' ↦ rw (cons-append c a ("/" <> b), yes') (ap (λ l. "" ∷ l) (segments-join a b))
  | inr no' ↦
      rw (cons-append c a ("/" <> b), no')
        (ap (extend c) (segments-join a b) ∙ extend-append c a (segments b))
]

-- Where a path is derived from a prefix, the prefix has no white space and only proper segments,
-- and the segments of the path are those of the prefix, `credentials`, and those of the identifier.
pub path_for_prefix-segments :
    (prefix uuid path : String)
    → path_for_prefix prefix uuid ≡ ok path
    → Proper prefix × (segments path ≡ segments prefix ++ ("credentials" ∷ segments uuid))
unfolding path_for_prefix segments
path_for_prefix-segments prefix uuid path h = elim (Bool-cases (malformed prefix)) [
  | inl refused ↦ cc (refused-raises refused, h)
  | inr fine ↦ (accepted-Proper prefix fine, joined fine)
]
  where
    refused-raises :
        malformed prefix ≡ true → path_for_prefix prefix uuid ≡ raise (invalid bad_path_prefix)
    refused-raises e = simp e

    apart : "/credentials/" <> uuid ≡ "/" <> ("credentials" <> ("/" <> uuid))
    apart =
        append_assoc "/" "credentials/" uuid
        ∙ ap (λ t. "/" <> t) (append_assoc "credentials" "/" uuid)

    at :
        malformed prefix ≡ false
        → path_for_prefix prefix uuid ≡ ok (prefix <> ("/credentials/" <> uuid))
    at e = simp e

    plain : segments "credentials" ≡ "credentials" ∷ []
    plain = refl

    inner : segments ("credentials" <> ("/" <> uuid)) ≡ "credentials" ∷ segments uuid
    inner = segments-join "credentials" uuid ∙ ap (λ l. l ++ segments uuid) plain

    joined :
        malformed prefix ≡ false
        → segments path ≡ segments prefix ++ ("credentials" ∷ segments uuid)
    joined e =
        let same : path ≡ prefix <> ("/" <> ("credentials" <> ("/" <> uuid))) =
          cc (h, at e, apart) in
        ap segments same
        ∙ segments-join prefix ("credentials" <> ("/" <> uuid))
        ∙ ap (λ l. segments prefix ++ l) inner
