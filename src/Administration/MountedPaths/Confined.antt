-- ===== src/Administration/MountedPaths/Confined.antt =====
-- A request to a mounted engine stays below its mount.
use Prim.Native.Char.{code}
use package.text.Mathlib.TextLemmas.{nil-append, cons-append}
use package.text.Mathlib.TextEquality.{Char-path}
use netbox_openbao.Prelude.{
  ℕ, zero, suc, ◌<>◌, String, Bool, true, false, List, [], ◌∷◌, ◌++◌, ◌≡◌, refl, ap, sym, ◌∙◌,
  subst, arith, all, map, join, str_eq, strip, not, ◌&&◌, ◌||◌, ◌==◌, leb, Bool-cases, inl, inr,
  and-true, is_nil,
}
use netbox_openbao.Exec.{ok}
use netbox_openbao.Exec.Outcomes.{Ensures, ensured, Ensures->>=, Ensures-guard, Ensures-chain}
use netbox_openbao.Json.{Value, text}
use netbox_openbao.Models.Paths.{segments, extend, starts_with_slash, ends_with_slash, slash}
use netbox_openbao.Models.Paths.Segments.{segments-join, segments-cons}
use netbox_openbao.Administration.Values.{text_length}
use netbox_openbao.Administration.MountedPaths.{
  alphanumeric, mount_char, resource_char, run_of, full_match, bare_mount, bad_mount,
  normalize_mount_path, double_slash, dots, resource_segment, normalize_resource_path, quote,
  mount_safe, resource_safe, compile_mounted_path,
}

-- Characters that `quote` leaves as they are.
run-quote :
    (p safe : ℕ → Bool) (n : ℕ) (s : String)
    → ((c : ℕ) → p c ≡ true → (mount_char c || c == 126 || safe c) ≡ true)
    → run_of p n s ≡ true
    → quote safe s ≡ s
unfolding run_of quote
run-quote p safe n String.[] kept h = refl
run-quote p safe zero (String.◌∷◌ c s) kept h = cc
run-quote p safe (suc n) (String.◌∷◌ c s) kept h =
    let (here, after) = and-true (p (code c)) (run_of p n s) h in
    rw (kept (code c) here, run-quote p safe n s kept after) refl

match-quote :
    (p safe : ℕ → Bool) (n : ℕ) (s : String)
    → ((c : ℕ) → p c ≡ true → (mount_char c || c == 126 || safe c) ≡ true)
    → full_match p n s ≡ true
    → quote safe s ≡ s
unfolding full_match quote
match-quote p safe n String.[] kept h = refl
match-quote p safe n (String.◌∷◌ c s) kept h =
    let (here, after) = and-true (alphanumeric (code c)) (run_of p n s) h in
    let plain : (mount_char (code c) || code c == 126 || safe (code c)) ≡ true =
      ground (arith, here) in
    rw (plain, run-quote p safe n s kept after) refl

-- `'/'.join(text.split('/'))` is the text.
extend-join :
    (c : Prim.Native.Char.Char) (a : String) (rest : List String)
    → join "/" (extend c (a ∷ rest)) ≡ String.◌∷◌ c (join "/" (a ∷ rest))
unfolding join
extend-join c a [] = refl
extend-join c a (b ∷ rest) = cons-append c a ("/" <> join "/" (b ∷ rest))

join-segments : (s : String) → join "/" (segments s) ≡ s
unfolding segments join
join-segments String.[] = refl
join-segments (String.◌∷◌ c s) = elim (Bool-cases (slash (code c))) [
  | inl split ↦
      rw split (parted (segments s) (segments-cons s) (join-segments s) (ground (arith, split)))
  | inr inside ↦ rw inside (whole (segments s) (segments-cons s) (join-segments s))
]
  where
    parted :
        (l : List String)
        → is_nil l ≡ false
        → join "/" l ≡ s
        → code c ≡ code "/"
        → join "/" ("" ∷ l) ≡ String.◌∷◌ c s
    parted [] nonempty same at = cc
    parted (a ∷ rest) nonempty same at =
        nil-append ("/" <> join "/" (a ∷ rest))
        ∙ cons-append "/" "" (join "/" (a ∷ rest))
        ∙ ap (λ t. String.◌∷◌ "/" t) (nil-append (join "/" (a ∷ rest)) ∙ same)
        ∙ ap (λ d. String.◌∷◌ d s) (sym (Char-path c "/" at))

    whole :
        (l : List String)
        → is_nil l ≡ false
        → join "/" l ≡ s
        → join "/" (extend c l) ≡ String.◌∷◌ c s
    whole [] nonempty same = cc
    whole (a ∷ rest) nonempty same = extend-join c a rest ∙ ap (String.◌∷◌ c) same

-- A text without a slash is one segment.
run-segments :
    (p : ℕ → Bool) (n : ℕ) (s : String)
    → ((c : ℕ) → p c ≡ true → slash c ≡ false)
    → run_of p n s ≡ true
    → segments s ≡ s ∷ []
unfolding run_of segments
run-segments p n String.[] free h = refl
run-segments p zero (String.◌∷◌ c s) free h = cc
run-segments p (suc n) (String.◌∷◌ c s) free h =
    let (here, after) = and-true (p (code c)) (run_of p n s) h in
    rw (free (code c) here, run-segments p n s free after) refl

match-segments :
    (p : ℕ → Bool) (n : ℕ) (s : String)
    → ((c : ℕ) → p c ≡ true → slash c ≡ false)
    → full_match p n s ≡ true
    → segments s ≡ s ∷ []
unfolding full_match segments
match-segments p n String.[] free h = refl
match-segments p n (String.◌∷◌ c s) free h =
    let (here, after) = and-true (alphanumeric (code c)) (run_of p n s) h in
    let plain : slash (code c) ≡ false = ground (arith, here) in
    rw (plain, run-segments p n s free after) refl

-- What the checks of the two parts of a path ensure.
normalize_mount_path-match :
    (v : Value) → Ensures (λ mount. full_match mount_char 127 mount ≡ true) (normalize_mount_path v)
unfolding normalize_mount_path
normalize_mount_path-match (text s) =
    Ensures-guard _ (full_match mount_char 127 (bare_mount s)) bad_mount (ok (bare_mount s)) λ h. h
normalize_mount_path-match _ = tt

normalize_resource_path-segments :
    (v : Value)
    → Ensures
        (λ resource. (v ≡ text resource) × (all resource_segment (segments resource) ≡ true))
        (normalize_resource_path v)
unfolding normalize_resource_path
normalize_resource_path-segments (text s) =
    Ensures-guard _ (not (str_eq s "") && leb (text_length s) 1024) _ _ λ _.
      Ensures-guard _
        (str_eq s (strip s)
          && not (starts_with_slash s)
          && not (ends_with_slash s)
          && not (double_slash s))
        _ _
        λ _. Ensures-guard _ (all resource_segment (segments s)) _ _ λ h.
          subst (λ r. (text s ≡ text r) × (all resource_segment (segments r) ≡ true))
            (sym (join-segments s)) (refl, h)
normalize_resource_path-segments _ = tt

quote-all :
    (parts : List String)
    → all resource_segment parts ≡ true
    → map (quote resource_safe) parts ≡ parts
unfolding resource_segment
quote-all [] h = refl
quote-all (s ∷ rest) h =
    let (here, after) = and-true (resource_segment s) (all resource_segment rest) h in
    let (matched, _) = and-true (full_match resource_char 199 s) (not (dots s)) here in
    rw
      (
        match-quote resource_char resource_safe 199 s (λ c k. ground (arith, k)) matched,
        quote-all rest after,
      )
      refl

abbrev Below : Value → Value → String → Type 0
Below mount_path resource_path path =
    (mount : String) × (resource : String) × (normalize_mount_path mount_path ≡ ok mount)
    × (resource_path ≡ text resource)
    × (full_match mount_char 127 mount ≡ true)
    × (all resource_segment (segments resource) ≡ true)
    × (segments path ≡ "" ∷ mount ∷ segments resource)

rooted : (s : String) → segments ("/" <> s) ≡ "" ∷ segments s
unfolding segments
rooted s = rw (cons-append "/" "" s, nil-append s) refl

compiled-segments :
    (mount resource : String)
    → full_match mount_char 127 mount ≡ true
    → all resource_segment (segments resource) ≡ true
    → segments (
        "/"
        <> (quote mount_safe mount
            <> ("/" <> join "/" (map (quote resource_safe) (segments resource)))))
      ≡ "" ∷ mount ∷ segments resource
compiled-segments mount resource m r =
    rw
      (
        match-quote mount_char mount_safe 127 mount (λ c k. ground (arith, k)) m,
        quote-all (segments resource) r,
        join-segments resource,
      )
      (rooted (mount <> ("/" <> resource))
        ∙ ap (λ l. "" ∷ l)
            (segments-join mount resource
              ∙ ap (λ l. l ++ segments resource)
                  (match-segments mount_char 127 mount (λ c k. ground (arith, k)) m)))

compile-Below :
    (mount_path resource_path : Value)
    → Ensures (Below mount_path resource_path) (compile_mounted_path mount_path resource_path)
unfolding compile_mounted_path
compile-Below mount_path resource_path =
    Ensures->>= _ (normalize_mount_path mount_path) _ λ mount at.
      Ensures-chain _
        (λ resource.
          (resource_path ≡ text resource) × (all resource_segment (segments resource) ≡ true))
        (normalize_resource_path resource_path) _ (normalize_resource_path-segments resource_path)
        λ resource (same, matched).
          let m =
            ensured (λ x. full_match mount_char 127 x ≡ true) (normalize_mount_path mount_path)
              (normalize_mount_path-match mount_path) at in
          (mount, resource, at, same, m, matched, compiled-segments mount resource m matched)

-- Where a path is compiled: the resource that was asked for is a text whose segments each begin with
-- a letter or a digit, are neither a dot nor two dots, and have at most 200 characters of a safe
-- class; and the segments of the path are an empty one, the mount, of at most 128 characters of its
-- class, and exactly those segments, so that no resource leaves its mount.
pub compile_mounted_path-segments :
    (mount_path resource_path : Value) (path : String)
    → compile_mounted_path mount_path resource_path ≡ ok path
    → (mount : String) × (resource : String) × (normalize_mount_path mount_path ≡ ok mount)
      × (resource_path ≡ text resource)
      × (full_match mount_char 127 mount ≡ true)
      × (all resource_segment (segments resource) ≡ true)
      × (segments path ≡ "" ∷ mount ∷ segments resource)
compile_mounted_path-segments mount_path resource_path path h =
    ensured (Below mount_path resource_path) (compile_mounted_path mount_path resource_path)
      (compile-Below mount_path resource_path) h
