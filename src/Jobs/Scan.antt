-- ===== src/Jobs/Scan.antt =====
-- What a scan for expired credentials leaves.
use mathlib.Core.Path.{ap₂}
use netbox_openbao.Prelude.{
  ℕ, Bool, true, false, List, [], ◌∷◌, ◌≡◌, refl, ap, sym, subst, ◌∙◌, length, keep, update_where,
  leb, not, Bool-cases, inl, inr, arith, ◌&&◌, ◌==◌, if◌then◌else◌, map,
}
use netbox_openbao.Models.{
  Credential, Status, active, staged, rotating, expired, retired, compromised, Db,
}
use netbox_openbao.Jobs.{is_over, is_retired, until, past_window, mark_expired, expiry_scan}

-- The status after a scan, by whether the window has ended, and what a scan makes of one credential.
abbrev pub ended : Bool → Status → Status
ended over status = if over && not (is_retired status) then expired else status

abbrev pub scanned : ℕ → Credential → Credential
scanned now c = record c { status = ended (until (λ t. leb t now) c.valid_until) c.status }

ended-again : (over : Bool) (status : Status) → ended over (ended over status) ≡ ended over status
ended-again false status = refl
ended-again true active = refl
ended-again true staged = refl
ended-again true rotating = refl
ended-again true expired = refl
ended-again true retired = refl
ended-again true compromised = refl

marked-scanned :
    (now : ℕ) (c : Credential)
    → (if past_window now c then record c { status = expired } else c) ≡ scanned now c
unfolding past_window
marked-scanned now c = go (until (λ t. leb t now) c.valid_until) c.status refl
  where
    go :
        (over : Bool) (status : Status)
        → c.status ≡ status
        → (if over && not (is_over status) then record c { status = expired } else c)
          ≡ record c { status = ended over status }
    go false status at = ap (λ x. record c { status = x }) at
    go true active at = refl
    go true staged at = refl
    go true rotating at = refl
    go true expired at = ap (λ x. record c { status = x }) at
    go true retired at = ap (λ x. record c { status = x }) at
    go true compromised at = refl

update_where-scanned :
    (now : ℕ) (cs : List Credential)
    → update_where (past_window now) (λ c. record c { status = expired }) cs ≡ map (scanned now) cs
update_where-scanned now [] = refl
update_where-scanned now (c ∷ cs) =
    ap₂ (λ x xs. x ∷ xs) (marked-scanned now c) (update_where-scanned now cs)

update_where-none :
    {A : Type 0} (p : A → Bool) (f : A → A) (xs : List A)
    → (length (keep p xs) == 0) ≡ true
    → update_where p f xs ≡ xs
update_where-none p f [] h = refl
update_where-none p f (x ∷ xs) h = elim (Bool-cases (p x)) [
  | inl e ↦ absurd (some_kept e)
  | inr e ↦ rw e (ap (λ rest. x ∷ rest) (update_where-none p f xs (none_kept e)))
]
  where
    some_kept : p x ≡ true → ⊥
    some_kept e =
        let none_left : (length (x ∷ keep p xs) == 0) ≡ true =
          subst (λ b. (length (if b then x ∷ keep p xs else keep p xs) == 0) ≡ true) e h in
        ground arith

    none_kept : p x ≡ false → (length (keep p xs) == 0) ≡ true
    none_kept e = subst (λ b. (length (if b then x ∷ keep p xs else keep p xs) == 0) ≡ true) e h

expiry_scan-scanned :
    (now : ℕ) (days : List ℕ) (db : Db)
    → (expiry_scan now days db).1.credentials ≡ map (scanned now) db.credentials
unfolding expiry_scan mark_expired
expiry_scan-scanned now days db =
    elim (Bool-cases (length (keep (past_window now) db.credentials) == 0)) [
      | inl e ↦ rw e (
          sym (
            update_where-none (past_window now) (λ c. record c { status = expired }) db.credentials
              e)
          ∙ update_where-scanned now db.credentials)
      | inr e ↦ rw e (update_where-scanned now db.credentials)
    ]

scanned-again :
    (now : ℕ) (cs : List Credential)
    → map (scanned now) (map (scanned now) cs) ≡ map (scanned now) cs
scanned-again now [] = refl
scanned-again now (c ∷ cs) =
    ap₂ (λ x xs. x ∷ xs)
      (ap (λ x. record c { status = x })
        (ended-again (until (λ t. leb t now) c.valid_until) c.status))
      (scanned-again now cs)

-- A scan for expired credentials leaves every credential that is not retired and whose window has ended expired, every
-- other as it was, and a second scan at the same time changes none.
pub expiry_scan-exact :
    (now : ℕ) (days : List ℕ) (db : Db)
    → ((expiry_scan now days db).1.credentials ≡ map (scanned now) db.credentials)
      × ((expiry_scan now days (expiry_scan now days db).1).1.credentials
          ≡ (expiry_scan now days db).1.credentials)
expiry_scan-exact now days db = (
  once,
  expiry_scan-scanned now days (expiry_scan now days db).1
      ∙ ap (map (scanned now)) once
      ∙ scanned-again now db.credentials
      ∙ sym once,
)
  where
    once : (expiry_scan now days db).1.credentials ≡ map (scanned now) db.credentials
    once = expiry_scan-scanned now days db
