-- ===== src/Automation/Admitted.antt =====
-- What an admitted execution may read.
use netbox_openbao.Prelude.{
  if◌then◌else◌, All, subst, ℕ, ◌≤◌, ◌<◌, String, Bool, true, false, Option, none, some, List, [],
  ◌∷◌, ◌≡◌, ◌≢◌, ◌⊎◌, inl, inr, refl, arith, ◌∙◌, sym, ap, map, ◌&&◌, ◌||◌,
}
use netbox_openbao.Errors.{Exn, automation_denied}
use netbox_openbao.Exec.{Outcome, ok, raise}
use netbox_openbao.Models.{Credential, Policy, User, Status, active, staged}
use netbox_openbao.Secrets.Schema.{FieldSpec, VaultFields, Schema}
use netbox_openbao.Secrets.Registry.{get}
use netbox_openbao.Services.Access.Gate.{Permitted, gate_sound}
use netbox_openbao.Services.Access.{exempt, gate_open}
use netbox_openbao.Services.Reveal.{is_blank_text}
use netbox_openbao.Automation.{
  Reference, valid_status, too_early, too_late, outside_groups, check_credential,
  automation_version, automation_fields, select_fields, with_version, with_fields, admit, other_pin,
}

-- A live version that is not the staged one, and that a pinned reference names.
pub record Served (c : Credential) (reference : Reference) (version : ℕ) : Type 0 where
  pub live : c.live_kv_version ≡ some version
  pub unstaged : c.staged_kv_version ≢ some version
  pub pin : (reference.pinned ≡ none) ⊎ (reference.pinned ≡ some version)

pin-cases :
    (pinned : Option ℕ) (version : ℕ)
    → other_pin pinned version ≡ false
    → (pinned ≡ none) ⊎ (pinned ≡ some version)
pin-cases none version h = inl refl
pin-cases (some n) version h = inr (ground (arith, h))

version-Served :
    (c : Credential) (reference : Reference) (version : ℕ)
    → automation_version c reference ≡ ok version
    → Served c reference version
unfolding automation_version
version-Served c reference version h = record {
  live = ground (arith, h);
  unstaged = λ e. ground (arith, h, e);
  pin = pin-cases reference.pinned version (ground (arith, h));
}

-- The validity window of the credential holds at that time.
abbrev pub Begun : ℕ → Option ℕ → Type 0
Begun now from = (from ≡ none) ⊎ ((t : ℕ) × (from ≡ some t) × (t ≤ now))

abbrev pub Unexpired : ℕ → Option ℕ → Type 0
Unexpired now until = (until ≡ none) ⊎ ((t : ℕ) × (until ≡ some t) × (now < t))

begun : (now : ℕ) (from : Option ℕ) → too_early now from ≡ false → Begun now from
begun now none h = inl refl
begun now (some t) h = inr (t, refl, ground (arith, h))

unexpired : (now : ℕ) (until : Option ℕ) → too_late now until ≡ false → Unexpired now until
unexpired now none h = inl refl
unexpired now (some t) h = inr (t, refl, ground (arith, h))

-- What the checks of the credential let pass.
pub record Usable (now : ℕ) (c : Credential) (policy : Policy) (actor : User) : Type 0 where
  pub status : (c.status ≡ active) ⊎ (c.status ≡ staged)
  pub begins : Begun now c.valid_from
  pub ends : Unexpired now c.valid_until
  pub permitted : Permitted policy (some actor)

status-cases : (s : Status) → valid_status s ≡ true → (s ≡ active) ⊎ (s ≡ staged)
status-cases active h = inl refl
status-cases staged h = inr refl
status-cases _ h = cc

gate-open :
    (policy : Policy) (actor : User)
    → outside_groups policy actor ≡ false
    → (exempt (some actor) || gate_open policy (some actor)) ≡ true
unfolding gate_open
gate-open policy actor h = ground (arith, h)

check_credential-Usable :
    (visible : Bool) (now : ℕ) (c : Credential) (policy : Policy) (actor : User) (u : Unit)
    → check_credential visible now c policy actor ≡ ok u
    → (visible ≡ true) × Usable now c policy actor
unfolding check_credential
check_credential-Usable visible now c policy actor u h = (
  ground (arith, h),
  record {
    status = status-cases c.status (ground (arith, h));
    begins = begun now c.valid_from (ground (arith, h));
    ends = unexpired now c.valid_until (ground (arith, h));
    permitted = gate_sound policy (some actor) (gate-open policy actor (ground (arith, h)));
  },
)

-- The fields that a reference names, each with its declaration.
abbrev pub Declared : VaultFields → List String → VaultFields → Type 0
Declared declared names specs =
    (map (λ item. item.0) specs ≡ names) × All (λ item. get item.0 declared ≡ some item.1) specs

select_fields-Declared :
    (names : List String) (declared specs : VaultFields)
    → select_fields names declared ≡ some specs
    → Declared declared names specs
unfolding select_fields
select_fields-Declared [] declared specs h =
    let same : [] ≡ specs = cc h in subst (Declared declared []) same (refl, tt)
select_fields-Declared (name ∷ rest) declared specs h =
    go (get name declared) refl (select_fields rest declared) refl
      (select_fields-Declared rest declared)
  where
    absent : get name declared ≡ none → select_fields (name ∷ rest) declared ≡ none
    absent at = cc at

    cut :
        (spec : FieldSpec)
        → get name declared ≡ some spec
        → select_fields rest declared ≡ none
        → select_fields (name ∷ rest) declared ≡ none
    cut spec at after = cc (at, after)

    whole :
        (spec : FieldSpec) (tail : VaultFields)
        → get name declared ≡ some spec
        → select_fields rest declared ≡ some tail
        → select_fields (name ∷ rest) declared ≡ some ((name, spec) ∷ tail)
    whole spec tail at after = cc (at, after)

    go :
        (found : Option FieldSpec)
        → get name declared ≡ found
        → (others : Option VaultFields) → select_fields rest declared ≡ others
        → ((tail : VaultFields)
            → select_fields rest declared ≡ some tail
            → Declared declared rest tail)
        → Declared declared (name ∷ rest) specs
    go none at others after later = cc (absent at, h)
    go (some spec) at none after later = cc (cut spec at after, h)
    go (some spec) at (some tail) after later =
        let same : (name, spec) ∷ tail ≡ specs = cc (whole spec tail at after, h) in
        let (names, kept) = later tail after in
        subst (Declared declared (name ∷ rest)) same (ap (λ l. name ∷ l) names, (at, kept))

fields-Declared :
    (schema : Schema) (reference : Reference) (specs : VaultFields)
    → automation_fields schema reference ≡ ok specs
    → Declared schema.vault_fields reference.fields specs
unfolding automation_fields
fields-Declared schema reference specs h =
    go (select_fields reference.fields schema.vault_fields) refl
  where
    denied :
        select_fields reference.fields schema.vault_fields ≡ none
        → automation_fields schema reference ≡ raise automation_denied
    denied at = ground (arith, at)

    go :
        (o : Option VaultFields)
        → select_fields reference.fields schema.vault_fields ≡ o
        → Declared schema.vault_fields reference.fields specs
    go none at = cc (denied at, h)
    go (some tail) at =
        let same : tail ≡ specs = ground (arith, at, h) in
        subst (Declared schema.vault_fields reference.fields) same
          (select_fields-Declared reference.fields schema.vault_fields tail at)

with_version-ok :
    (r : Outcome ℕ) (fields : Outcome VaultFields) (version : ℕ) (specs : VaultFields)
    → with_version r fields ≡ ok (version, specs)
    → (r ≡ ok version) × (fields ≡ ok specs)
unfolding with_version with_fields
with_version-ok (raise e) fields version specs h = cc
with_version-ok (ok v) (raise e) version specs h = cc
with_version-ok (ok v) (ok l) version specs h = ground (arith, h)

-- An execution that is admitted may read: NetBox shows the credential to its actor for a reveal; the
-- credential is active or staged, within its window, and under a policy that permits the actor and
-- was given a reason if it wants one; the version is the live one, is not the staged one, and is
-- the one that a pinned reference names; and the fields are those that the reference names, each
-- with its declaration in the schema.
pub admit-ok :
    (visible : Bool) (now : ℕ) (c : Credential) (policy : Policy) (schema : Schema) (actor : User)
    (reference : Reference) (reason : String) (version : ℕ) (specs : VaultFields)
    → admit visible now c policy schema actor reference reason ≡ ok (version, specs)
    → (visible ≡ true)
      × Usable now c policy actor
      × ((policy.require_reason && is_blank_text reason) ≡ false)
      × Served c reference version
      × Declared schema.vault_fields reference.fields specs
unfolding admit
admit-ok visible now c policy schema actor reference reason version specs h =
    go (check_credential visible now c policy actor) refl
  where
    rest : Outcome (ℕ × VaultFields)
    rest = with_version (automation_version c reference) (automation_fields schema reference)

    refused :
        (e : Exn)
        → check_credential visible now c policy actor ≡ raise e
        → admit visible now c policy schema actor reference reason ≡ raise e
    refused e at = cc at

    passed :
        (u : Unit)
        → check_credential visible now c policy actor ≡ ok u
        → admit visible now c policy schema actor reference reason ≡ (
            if policy.require_reason && is_blank_text reason then raise automation_denied else rest)
    passed u at = cc at

    inner :
        (b : Bool)
        → (policy.require_reason && is_blank_text reason) ≡ b
        → (if b then raise automation_denied else rest) ≡ ok (version, specs)
        → ((policy.require_reason && is_blank_text reason) ≡ false)
          × Served c reference version
          × Declared schema.vault_fields reference.fields specs
    inner true at end = cc
    inner false at end =
        let (v, f) =
          with_version-ok (automation_version c reference) (automation_fields schema reference)
            version specs end in
        (at, version-Served c reference version v, fields-Declared schema reference specs f)

    go :
        (r : Outcome (Unit {0}))
        → check_credential visible now c policy actor ≡ r
        → (visible ≡ true)
          × Usable now c policy actor
          × ((policy.require_reason && is_blank_text reason) ≡ false)
          × Served c reference version
          × Declared schema.vault_fields reference.fields specs
    go (raise e) at = cc (refused e at, h)
    go (ok u) at =
        let (seen, usable) = check_credential-Usable visible now c policy actor u at in
        let (given, served, declared) =
          inner (policy.require_reason && is_blank_text reason) refl (sym (passed u at) ∙ h) in
        (seen, usable, given, served, declared)
