-- ===== src/Models/AuthMaterials/Resealed.antt =====
-- What the re-encryption of an identity keeps.
use Prim.Native.Char.{code}
use text.Mathlib.TextLemmas.{nil-append, cons-append}
use netbox_openbao.Prelude.{
  ==_refl, ◌<>◌, String, Bool, true, false, some, List, [], ◌∷◌, ◌≡◌, refl, sym, subst, ap, ◌∙◌,
  not, All, contains_text, str_eq, str_eq_iff, Bool-cases, inl, inr, map, if◌then◌else◌,
}
use netbox_openbao.Errors.{undecryptable}
use netbox_openbao.Exec.{ok}
use netbox_openbao.Exec.Outcomes.{◌>>=◌, guard}
use netbox_openbao.Models.AuthMaterials.{
  Cipher, EngineAuthMaterial, auth_material_fields, encrypt, decrypt, decrypt_token, opened,
  remove_prefix, ciphertext_prefix, fernet, get_secret, assign, set_secret, configured,
  opened_value, opened_values, set_secrets, resealed,
}

abbrev pub Opens : Cipher → Type 0
Opens cipher =
    (secret_key plain : String)
    → cipher.open_token secret_key (cipher.seal secret_key plain) ≡ some plain

pub remove_prefix-append : (p s : String) → remove_prefix p (p <> s) ≡ some s
unfolding remove_prefix
remove_prefix-append String.[] s = rw (nil-append s) refl
remove_prefix-append (String.◌∷◌ c p) s =
    rw (cons-append c p s) (rw (==_refl (code c)) (remove_prefix-append p s))

sealed-full : (token : String) → str_eq (ciphertext_prefix <> token) "" ≡ false
unfolding remove_prefix
sealed-full token = elim (Bool-cases (str_eq (ciphertext_prefix <> token) "")) [
  | inl empty ↦
      let gone : remove_prefix ciphertext_prefix "" ≡ some token =
        subst (λ x. remove_prefix ciphertext_prefix x ≡ some token)
          ((str_eq_iff (ciphertext_prefix <> token) "").0 empty)
          (remove_prefix-append ciphertext_prefix token) in
      cc
  | inr full ↦ full
]

abbrev keys : List (String × String) → List String
keys values = map (λ x. x.0) values

module _ (cipher : Cipher) (opens : Opens cipher) (old_key secret_key : String)
    (set_up : str_eq secret_key "" ≡ false) where
  fernet-ok : fernet secret_key ≡ ok tt
  fernet-ok = ap (λ b. guard (not b) undecryptable) set_up

  encrypt-sealed :
      (value : String)
      → str_eq value "" ≡ false
      → encrypt cipher secret_key value ≡ ok (ciphertext_prefix <> cipher.seal secret_key value)
  unfolding encrypt
  encrypt-sealed value full = rw full (rw set_up refl)

  decrypt-sealed :
      (value : String)
      → decrypt cipher secret_key (ciphertext_prefix <> cipher.seal secret_key value) ≡ ok value
  unfolding decrypt decrypt_token opened
  decrypt-sealed value = rw (sealed-full (cipher.seal secret_key value)) (
      rw (remove_prefix-append ciphertext_prefix (cipher.seal secret_key value))
        (rw set_up (rw (opens secret_key value) refl)))

  -- A sealed value opens to what was sealed.
  decrypt-encrypt :
      (value : String)
      → (token : String) × (encrypt cipher secret_key value ≡ ok token)
        × (decrypt cipher secret_key token ≡ ok value)
  unfolding encrypt decrypt
  decrypt-encrypt value = elim (Bool-cases (str_eq value "")) [
    | inl empty ↦ ("", rw empty refl, ap (λ x. ok x) (sym ((str_eq_iff value "").0 empty)))
    | inr full ↦ (
      ciphertext_prefix <> cipher.seal secret_key value,
      encrypt-sealed value full,
      decrypt-sealed value,
    )
  ]

  module _ (row : EngineAuthMaterial) (f : String → String)
      (readable : (name : String)
        → contains_text auth_material_fields name ≡ true
        → get_secret cipher old_key name row ≡ ok (f name)) where
    Kept : EngineAuthMaterial → String → Type 0
    Kept s name = decrypt cipher secret_key (s.ciphertexts name) ≡ ok (f name)

    abbrev Known : String × String → Type 0
    Known (name, value) = (contains_text auth_material_fields name ≡ true) × (value ≡ f name)

    set_secret-known :
        (name value token : String) (s : EngineAuthMaterial)
        → contains_text auth_material_fields name ≡ true
        → encrypt cipher secret_key value ≡ ok token
        → set_secret cipher secret_key name value s ≡ ok (assign name token s)
    unfolding set_secret
    set_secret-known name value token s is_known sealed = rw is_known (rw sealed refl)

    assign-same :
        (name token : String) (s : EngineAuthMaterial)
        → decrypt cipher secret_key token ≡ ok (f name)
        → Kept (assign name token s) name
    unfolding assign Kept
    assign-same name token s good = rw ((str_eq_iff name name).1 refl) good

    assign-Kept :
        (name token other : String) (s : EngineAuthMaterial)
        → decrypt cipher secret_key token ≡ ok (f name)
        → Kept s other
        → Kept (assign name token s) other
    unfolding assign Kept
    assign-Kept name token other s good kept = elim (Bool-cases (str_eq other name)) [
      | inl same ↦ rw same (good ∙ ap (λ x. ok (f x)) (sym ((str_eq_iff other name).0 same)))
      | inr different ↦ rw different kept
    ]

    set_secrets-Kept :
        (values : List (String × String)) (s : EngineAuthMaterial)
        → All Known values
        → (t : EngineAuthMaterial) × (set_secrets cipher secret_key values s ≡ ok t)
          × ((name : String) → Kept s name → Kept t name)
          × ((name : String) → contains_text (keys values) name ≡ true → Kept t name)
    unfolding set_secrets
    set_secrets-Kept [] s all = (s, refl, λ name kept. kept, λ name absent. absurd (cc absent))
    set_secrets-Kept ((name, value) ∷ rest) s ((is_known, at), all) =
        let (token, sealed, opens_to) = decrypt-encrypt value in
        let good : decrypt cipher secret_key token ≡ ok (f name) = opens_to ∙ ap (λ x. ok x) at in
        let (t, done, keeps, sets) = set_secrets-Kept rest (assign name token s) all in
        (
          t,
          ap (λ r. r >>= set_secrets cipher secret_key rest)
                (set_secret-known name value token s is_known sealed)
              ∙ done,
          λ other kept. keeps other (assign-Kept name token other s good kept),
          λ other listed. elim (Bool-cases (str_eq name other)) [
            | inl same ↦
                subst (Kept t) ((str_eq_iff name other).0 same)
                  (keeps name (assign-same name token s good))
            | inr different ↦ sets other (cc (different, listed))
          ],
        )

    opened_value-ok :
        (name : String) (b : Bool) (values : List (String × String))
        → contains_text auth_material_fields name ≡ true
        → opened_value cipher old_key name row b (ok values)
          ≡ ok (if b then (name, f name) ∷ values else values)
    unfolding opened_value
    opened_value-ok name false values is_known = refl
    opened_value-ok name true values is_known = rw (readable name is_known) refl

    abbrev Covers : List String → List (String × String) → Type 0
    Covers names values =
        (name : String)
        → contains_text names name ≡ true
        → configured name row ≡ true
        → contains_text (keys values) name ≡ true

    nothing-Covers : Covers [] []
    nothing-Covers name absent set = absurd (cc absent)

    Covers-cons :
        (name : String) (names : List String) (b : Bool) (values : List (String × String))
        → configured name row ≡ b
        → Covers names values
        → Covers (name ∷ names) (if b then (name, f name) ∷ values else values)
    Covers-cons name names true values at covers other listed set =
        elim (Bool-cases (str_eq name other)) [
          | inl same ↦ rw same refl
          | inr different ↦ rw different (covers other (cc (different, listed)) set)
        ]
    Covers-cons name names false values at covers other listed set =
        elim (Bool-cases (str_eq name other)) [
          | inl same ↦
              let unset : configured other row ≡ false =
                subst (λ x. configured x row ≡ false) ((str_eq_iff name other).0 same) at in
              absurd (cc (unset, set))
          | inr different ↦ covers other (cc (different, listed)) set
        ]

    Known-cons :
        (name : String) (b : Bool) (values : List (String × String))
        → contains_text auth_material_fields name ≡ true
        → All Known values
        → All Known (if b then (name, f name) ∷ values else values)
    Known-cons name true values is_known all = ((is_known, refl), all)
    Known-cons name false values is_known all = all

    opened_values-Known :
        (names : List String)
        → All (λ name. contains_text auth_material_fields name ≡ true) names
        → (values : List (String × String)) × (opened_values cipher old_key names row ≡ ok values)
          × All Known values
          × Covers names values
    unfolding opened_values
    opened_values-Known [] all = ([], refl, tt, nothing-Covers)
    opened_values-Known (name ∷ names) (is_known, all) =
        let (values, done, good, covers) = opened_values-Known names all in
        (
          (if configured name row then (name, f name) ∷ values else values),
          ap (opened_value cipher old_key name row (configured name row)) done
              ∙ opened_value-ok name (configured name row) values is_known,
          Known-cons name (configured name row) values is_known good,
          Covers-cons name names (configured name row) values refl covers,
        )

    fields-known : All (λ name. contains_text auth_material_fields name ≡ true) auth_material_fields
    fields-known = (refl, (refl, (refl, (refl, (refl, (refl, (refl, tt)))))))

    unset-Kept :
        (name : String)
        → contains_text auth_material_fields name ≡ true
        → configured name row ≡ false
        → Kept row name
    unfolding Kept decrypt get_secret
    unset-Kept name is_known unset =
        let before : get_secret cipher old_key name row ≡ ok "" = rw is_known (rw blank refl) in
        rw blank (cc (before, readable name is_known))
      where
        blank : str_eq (row.ciphertexts name) "" ≡ true
        blank = elim (Bool-cases (str_eq (row.ciphertexts name) "")) [
          | inl b ↦ b
          | inr b ↦ absurd (cc (b, unset))
        ]

    known-get :
        (name : String) (t : EngineAuthMaterial)
        → contains_text auth_material_fields name ≡ true
        → Kept t name
        → get_secret cipher secret_key name t ≡ ok (f name)
    unfolding get_secret Kept
    known-get name t is_known kept = rw is_known kept

    -- When every column opens under the old key, the re-encryption returns a row of which every column
    -- opens under the new key, to the same secret.
    pub resealed-get_secret :
        (t : EngineAuthMaterial) × (resealed cipher old_key secret_key row ≡ ok t)
        × ((name : String)
            → contains_text auth_material_fields name ≡ true
            → get_secret cipher secret_key name t ≡ ok (f name))
    unfolding resealed
    resealed-get_secret =
        let (values, opened_at, good, covers) =
          opened_values-Known auth_material_fields fields-known in
        let (t, done, keeps, sets) = set_secrets-Kept values row good in
        (
          t,
          ap (λ r. r >>= λ v. set_secrets cipher secret_key v row) opened_at ∙ done,
          λ name is_known. known-get name t is_known (elim (Bool-cases (configured name row)) [
            | inl set ↦ sets name (covers name is_known set)
            | inr unset ↦ keeps name (unset-Kept name is_known unset)
          ]),
        )
