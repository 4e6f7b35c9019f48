-- ===== src/Secrets/Registry/Accepts.antt =====
-- Which payloads `validate_payload` of secrets/registry.py accepts, without its control flow.
use netbox_openbao.Prelude.{
  String, Bool, true, none, List, [], ◌∷◌, ◌≡◌, ◌≢◌, ◌↔◌, ◌⊎◌, inl, inr, refl, subst, ap, arith,
  keep, not, Member, contains_text, Bool-cases,
}
use netbox_openbao.Exec.{Outcome, ok, raise}
use netbox_openbao.Json.{Value, Payload, Fields, end, field, object, entries}
use netbox_openbao.Secrets.Schema.{FieldSpec, VaultFields, Schema}
use netbox_openbao.Secrets.Registry.{
  JsonSchema, StoredTypes, keys, is_given, missing, unknown, violation, blanks_dropped,
  validate_items, validate_against, validate_payload, get_schema,
}

-- What it means for `cleaned` to be an acceptable payload of the schema.
pub record Accepts (jsonschema : JsonSchema) (schema : Schema) (cleaned : Payload) : Type 0 where
  pub required_given :
      (name : String) (spec : FieldSpec)
      → Member (name, spec) schema.vault_fields
      → spec.required ≡ true
      → is_given cleaned name ≡ true
  pub keys_declared :
      (schema.allow_arbitrary_keys ≡ true)
      ⊎ ((key : String)
          → Member key (keys cleaned)
          → contains_text (keys schema.vault_fields) key ≡ true)
  pub conforms : violation jsonschema schema.json_schema cleaned ≡ none
  pub not_empty : cleaned ≢ []

missing_sound :
    (fields : VaultFields) (cleaned : Payload)
    → missing fields cleaned ≡ []
    → (name : String) (spec : FieldSpec) → Member (name, spec) fields
    → spec.required ≡ true
    → is_given cleaned name ≡ true
unfolding missing
missing_sound [] cleaned h name spec m r = elim m [ ]
missing_sound ((n, s) ∷ rest) cleaned h name spec (Member.here e) r = ground arith
missing_sound ((n, s) ∷ rest) cleaned h name spec (Member.there m) r =
    missing_sound rest cleaned (ground arith) name spec m r

missing_complete :
    (fields : VaultFields) (cleaned : Payload)
    → ((name : String) (spec : FieldSpec)
        → Member (name, spec) fields
        → spec.required ≡ true
        → is_given cleaned name ≡ true)
    → missing fields cleaned ≡ []
unfolding missing
missing_complete [] cleaned h = refl
missing_complete ((n, s) ∷ rest) cleaned h = ground (
  arith,
  h n s (Member.here refl),
  missing_complete rest cleaned (λ name spec m. h name spec (Member.there m)),
)

keep_none_sound {ℓ} :
    {A : Type ℓ} (p : A → Bool) (xs : List A)
    → keep (λ x. not (p x)) xs ≡ []
    → (a : A) → Member a xs
    → p a ≡ true
keep_none_sound p [] h a m = elim m [ ]
keep_none_sound p (x ∷ xs) h a (Member.here e) = ground arith
keep_none_sound p (x ∷ xs) h a (Member.there m) = keep_none_sound p xs (ground arith) a m

keep_none_complete {ℓ} :
    {A : Type ℓ} (p : A → Bool) (xs : List A)
    → ((a : A) → Member a xs → p a ≡ true)
    → keep (λ x. not (p x)) xs ≡ []
keep_none_complete p [] h = refl
keep_none_complete p (x ∷ xs) h =
    ground (arith, h x (Member.here refl), keep_none_complete p xs (λ a m. h a (Member.there m)))

module _ (jsonschema : JsonSchema) (schema : Schema) (items : Payload) where
  checks_passed :
      {cleaned : Payload}
      → validate_items jsonschema schema items ≡ ok cleaned
      → (cleaned ≡ blanks_dropped items)
        × (missing schema.vault_fields cleaned ≡ [])
        × ((schema.allow_arbitrary_keys ≡ true) ⊎ (unknown schema.vault_fields cleaned ≡ []))
        × (violation jsonschema schema.json_schema cleaned ≡ none)
        × (cleaned ≢ [])
  unfolding validate_items
  checks_passed h = ground arith

  Accepts-of_ok :
      {cleaned : Payload}
      → validate_items jsonschema schema items ≡ ok cleaned
      → (cleaned ≡ blanks_dropped items) × Accepts jsonschema schema cleaned
  unfolding unknown
  Accepts-of_ok {cleaned} h =
      let (same, given, declared, conforms, full) = checks_passed h in
      (
        same,
        record {
          required_given = missing_sound schema.vault_fields cleaned given;
          keys_declared = elim declared [
            | inl free ↦ inl free
            | inr closed ↦
                inr
                  (keep_none_sound (contains_text (keys schema.vault_fields)) (keys cleaned) closed)
          ];
          conforms = conforms;
          not_empty = full;
        },
      )

  ok_of_checks :
      {cleaned : Payload}
      → cleaned ≡ blanks_dropped items
      → missing schema.vault_fields cleaned ≡ []
      → (schema.allow_arbitrary_keys ≡ true) ⊎ (unknown schema.vault_fields cleaned ≡ [])
      → violation jsonschema schema.json_schema cleaned ≡ none
      → cleaned ≢ []
      → validate_items jsonschema schema items ≡ ok cleaned
  unfolding validate_items
  ok_of_checks same given declared conforms full = ground arith

  pub validate_items_iff :
      (cleaned : Payload)
      → (validate_items jsonschema schema items ≡ ok cleaned)
        ↔ ((cleaned ≡ blanks_dropped items) × Accepts jsonschema schema cleaned)
  unfolding unknown
  validate_items_iff cleaned = (
    Accepts-of_ok,
    λ (same, a).
        ok_of_checks same (missing_complete schema.vault_fields cleaned a.required_given)
          (elim a.keys_declared [
            | inl free ↦ inl free
            | inr closed ↦ inr (
                keep_none_complete (contains_text (keys schema.vault_fields)) (keys cleaned) closed)
          ])
          a.conforms a.not_empty,
  )

-- A payload is accepted with a given result exactly if its type has a schema, it is an object, the
-- result is its fields without the blank ones, and the result is not empty, has every required
-- field, has no undeclared field unless the schema allows any, and conforms to the document of the
-- schema.
pub validate_payload_iff :
    (jsonschema : JsonSchema) (stored : StoredTypes) (name : String) (v : Value) (cleaned : Payload)
    → (validate_payload jsonschema stored name v ≡ ok cleaned) ↔ (
        (schema : Schema) × (fields : Fields) × (get_schema stored name ≡ ok schema)
        × (v ≡ object fields)
        × (cleaned ≡ blanks_dropped (entries fields))
        × Accepts jsonschema schema cleaned)
unfolding validate_payload
validate_payload_iff jsonschema stored name v cleaned = split (get_schema stored name) v
  where
    split :
        (found : Outcome Schema) (v : Value)
        → (validate_against jsonschema found v ≡ ok cleaned) ↔ (
            (schema : Schema) × (fields : Fields) × (found ≡ ok schema)
            × (v ≡ object fields)
            × (cleaned ≡ blanks_dropped (entries fields))
            × Accepts jsonschema schema cleaned)
    split (raise e) v = ((λ h. cc), λ p. cc (p.2))
    split (ok schema) (object fields) = (
      λ h.
          let (same, a) = (validate_items_iff jsonschema schema (entries fields) cleaned).0 h in
          (schema, fields, refl, refl, same, a),
      λ (schema', fields', found, shape, same, a).
          (validate_items_iff jsonschema schema (entries fields) cleaned).1 (
            subst (λ f. cleaned ≡ blanks_dropped (entries f)) (cc shape) same,
            subst (λ s. Accepts jsonschema s cleaned) (cc found) a,
          ),
    )
    split (ok schema) _ = ((λ h. cc), λ p. cc (p.3))

pub of_entries : Payload → Fields
of_entries [] = end
of_entries ((k, v) ∷ rest) = field k v (of_entries rest)

entries-of_entries : (p : Payload) → entries (of_entries p) ≡ p
unfolding entries of_entries
entries-of_entries [] = refl
entries-of_entries ((k, v) ∷ rest) = ap (λ r. (k, v) ∷ r) (entries-of_entries rest)

keep-keep {ℓ} : {A : Type ℓ} (p : A → Bool) (xs : List A) → keep p (keep p xs) ≡ keep p xs
keep-keep p [] = refl
keep-keep p (x ∷ xs) = elim (Bool-cases (p x)) [
  | inl yes_p ↦ rw (yes_p, yes_p, keep-keep p xs)
  | inr no_p ↦ rw no_p (keep-keep p xs)
]

-- A payload that was accepted is accepted again for the same type, and comes back unchanged.
pub validate_payload_again :
    (jsonschema : JsonSchema) (stored : StoredTypes) (name : String) (v : Value) (cleaned : Payload)
    → validate_payload jsonschema stored name v ≡ ok cleaned
    → validate_payload jsonschema stored name (object (of_entries cleaned)) ≡ ok cleaned
validate_payload_again jsonschema stored name v cleaned h =
    let (schema, fields, found, shape, same, a) =
      (validate_payload_iff jsonschema stored name v cleaned).0 h in
    (validate_payload_iff jsonschema stored name (object (of_entries cleaned)) cleaned).1
      (schema, of_entries cleaned, found, refl, rw (entries-of_entries cleaned, same, keep-keep), a)
