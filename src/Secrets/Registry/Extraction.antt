-- ===== src/Secrets/Registry/Extraction.antt =====
-- What `extract_metadata` of secrets/registry.py can put into a NetBox column.
use netbox_openbao.Prelude.{
  String, Bool, true, false, Option, none, some, List, [], ◌∷◌, ◌≡◌, ◌⊎◌, inl, inr, refl, keep, All,
  contains_text, Bool-cases, subst, sym,
}
use netbox_openbao.Exec.{Outcome, ok, raise}
use netbox_openbao.Json.{Payload}
use netbox_openbao.Secrets.Schema.{Schema}
use netbox_openbao.Secrets.Extractors.{Crypto, Metadata, Attribute}
use netbox_openbao.Secrets.Registry.{
  StoredTypes, extractable_fields, extract_metadata, extract_with, allow_extracted, run_extractor,
  get_schema,
}

abbrev pub IsExtractable : String × Attribute → Type 0
IsExtractable item = contains_text extractable_fields item.0 ≡ true

All-keep {ℓ} : {A : Type ℓ} (p : A → Bool) (xs : List A) → All (λ x. p x ≡ true) (keep p xs)
All-keep p [] = tt
All-keep p (x ∷ xs) = elim (Bool-cases (p x)) [
  | inl yes_p ↦ rw yes_p (yes_p, All-keep p xs)
  | inr no_p ↦ rw no_p (All-keep p xs)
]

allow_extracted-All :
    (run : Option (Outcome Metadata)) (m : Metadata)
    → allow_extracted run ≡ ok m
    → All IsExtractable m
unfolding allow_extracted
allow_extracted-All none m h = let e : [] ≡ m = cc in subst (All IsExtractable) e tt
allow_extracted-All (some (raise e)) m h = cc
allow_extracted-All (some (ok x)) m h =
    subst (All IsExtractable) (cc h) (All-keep (λ item. contains_text extractable_fields item.0) x)

-- Where the extraction returns, every attribute has a name of the allowlist, and with the setting
-- `store_public_material` off there is none.
pub extract_metadata_allowlist :
    (store_public : Bool) (crypto : Crypto) (stored : StoredTypes) (name : String) (p : Payload)
    (m : Metadata)
    → extract_metadata store_public crypto stored name p ≡ ok m
    → All IsExtractable m × ((store_public ≡ true) ⊎ (m ≡ []))
unfolding extract_metadata
extract_metadata_allowlist false crypto stored name p m h =
    let e : [] ≡ m = cc in (subst (All IsExtractable) e tt, inr (sym e))
extract_metadata_allowlist true crypto stored name p m h =
    (split (get_schema stored name) h, inl refl)
  where
    split : (found : Outcome Schema) → extract_with crypto found p ≡ ok m → All IsExtractable m
    split (raise e) h = cc
    split (ok schema) h = by_extractor schema.extractor h
      where
        by_extractor :
            (extractor : Option String)
            → (elim extractor [
              | none ↦ ok []
              | some name ↦ allow_extracted (run_extractor crypto name p)
            ])
              ≡ ok m
            → All IsExtractable m
        by_extractor none h = let e : [] ≡ m = cc in subst (All IsExtractable) e tt
        by_extractor (some n) h = allow_extracted-All (run_extractor crypto n p) m h
