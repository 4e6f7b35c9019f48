-- ===== src/Backends/OpenBao/Versions.antt =====
-- The answer of `list_versions` of netbox_openbao/backends/openbao.py.
use netbox_openbao.Prelude.{ltb, String, Bool, true, false, List, [], ◌∷◌, if◌then◌else◌}
use netbox_openbao.Errors.{untranslated}
use netbox_openbao.Exec.{Outcome, ok, raise}
use netbox_openbao.Exec.Outcomes.{◌>>=◌}
use netbox_openbao.Json.{ℤ, pos, negsuc, Value, null, text, object, Fields, end, field, truthy}
use netbox_openbao.Backends.OpenBao.{Host, dict_or_empty, entry_or_null}

-- `response.get('data') or {}`, which stands behind the `try`.
unfoldable pub data_or_empty : Value → Outcome Value
unfolding truthy
data_or_empty (object fields) =
    let envelope = entry_or_null "data" fields in
    ok (if truthy envelope then envelope else object end)
data_or_empty _ = raise untranslated

-- An entry of `list_versions`.
pub record VersionEntry : Type 0 where
  pub version : ℤ
  pub created_time : Value
  pub deletion_time : Value
  pub destroyed : Bool

-- `a < b`
unfoldable pub below : ℤ → ℤ → Bool
below (pos a) (pos b) = ltb a b
below (pos a) (negsuc b) = false
below (negsuc a) (pos b) = true
below (negsuc a) (negsuc b) = ltb b a

-- `versions.sort(key=..., reverse=True)`, which keeps the order of equal ones.
unfoldable pub insert_newest : VersionEntry → List VersionEntry → List VersionEntry
unfolding below
insert_newest v [] = v ∷ []
insert_newest v (w ∷ rest) =
    let others = insert_newest v rest in
    if below v.version w.version then w ∷ others else v ∷ w ∷ rest

unfoldable pub newest_first : List VersionEntry → List VersionEntry
unfolding insert_newest
newest_first [] = []
newest_first (v ∷ rest) = insert_newest v (newest_first rest)

-- `meta.get('deletion_time') or None`
abbrev pub or_none : Value → Value
or_none value = if truthy value then value else null

unfoldable pub version_entry : Host → String → Value → Outcome VersionEntry
version_entry host number (object meta) = host.to_int (text number) >>= λ version. ok (record {
  version = version;
  created_time = entry_or_null "created_time" meta;
  deletion_time = or_none (entry_or_null "deletion_time" meta);
  destroyed = truthy (entry_or_null "destroyed" meta);
})
version_entry host number _ = host.to_int (text number) >>= λ version. raise untranslated

unfoldable pub version_entries : Host → Fields → Outcome (List VersionEntry)
unfolding version_entry
version_entries host end = ok []
version_entries host (field number meta rest) =
    version_entry host number meta >>= λ v. version_entries host rest >>= λ others. ok (v ∷ others)

-- What stands behind the `try` of `list_versions`.
unfoldable pub listed : Host → Value → Outcome (List VersionEntry)
unfolding version_entries newest_first dict_or_empty
listed host response = data_or_empty response >>= λ envelope. versions_of envelope >>= λ versions.
    dict_or_empty versions >>= λ fields.
    version_entries host fields >>= λ found. ok (newest_first found)
  where
    versions_of : Value → Outcome Value
    versions_of (object fields) = ok (entry_or_null "versions" fields)
    versions_of _ = raise untranslated
