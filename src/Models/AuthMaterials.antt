-- ===== src/Models/AuthMaterials.antt =====
-- The encrypted service identities of netbox_openbao/models/auth.py: the sealing of a secret, the
-- columns of a row, its re-encryption and its save.
pub mod Resealed
pub mod Merges
use Prim.Native.Char.{code}
use netbox_openbao.Prelude.{
  ℕ, suc, ◌+◌, ◌<>◌, String, Bool, true, false, Option, none, some, List, [], ◌∷◌, ◌≡◌, refl, not,
  first, any, is_some, opt_eq, ◌&&◌, ◌||◌, update_where, contains_text, str_eq, print_number, ◌==◌,
  if◌then◌else◌,
}
use netbox_openbao.Errors.{Exn, value_error, undecryptable, does_not_exist, integrity_error}
use netbox_openbao.Exec.{Outcome, ok, raise}
use netbox_openbao.Exec.Outcomes.{◌>>=◌, ◌>>◌, guard}

-- `AUTH_MATERIAL_FIELDS`
abbrev pub auth_material_fields : List String
auth_material_fields =
    "role_id" ∷ "secret_id" ∷ "token" ∷ "k8s_role" ∷ "k8s_jwt_path" ∷ "client_cert" ∷ "client_key"
    ∷ []

-- Fernet under the key that HKDF derives from a secret key: sealing, and opening, which may refuse.
pub record Cipher : Type 0 where
  pub seal : (secret_key plain : String) → String
  pub open_token : (secret_key token : String) → Option String

-- A row, with the columns `<name>_ciphertext` as a function of the name.
pub record EngineAuthMaterial : Type 0 where
  pub pk : ℕ
  pub engine_id : Option ℕ
  pub policy_id : Option ℕ
  pub cluster_id : Option ℕ
  pub revision : ℕ
  pub ciphertexts : String → String

-- `value[len(prefix):]` of a text that starts with the prefix.
unfoldable pub remove_prefix : String → String → Option String
remove_prefix String.[] s = some s
remove_prefix (String.◌∷◌ p prefix) String.[] = none
remove_prefix (String.◌∷◌ p prefix) (String.◌∷◌ c s) =
    let rest = remove_prefix prefix s in if code p == code c then rest else none

abbrev pub ciphertext_prefix : String
ciphertext_prefix = "v1:"

unfoldable pub opened : Option String → Outcome String
opened none = raise undecryptable
opened (some plain) = ok plain

-- `_fernet`, which refuses an empty secret key.
abbrev pub fernet : String → Outcome (Unit {0})
fernet secret_key = guard (not (str_eq secret_key "")) undecryptable

abbrev pub known : String → Outcome (Unit {0})
known name =
    guard (contains_text auth_material_fields name)
      (value_error "Unknown OpenBao auth material field.")

-- `setattr`
unfoldable pub assign : String → String → EngineAuthMaterial → EngineAuthMaterial
assign name ciphertext row = record row {
  ciphertexts = λ other. if str_eq other name then ciphertext else row.ciphertexts other;
}

abbrev pub configured : String → EngineAuthMaterial → Bool
configured name row = not (str_eq (row.ciphertexts name) "")

unfoldable pub is_configured : String → EngineAuthMaterial → Outcome Bool
is_configured name row = known name >> ok (configured name row)

module _ (cipher : Cipher) where
  unfoldable pub encrypt : String → String → Outcome String
  encrypt secret_key value =
      if str_eq value ""
      then ok ""
      else fernet secret_key >> ok (ciphertext_prefix <> cipher.seal secret_key value)

  unfoldable pub decrypt_token : String → Option String → Outcome String
  unfolding opened
  decrypt_token secret_key none = raise undecryptable
  decrypt_token secret_key (some token) =
      fernet secret_key >> opened (cipher.open_token secret_key token)

  unfoldable pub decrypt : String → String → Outcome String
  unfolding remove_prefix decrypt_token
  decrypt secret_key value =
      if str_eq value ""
      then ok ""
      else decrypt_token secret_key (remove_prefix ciphertext_prefix value)

  unfoldable pub get_secret : String → String → EngineAuthMaterial → Outcome String
  unfolding decrypt
  get_secret secret_key name row = known name >> decrypt secret_key (row.ciphertexts name)

  unfoldable pub set_secret :
      String → String → String → EngineAuthMaterial → Outcome EngineAuthMaterial
  unfolding encrypt assign
  set_secret secret_key name value row = do
    known name
    ciphertext ← encrypt secret_key value
    ok (assign name ciphertext row)

  unfoldable pub clear_secret : String → String → EngineAuthMaterial → Outcome EngineAuthMaterial
  unfolding set_secret
  clear_secret secret_key name row = set_secret secret_key name "" row

  -- The comprehension of `reencrypt`: the secrets of the columns that are set.
  unfoldable pub opened_value :
      String
      → String
      → EngineAuthMaterial
      → Bool
      → Outcome (List (String × String))
      → Outcome (List (String × String))
  unfolding get_secret
  opened_value old_key name row false rest = rest
  opened_value old_key name row true rest = do
    value ← get_secret old_key name row
    others ← rest
    ok ((name, value) ∷ others)

  unfoldable pub opened_values :
      String → List String → EngineAuthMaterial → Outcome (List (String × String))
  unfolding opened_value
  opened_values old_key [] row = ok []
  opened_values old_key (name ∷ names) row =
      opened_value old_key name row (configured name row) (opened_values old_key names row)

  -- Its loop.
  unfoldable pub set_secrets :
      String → List (String × String) → EngineAuthMaterial → Outcome EngineAuthMaterial
  unfolding set_secret
  set_secrets secret_key [] row = ok row
  set_secrets secret_key ((name, value) ∷ rest) row = do
    changed ← set_secret secret_key name value row
    set_secrets secret_key rest changed

  -- What stands before the save in `reencrypt`.
  unfoldable pub resealed : String → String → EngineAuthMaterial → Outcome EngineAuthMaterial
  unfolding opened_values set_secrets
  resealed old_key secret_key row = do
    values ← opened_values old_key auth_material_fields row
    set_secrets secret_key values row

-- An object that stands for a row: its columns, and those that were loaded.
pub record Instance : Type 0 where
  pub row : EngineAuthMaterial
  pub loaded : EngineAuthMaterial

-- A column of the locked row, or the object's if the object changed it.
abbrev pub merged_id : Option ℕ → Option ℕ → Option ℕ → Option ℕ
merged_id value loaded locked = if opt_eq value loaded then locked else value

abbrev pub merged_text : String → String → String → String
merged_text value loaded locked = if str_eq value loaded then locked else value

-- The row that a save writes: the submitted columns over the locked row, and the next revision.
unfoldable pub merged : Instance → EngineAuthMaterial → EngineAuthMaterial
merged i locked = record {
  pk = locked.pk;
  engine_id = merged_id i.row.engine_id i.loaded.engine_id locked.engine_id;
  policy_id = merged_id i.row.policy_id i.loaded.policy_id locked.policy_id;
  cluster_id = merged_id i.row.cluster_id i.loaded.cluster_id locked.cluster_id;
  revision = suc locked.revision;
  ciphertexts = λ name.
      merged_text (i.row.ciphertexts name) (i.loaded.ciphertexts name) (locked.ciphertexts name);
}

-- The constraint `netbox_openbao_auth_material_one_owner`.
unfoldable pub one_owner : EngineAuthMaterial → Bool
one_owner row =
    (is_some row.engine_id && not (is_some row.policy_id) && not (is_some row.cluster_id))
    || (not (is_some row.engine_id) && is_some row.policy_id && not (is_some row.cluster_id))
    || (not (is_some row.engine_id) && not (is_some row.policy_id) && is_some row.cluster_id)

-- The three `OneToOneField`s: a null is equal to none.
abbrev pub same_id : Option ℕ → Option ℕ → Bool
same_id a b = is_some a && opt_eq a b

unfoldable pub owned_by_another : EngineAuthMaterial → List EngineAuthMaterial → Bool
owned_by_another row table =
    any
      (λ other.
        not (other.pk == row.pk)
        && (same_id other.engine_id row.engine_id
            || same_id other.policy_id row.policy_id
            || same_id other.cluster_id row.cluster_id))
      table

-- `save` of an object that is not new, with no `update_fields`: the object and the table behind it.
unfoldable pub written :
    EngineAuthMaterial → List EngineAuthMaterial → Outcome (Instance × List EngineAuthMaterial)
unfolding one_owner owned_by_another
written row table =
    guard (one_owner row && not (owned_by_another row table)) integrity_error
    >> ok (
      record { row = row; loaded = row },
      update_where (λ other. other.pk == row.pk) (λ _. row) table,
    )

unfoldable pub save_over :
    Instance
    → List EngineAuthMaterial
    → Option EngineAuthMaterial
    → Outcome (Instance × List EngineAuthMaterial)
unfolding merged written
save_over i table none = raise does_not_exist
save_over i table (some locked) = written (merged i locked) table

unfoldable pub save :
    Instance → List EngineAuthMaterial → Outcome (Instance × List EngineAuthMaterial)
unfolding save_over
save i table = save_over i table (first (λ other. other.pk == i.row.pk) table)

unfoldable pub reencrypt :
    Cipher
    → String
    → String
    → Instance
    → List EngineAuthMaterial
    → Outcome (Instance × List EngineAuthMaterial)
unfolding resealed save
reencrypt cipher old_key secret_key i table = do
  row ← resealed cipher old_key secret_key i.row
  save (record { row = row; loaded = i.loaded }) table
