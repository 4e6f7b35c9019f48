-- ===== src/Administration/Redaction.antt =====
-- The metadata view of a response, in netbox_openbao/administration/access.py: a bounded copy in
-- which no field with the name of a secret is left, at any depth.
pub mod Complete
use netbox_openbao.Prelude.{
  ℕ, zero, suc, String, Bool, true, false, List, [], ◌∷◌, not, ◌&&◌, ◌||◌, ltb, leb, length,
  contains_text, if◌then◌else◌,
}
use Prim.Native.Char.{code}
use netbox_openbao.Errors.{Exn, capability_schema}
use netbox_openbao.Exec.{Outcome, ok, raise}
use netbox_openbao.Exec.Outcomes.{◌>>=◌, ◌>>◌, guard}
use netbox_openbao.Json.{
  Float, nan, infinite, decimal, Value, null, bool, int, float, text, array, object, Items, nil,
  cons, Fields, end, field, entries,
}
use netbox_openbao.Administration.Values.{text_length}
use netbox_openbao.Administration.Cluster.{items}
use netbox_openbao.Administration.Wrapping.{has_low}

-- `MATERIAL_KEYS` of authentication.py
abbrev pub material_keys : List String
material_keys =
    "access_token" ∷ "api_token" ∷ "barcode" ∷ "bindpass" ∷ "client_token" ∷ "client_tls_key"
    ∷ "code" ∷ "id_token" ∷ "jwt" ∷ "oidc_client_secret" ∷ "password" ∷ "password_hash"
    ∷ "private_key" ∷ "refresh_token" ∷ "secret" ∷ "secret_id" ∷ "secret_key"
    ∷ "settings_file_base64" ∷ "token" ∷ "token_reviewer_jwt" ∷ []

abbrev pub access_material_keys : List String
access_material_keys = "client_secret" ∷ "key_shares" ∷ material_keys

-- `_invalid_access_response`
abbrev pub invalid_response : Exn
invalid_response = capability_schema "OpenBao returned an invalid access-control response."

-- `"\x00" in text`
unfoldable pub has_null : String → Bool
has_null String.[] = false
has_null (String.◌∷◌ c s) = netbox_openbao.Prelude.◌==◌ (code c) 0 || has_null s

unfoldable pub valid_key : String → Bool
unfolding text_length has_low
valid_key key = leb (text_length key) 500 && not (has_low key)

-- `str.lower` is an argument; `material` is that of the caller.
module _ (lower : String → String) (material : Bool) where
  unfoldable pub shown : String → Bool
  shown key = material || not (contains_text access_material_keys (lower key))

  -- `_normalize_response_value` and `_normalize_response_dict`
  unfoldable mutual
    unfolding shown valid_key text_length has_null items entries

    pub normalize_value : ℕ → Value → Outcome Value
    normalize_value depth (object fields) = do
      guard (leb depth 10) invalid_response
      guard (leb (length (entries fields)) 1000) invalid_response
      kept ← normalize_fields depth fields
      ok (object kept)
    normalize_value depth (array vs) = do
      guard (leb depth 10) invalid_response
      guard (leb (length (items vs)) 1000) invalid_response
      kept ← normalize_items depth vs
      ok (array kept)
    normalize_value depth (text s) = do
      guard (leb depth 10) invalid_response
      guard (leb (text_length s) 256000 && not (has_null s)) invalid_response
      ok (text s)
    normalize_value depth (float nan) = raise invalid_response
    normalize_value depth (float (infinite _)) = raise invalid_response
    normalize_value depth v = guard (leb depth 10) invalid_response >> ok v

    pub normalize_fields : ℕ → Fields → Outcome Fields
    normalize_fields depth end = ok end
    normalize_fields depth (field key child rest) = do
      guard (valid_key key) invalid_response
      let here = normalize_value (suc depth) child
      let after = normalize_fields depth rest
      if shown key then (here >>= λ v. after >>= λ others. ok (field key v others)) else after

    pub normalize_items : ℕ → Items → Outcome Items
    normalize_items depth nil = ok nil
    normalize_items depth (cons v rest) = do
      w ← normalize_value (suc depth) v
      others ← normalize_items depth rest
      ok (cons w others)

  -- `normalize_access_response`
  unfoldable pub normalize_access_response : Value → Outcome Value
  unfolding normalize_value entries
  normalize_access_response (object fields) = do
    guard (leb (length (entries fields)) 1000) invalid_response
    kept ← normalize_fields 0 fields
    ok (object kept)
  normalize_access_response _ = raise invalid_response
