-- ===== src/Backends/OpenBao.antt =====
-- `OpenBaoBackend` of netbox_openbao/backends/openbao.py: the translation of what the client library
-- raises, what the code takes of its surroundings, and the material that it needs.
pub mod Login
pub mod Versions
pub mod Operations
pub mod Scrubbed
use Prim.Native.Char.{code}
use Prim.Native.Nat.{◌/◌}
use netbox_openbao.Prelude.{
  ℕ, suc, ◌*◌, ◌<>◌, String, Bool, true, false, Option, none, some, List, [], ◌∷◌, first, keep,
  contains_text, str_eq, print_number, not, ltb, is_nil, is_space, strip, ◌==◌, ◌&&◌, ◌||◌,
  if◌then◌else◌,
}
use netbox_openbao.Errors.{
  Exn, openbao, OpenBaoError, OpenBaoClass, failed, configuration, auth, not_found, conflict,
  unavailable, coded, worded, undecryptable, untranslated,
}
use netbox_openbao.Exec.{Exec, Outcome, ok, raise, pure, throw, lift, modify, require, ◌>>=◌, ◌>>◌}
use netbox_openbao.Json.{
  ℤ, pos, negsuc, Value, null, bool, int, text, array, object, Items, Fields, end, field, Payload,
  entries, truthy,
}
use netbox_openbao.Models.{Engine}
use netbox_openbao.Models.AuthMaterials.{
  Cipher, EngineAuthMaterial, configured, get_secret, remove_prefix,
}
use netbox_openbao.Secrets.Registry.{get}
use netbox_openbao.Backends.Session.{
  EngineStatus, healthy, sealed, standby, unreachable, unauthorized, Health, refresh_auth_material,
  identity_or_missing, cache_identity,
}

-- What the client library raises, with the texts that the code looks at.
pub data Vendor : Type 0 where
  forbidden unauthorized_request invalid_path vault_down vault_not_initialized : Vendor
  invalid_request : String → Vendor
  other : Option ℕ → Vendor

pub data Answer (A : Type 0) : Type 0 where
  answer : A → Answer A
  fails : Vendor → Answer A

-- `needle in text`
unfoldable pub occurs : String → String → Bool
unfolding remove_prefix
occurs needle String.[] = str_eq needle ""
occurs needle (String.◌∷◌ c s) = elim (remove_prefix needle (String.◌∷◌ c s)) [
  | none ↦ occurs needle s
  | some rest ↦ true
]

-- `text.split()`: the words that stand behind `word`, which is read already.
unfoldable pub words_from : String → String → List String
words_from word String.[] = if str_eq word "" then [] else word ∷ []
words_from word (String.◌∷◌ c s) =
    let ended = words_from "" s in
    let goes_on = words_from (word <> String.◌∷◌ c "") s in
    if is_space (code c) then (if str_eq word "" then ended else word ∷ ended) else goes_on

-- `str.lower`, and whether a 400 reports a failed check-and-set.
module _ (lower : String → String) where
  unfoldable pub is_conflict : String → Bool
  unfolding occurs words_from
  is_conflict message =
      occurs "check-and-set" (lower message) || contains_text (words_from "" (lower message)) "cas"

  -- `_translate`
  unfoldable pub translate : Vendor → OpenBaoError
  unfolding coded is_conflict
  translate forbidden = coded auth (some 403)
  translate unauthorized_request = coded auth (some 403)
  translate invalid_path = coded not_found (some 404)
  translate (invalid_request message) =
      if is_conflict message then coded conflict (some 409) else record {
        class = failed;
        message = "OpenBao rejected the request.";
        status_code = some 400;
      }
  translate vault_down = coded unavailable (some 503)
  translate vault_not_initialized = coded unavailable (some 503)
  translate (other status) = coded unavailable status

  unfoldable pub translated : {A : Type 0} → Answer A → Outcome A
  unfolding translate
  translated (answer a) = ok a
  translated (fails e) = raise (openbao (translate e))

-- A client of the library: its token, and the number and the certificate of its session.
pub record Session : Type 0 where
  pub serial : ℕ
  pub cert : Option (String × String)

pub record SessionKey : Type 0 where
  pub url : String
  pub tls_verify : Bool
  pub ca_cert_path : String
  pub identity : Option String

pub record Client : Type 0 where
  pub session : Session
  pub token : Option Value

-- The `hvac` library and the service behind it, by the calls that the code makes.
pub record Hvac (V : Type 0) : Type 0 where
  pub approle_login : Client → (role_id secret_id : String) → V → Answer Value × V
  pub kubernetes_login : Client → (role jwt : String) → V → Answer Value × V
  pub cert_login : Client → V → Answer Value × V
  pub read_secret_version :
      Client → (path : String) (version : Option ℕ) (mount : String) → V → Answer Value × V
  pub read_secret : Client → (path mount : String) → V → Answer Value × V
  pub create_or_update_v2 :
      Client
      → (path : String) (secret : Payload) (cas : Option ℕ) (mount : String) → V
      → Answer Value × V
  pub create_or_update_v1 :
      Client → (path : String) (secret : Payload) (mount : String) → V → Answer Value × V
  pub delete_secret_versions :
      Client → (path : String) (versions : List (Option ℕ)) (mount : String) → V → Answer Value × V
  pub delete_metadata_and_all_versions : Client → (path mount : String) → V → Answer Value × V
  pub delete_secret : Client → (path mount : String) → V → Answer Value × V
  pub read_secret_metadata : Client → (path mount : String) → V → Answer Value × V
  -- A dict, or the body of a response if that is JSON.
  pub read_health_status : Client → V → Answer (Option Value) × V
  pub update_metadata :
      Client → (path : String) (custom_metadata : Payload) (mount : String) → V → Answer Value × V

-- What the code takes of its surroundings: the cipher, `str.lower`, the files of the host, `int` and `str`.
pub record Host : Type 0 where
  pub cipher : Cipher
  pub secret_key : String
  pub lower : String → String
  pub file : String → Option String
  pub to_int : Value → Outcome ℤ
  pub shown : Value → String
  pub token_cache_ttl : ℕ

-- An entry of Django's cache, with the seconds that it was set for.
pub record Cached : Type 0 where
  pub cache_key : String
  pub token : Value
  pub ttl : ℕ

pub record State (V : Type 0) : Type 0 where
  pub service : V
  pub pool : List (SessionKey × Session)
  pub next_session : ℕ
  pub cache : List Cached
  pub table : List EngineAuthMaterial
  pub client : Option Client
  pub auth_material : Option EngineAuthMaterial

-- `max(int(lease * TOKEN_CACHE_LEASE_FRACTION), 1)`
unfoldable pub token_ttl : ℤ → ℕ
token_ttl (pos n) = let part = n * 4 / 5 in if ltb part 1 then 1 else part
token_ttl (negsuc n) = 1

abbrev pub default_ttl : Host → ℕ
default_ttl host = if host.token_cache_ttl == 0 then 3600 else host.token_cache_ttl

abbrev pub dict_or_empty : Value → Outcome Fields
unfolding truthy
dict_or_empty (object fields) = ok fields
dict_or_empty value = if truthy value then raise untranslated else ok end

abbrev pub entry_or_null : String → Fields → Value
entry_or_null name fields = elim (get name (entries fields)) [ none ↦ null | some v ↦ v ]

abbrev pub cached_token : String → List Cached → Option Value
cached_token key cache = elim (first (λ entry. str_eq entry.cache_key key) cache) [
  | none ↦ none
  | some entry ↦ some entry.token
]

abbrev pub same_session_key : SessionKey → SessionKey → Bool
same_session_key a b =
    str_eq a.url b.url
    && (a.tls_verify && b.tls_verify || not a.tls_verify && not b.tls_verify)
    && str_eq a.ca_cert_path b.ca_cert_path
    && (elim a.identity [
      | none ↦ elim b.identity [ none ↦ true | some _ ↦ false ]
      | some x ↦ elim b.identity [ none ↦ false | some y ↦ str_eq x y ]
    ])

module _ (host : Host) (engine : Engine) where
  -- `_cache_key`
  unfoldable pub cache_key : Option EngineAuthMaterial → String
  unfolding cache_identity
  cache_key none = "netbox_openbao:token:" <> (engine.slug <> ":missing")
  cache_key (some row) = "netbox_openbao:token:" <> cache_identity row

  -- `_required_material`
  unfoldable pub not_configured : String → Exn
  unfolding worded
  not_configured method = openbao (
      worded configuration (
        method
        <> (" authentication is not configured for engine "
            <> (engine.slug
                <> ". Configure it on OpenBao > Configuration > Settings or with `manage.py openbao_configure auth`."))))

  unfoldable pub readable : Outcome String → Outcome String
  unfolding worded
  readable (ok secret) = ok secret
  readable (raise undecryptable) =
      raise (
        openbao
          (worded configuration "Stored OpenBao authentication material cannot be decrypted."))
  readable (raise e) = raise e

  unfoldable pub required_material : String → String → Option EngineAuthMaterial → Outcome String
  unfolding not_configured readable
  required_material name method none = raise (not_configured method)
  required_material name method (some row) =
      if configured name row
      then readable (get_secret host.cipher host.secret_key name row)
      else raise (not_configured method)

  -- `_get_session`
  abbrev pub uses_certificate : Bool
  uses_certificate = str_eq engine.auth_method "cert"

  abbrev pub session_key : Option EngineAuthMaterial → SessionKey
  session_key material = record {
    url = engine.api_url;
    tls_verify = engine.tls_verify;
    ca_cert_path = engine.ca_cert_path;
    identity =
        if str_eq engine.auth_method "cert" then some (identity_or_missing material) else none;
  }
