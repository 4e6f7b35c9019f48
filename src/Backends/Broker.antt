-- ===== src/Backends/Broker.antt =====
-- `BrokerBackend` of netbox_openbao/backends/broker.py: what it takes from a response, and its pool of
-- sessions.
pub mod Operations
pub mod Scrubbed
pub mod Verified
use netbox_openbao.Prelude.{
  ℕ, suc, ◌<>◌, String, Bool, true, false, Option, none, some, List, [], ◌∷◌, first, keep, str_eq,
  print_number, not, leb, is_nil, strip_end, ◌==◌, ◌&&◌, ◌||◌, if◌then◌else◌,
}
use netbox_openbao.Errors.{
  Exn, openbao, OpenBaoError, OpenBaoClass, failed, configuration, auth, not_found, conflict,
  unavailable, coded, worded, untranslated,
}
use netbox_openbao.Exec.{Exec, Outcome, ok, raise, pure, throw, lift, require, ◌>>=◌, ◌>>◌}
use netbox_openbao.Json.{
  Value, null, int, pos, text, array, object, Items, Fields, end, field, Payload, entries, truthy,
}
use netbox_openbao.Models.{Engine}
use netbox_openbao.Models.Paths.{slash}
use netbox_openbao.Models.AuthMaterials.{Cipher, EngineAuthMaterial, configured, get_secret}
use netbox_openbao.Secrets.Registry.{get}
use netbox_openbao.Backends.Session.{
  EngineStatus, healthy, sealed, unreachable, unauthorized, Health, Verify, ca_bundle, system_trust,
  verify_of, verifies, refresh_auth_material, identity_or_missing, fields_of, numbers,
}

-- The key of a pooled session, and a session: the number that it is known by, the PEM texts that it
-- presents and how it verifies the peer.
pub record PoolKey : Type 0 where
  pub url : String
  pub identity : String
  pub verify : Verify

pub record Session : Type 0 where
  pub serial : ℕ
  pub cert : String
  pub key : String
  pub verify : Verify

unfoldable pub same_verify : Verify → Verify → Bool
same_verify (ca_bundle a) (ca_bundle b) = str_eq a b
same_verify (system_trust true) (system_trust b) = b
same_verify (system_trust false) (system_trust b) = not b
same_verify _ _ = false

unfoldable pub same_pool_key : PoolKey → PoolKey → Bool
unfolding same_verify
same_pool_key a b =
    str_eq a.url b.url && str_eq a.identity b.identity && same_verify a.verify b.verify

-- A response: its status and its body, if that is JSON.
pub record Response : Type 0 where
  pub status_code : ℕ
  pub json : Option Value

-- The `requests` library and the service behind it: a request is answered or raises. `shown` is `str`.
pub record Wire (V : Type 0) : Type 0 where
  pub post : (session : Session) (url : String) (body : Value) → V → Option Response × V
  pub get_page : (session : Session) (url : String) → V → Option Response × V
  pub shown : Value → String

-- The service, the pool of the process, the rows of the identities, and the attributes of the object.
pub record State (V : Type 0) : Type 0 where
  pub service : V
  pub pool : List (PoolKey × Session)
  pub next_session : ℕ
  pub table : List EngineAuthMaterial
  pub session : Option Session
  pub auth_material : Option EngineAuthMaterial

abbrev pub unreadable : Exn
unfolding worded
unreadable = openbao (worded failed "The broker returned an unreadable response.")

-- `_translate_status`
unfoldable pub translate_status : ℕ → OpenBaoError
unfolding coded
translate_status status =
    if status == 404
    then coded not_found (some 404)
    else if status == 409
    then coded conflict (some 409)
    else if status == 401
    then record {
      class = auth;
      message = "The broker did not accept this NetBox instance's client certificate.";
      status_code = some 401;
    }
    else if status == 403
    then record {
      class = auth;
      message =
          "The broker refused this request for this NetBox instance. Check the instance's permitted path prefixes and whether it may write or delete.";
      status_code = some 403;
    }
    else if status == 502 || status == 503 || status == 504
    then coded unavailable (some status)
    else record {
      class = failed;
      message = "The broker rejected the request.";
      status_code = some status;
    }

-- The body of an answer, whose error text is not looked at.
unfoldable pub decoded : Option Value → Outcome Value
unfolding worded
decoded none = raise unreadable
decoded (some body) = ok body

unfoldable pub answered : Option Response → Outcome Value
unfolding worded translate_status decoded
answered none = raise (openbao (worded unavailable "The broker is unreachable."))
answered (some r) =
    if leb 400 r.status_code
    then raise (openbao (translate_status r.status_code))
    else decoded r.json

-- `_field`
unfoldable pub present : Option Value → Outcome Value
present none = raise unreadable
present (some v) = ok v

unfoldable pub field_at : String → Value → Outcome Value
unfolding present
field_at name (object fields) = present (get name (entries fields))
field_at name _ = raise unreadable

abbrev pub not_configured : Engine → Exn
unfolding worded
not_configured engine = openbao (
    worded configuration (
      "Broker authentication is not configured for engine "
      <> (engine.slug
          <> ". Configure the client certificate and client key on OpenBao > Configuration > Settings or with `manage.py openbao_configure auth`.")))

abbrev pub unverified : Engine → Exn
unfolding worded
unverified engine = openbao (
    worded configuration (
      "Broker mode requires TLS verification: the client certificate is the credential, and presenting it to an unverified peer hands it over. Set a CA certificate path on engine "
      <> (engine.slug <> ", or re-enable TLS verification.")))

abbrev pub url_of : Engine → String → String
url_of engine endpoint = strip_end slash engine.api_url <> endpoint

abbrev pub optional : String → Option ℕ → Payload
optional name none = []
optional name (some n) = (name, int (pos n)) ∷ []

module _ {V : Type 0} (cipher : Cipher) (secret_key : String) (engine : Engine) where
  -- `_client_certificate`
  unfoldable pub certificate_of : Bool → EngineAuthMaterial → Exec (State V) (String × String)
  certificate_of false row = throw (not_configured engine)
  certificate_of true row = do
    cert ← lift (get_secret cipher secret_key "client_cert" row)
    key ← lift (get_secret cipher secret_key "client_key" row)
    pure (cert, key)

  unfoldable pub client_certificate : Option EngineAuthMaterial → Exec (State V) (String × String)
  unfolding certificate_of
  client_certificate none = throw (not_configured engine)
  client_certificate (some row) =
      certificate_of (configured "client_cert" row && configured "client_key" row) row

  -- `_get_session`
  unfoldable pub refresh : State V → State V
  unfolding refresh_auth_material
  refresh s =
      let (changed, material) = refresh_auth_material s.table s.auth_material in
      record s { auth_material = material; session = if changed then none else s.session }

  abbrev pub pool_key : State V → PoolKey
  pool_key s = record {
    url = engine.api_url;
    identity = identity_or_missing s.auth_material;
    verify = verify_of engine;
  }

  unfoldable pub use_session : PoolKey → Bool → Session → State V → State V
  use_session key fresh session s = record s {
    pool = if fresh then (key, session) ∷ s.pool else s.pool;
    session = some session;
    next_session = if fresh then suc s.next_session else s.next_session;
  }

  unfoldable pub opened_session : PoolKey → String × String → Exec (State V) Session
  unfolding use_session
  opened_session key (cert, private_key) s =
      let session : Session = record {
        serial = s.next_session;
        cert = cert;
        key = private_key;
        verify = verify_of engine;
      } in
      (ok session, use_session key true session s)

  unfoldable pub pooled_session : PoolKey → Option (PoolKey × Session) → Exec (State V) Session
  unfolding use_session client_certificate opened_session
  pooled_session key (some (_, session)) s = (ok session, use_session key false session s)
  pooled_session key none s = (client_certificate s.auth_material >>= opened_session key) s

  unfoldable pub fresh_session : Exec (State V) Session
  unfolding verifies same_pool_key pooled_session
  fresh_session s =
      if verifies (verify_of engine)
      then pooled_session (pool_key s) (first (λ entry. same_pool_key entry.0 (pool_key s)) s.pool)
          s
      else (raise (unverified engine), s)

  unfoldable pub session_or_fresh : Option Session → Exec (State V) Session
  unfolding fresh_session
  session_or_fresh none s = fresh_session s
  session_or_fresh (some session) s = (ok session, s)

  unfoldable pub get_session : Exec (State V) Session
  unfolding refresh session_or_fresh
  get_session s = session_or_fresh (refresh s).session (refresh s)

  -- `_require_kv2`
  unfoldable pub require_kv2 : String → Exec (State V) (Unit {0})
  unfolding worded print_number
  require_kv2 operation = require (engine.kv_version == 2) (
      openbao (
        worded configuration (
          operation
          <> (" requires a KV version 2 mount; engine "
              <> (engine.slug
                  <> (" is configured for version "
                      <> (print_number engine.kv_version
                          <> ", which the broker does not serve.")))))))

-- `close_auth_material_sessions`
unfoldable pub close_auth_material_sessions :
    ℕ → ℕ → List (PoolKey × Session) → List (PoolKey × Session)
unfolding print_number
close_auth_material_sessions material_id revision pool =
    keep
      (λ entry.
        not (str_eq entry.0.identity (print_number material_id <> (":" <> print_number revision))))
      pool
