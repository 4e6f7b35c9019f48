-- ===== src/Backends/Broker/Operations.antt =====
-- The requests of `BrokerBackend`, its operations on a KV mount and its health, in
-- netbox_openbao/backends/broker.py.
use netbox_openbao.Prelude.{
  ℕ, ◌<>◌, String, Bool, true, false, Option, none, some, List, [], ◌∷◌, keep, str_eq, print_number,
  not, leb, is_nil, ◌==◌, ◌||◌, if◌then◌else◌,
}
use netbox_openbao.Errors.{
  openbao, OpenBaoError, OpenBaoClass, configuration, auth, worded, untranslated,
}
use netbox_openbao.Exec.{Exec, Outcome, ok, raise, pure, lift, require, ◌>>=◌, ◌>>◌}
use netbox_openbao.Json.{Value, null, text, array, object, Fields, end, Payload, entries, truthy}
use netbox_openbao.Models.{Engine}
use netbox_openbao.Models.AuthMaterials.{Cipher}
use netbox_openbao.Secrets.Registry.{get}
use netbox_openbao.Backends.Session.{
  EngineStatus, healthy, sealed, unreachable, unauthorized, Health, fields_of, numbers,
}
use netbox_openbao.Backends.Broker.{
  PoolKey, Session, Response, Wire, State, answered, field_at, url_of, optional, get_session,
  require_kv2,
}

module _ {V : Type 0} (cipher : Cipher) (secret_key : String) (engine : Engine)
    (wire : Wire V) where
  -- The request of `_post`, and `_post`.
  unfoldable pub send : String → Value → Session → Exec (State V) Value
  unfolding answered
  send endpoint body session s =
      let (response, service) = wire.post session (url_of engine endpoint) body s.service in
      (answered response, record s { service = service })

  unfoldable pub post : String → Value → Exec (State V) Value
  unfolding get_session send
  post endpoint body = get_session cipher secret_key engine >>= send endpoint body

  unfoldable pub post_for : String → String → Value → Exec (State V) Value
  unfolding post field_at
  post_for name endpoint body = do answer ← post endpoint body; lift (field_at name answer)

  unfoldable pub read : String → Option ℕ → Exec (State V) Value
  unfolding require_kv2 post_for fields_of
  read path version = do
    require_kv2 cipher secret_key engine "Reading a secret through the broker"
    post_for "data" "/v1/secret/read"
        (object (fields_of (("path", text path) ∷ optional "version" version)))

  unfoldable pub write : String → Payload → Option ℕ → Exec (State V) Value
  unfolding require_kv2 post_for fields_of
  write path material cas = do
    require_kv2 cipher secret_key engine "Writing a secret through the broker"
    post_for "version" "/v1/secret/write" (
        object (
          fields_of
            (("path", text path) ∷ ("data", object (fields_of material)) ∷ optional "cas" cas)))

  abbrev pub with_versions : List (Option ℕ) → Payload
  with_versions versions =
      if is_nil versions then [] else ("versions", array (numbers versions)) ∷ []

  unfoldable pub delete : String → List (Option ℕ) → Exec (State V) (Unit {0})
  unfolding require_kv2 post fields_of numbers
  delete path versions = do
    require_kv2 cipher secret_key engine "Deleting a secret through the broker"
    post "/v1/secret/delete" (object (fields_of (("path", text path) ∷ with_versions versions)))
    pure tt

  unfoldable pub list_versions : String → Exec (State V) Value
  unfolding require_kv2 post_for fields_of
  list_versions path = do
    require_kv2 cipher secret_key engine "Listing versions through the broker"
    post_for "versions" "/v1/secret/versions" (object (fields_of (("path", text path) ∷ [])))

  unfoldable pub read_metadata : String → Exec (State V) Value
  unfolding require_kv2 post_for fields_of
  read_metadata path = do
    require_kv2 cipher secret_key engine "Reading metadata through the broker"
    post_for "metadata" "/v1/secret/metadata/read" (object (fields_of (("path", text path) ∷ [])))

  unfoldable pub set_metadata : String → Payload → Exec (State V) (Unit {0})
  unfolding require_kv2 post fields_of
  set_metadata path metadata = do
    require_kv2 cipher secret_key engine "Setting custom metadata through the broker"
    post "/v1/secret/metadata/write" (
        object
          (fields_of (("path", text path) ∷ ("custom_metadata", object (fields_of metadata)) ∷ [])))
    pure tt

  -- `invalidate_token`, after which the object has no session and the pool has none that is that one.
  unfoldable pub without : Option Session → List (PoolKey × Session) → List (PoolKey × Session)
  without none pool = pool
  without (some session) pool = keep (λ entry. not (entry.1.serial == session.serial)) pool

  unfoldable pub invalidate_token : State V → State V
  unfolding without
  invalidate_token s = record s { pool = without s.session s.pool; session = none }

  -- `health`
  abbrev pub report : EngineStatus → String → Option Value → Health
  report status message raw = record { status = status; message = message; raw = raw }

  unfoldable pub or_empty : Value → Outcome Fields
  unfolding truthy
  or_empty (object fields) = ok fields
  or_empty value = if truthy value then raise untranslated else ok end

  unfoldable pub body_of : Option Value → Outcome Fields
  unfolding or_empty
  body_of none = ok end
  body_of (some value) = or_empty value

  unfoldable pub entry_of : String → Fields → Value
  entry_of name fields = elim (get name (entries fields)) [ none ↦ null | some v ↦ v ]

  unfoldable pub version_text : Value → String
  unfolding truthy
  version_text (text v) = if str_eq v "" then "unknown" else v
  version_text value = if truthy value then wire.shown value else "unknown"

  unfoldable pub bao_health : Fields → Fields → Health
  unfolding entry_of truthy version_text
  bao_health payload bao =
      if not (truthy (entry_of "reachable" bao))
      then report unreachable "The broker is up, but cannot reach OpenBao." (some (object payload))
      else if truthy (entry_of "sealed" bao)
      then report sealed "Instance is sealed." (some (object payload))
      else report healthy
          ("Version " <> (version_text (entry_of "version" bao) <> ", through the broker."))
          (some (object payload))

  unfoldable pub reported : Option Response → Outcome Health
  unfolding body_of or_empty entry_of bao_health print_number
  reported none = ok (report unreachable "The broker is unreachable." none)
  reported (some r) =
      if r.status_code == 401 || r.status_code == 403
      then ok
          (report unauthorized "The broker refused this NetBox instance's client certificate." none)
      else if leb 400 r.status_code
      then ok (
          report unreachable ("The broker returned HTTP " <> (print_number r.status_code <> "."))
            none)
      else reported_body (body_of r.json)
    where
      reported_bao : Fields → Outcome Fields → Outcome Health
      reported_bao payload (ok bao) = ok (bao_health payload bao)
      reported_bao payload (raise e) = raise e

      reported_body : Outcome Fields → Outcome Health
      reported_body (ok payload) = reported_bao payload (or_empty (entry_of "openbao" payload))
      reported_body (raise e) = raise e

  -- `except BackendConfigurationError`
  unfoldable pub misconfigured : OpenBaoError → OpenBaoClass → Outcome Health
  misconfigured e configuration = ok (report unreachable e.message none)
  misconfigured e _ = raise (openbao e)

  unfoldable pub probed : Outcome Session → Exec (State V) Health
  unfolding reported misconfigured
  probed (ok session) s =
      let (response, service) = wire.get_page session (url_of engine "/healthz") s.service in
      (reported response, record s { service = service })
  probed (raise (openbao e)) s = (misconfigured e e.class, s)
  probed (raise e) s = (raise e, s)

  unfoldable pub health : Exec (State V) Health
  unfolding get_session probed
  health s = let (session, s') = get_session cipher secret_key engine s in probed session s'

  -- `authenticate`
  unfoldable pub accepted : EngineStatus → Bool
  accepted unreachable = false
  accepted unauthorized = false
  accepted status = true

  unfoldable pub authenticate : Exec (State V) (Unit {0})
  unfolding health accepted worded
  authenticate = do
    result ← health
    require (accepted result.status)
        (openbao (worded auth "The broker did not accept this NetBox instance."))
