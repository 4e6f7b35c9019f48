-- ===== src/Backends/OpenBao/Login.antt =====
-- The login of `OpenBaoBackend`, its cached token and its pooled sessions.
use netbox_openbao.Prelude.{
  ℕ, Bool, print_number, suc, ◌<>◌, String, Option, none, some, ◌∷◌, first, keep, str_eq, not,
  strip, if◌then◌else◌, false, List,
}
use netbox_openbao.Errors.{openbao, OpenBaoClass, configuration, auth, coded, worded}
use netbox_openbao.Exec.{Exec, Outcome, ok, raise, pure, lift, ◌>>=◌}
use netbox_openbao.Json.{ℤ, pos, Value, text, Fields, truthy}
use netbox_openbao.Models.{Engine}
use netbox_openbao.Models.AuthMaterials.{EngineAuthMaterial, get_secret}
use netbox_openbao.Backends.Session.{refresh_auth_material}
use netbox_openbao.Backends.OpenBao.{
  Answer, Session, SessionKey, Client, Hvac, Host, Cached, State, translated, token_ttl,
  default_ttl, dict_or_empty, entry_or_null, cached_token, same_session_key, cache_key,
  required_material, uses_certificate, session_key,
}

-- The end of `_login`: the token and the lease of a response.
unfoldable pub login_result : Host → Value → Outcome (Value × ℤ)
unfolding dict_or_empty truthy worded
login_result host response = from_auth (dict_or_empty response)
  where
    lease_of : Value → Outcome ℤ → Outcome (Value × ℤ)
    lease_of token (ok lease) = ok (token, lease)
    lease_of token (raise e) = raise e

    with_token : Fields → Outcome (Value × ℤ)
    with_token fields =
        let token = entry_or_null "client_token" fields in
        let lease = entry_or_null "lease_duration" fields in
        if truthy token
        then lease_of token
            (if truthy lease then host.to_int lease else ok (pos (default_ttl host)))
        else raise (openbao (worded auth "OpenBao returned no client token."))

    from_entry : Outcome Fields → Outcome (Value × ℤ)
    from_entry (ok fields) = with_token fields
    from_entry (raise e) = raise e

    from_auth : Outcome Fields → Outcome (Value × ℤ)
    from_auth (ok fields) = from_entry (dict_or_empty (entry_or_null "auth" fields))
    from_auth (raise e) = raise e

unfoldable pub file_or : Option String → Outcome String
unfolding worded strip
file_or none = raise (
    openbao
      (worded configuration "Unable to read the configured Kubernetes service account token."))
file_or (some content) = ok (strip content)

-- `self.auth_material.get_secret('k8s_jwt_path') or ...`, inside the `try`.
abbrev pub jwt_path : String → String
jwt_path path =
    if str_eq path "" then "/var/run/secrets/kubernetes.io/serviceaccount/token" else path

abbrev pub secret_or_absent : Host → Option EngineAuthMaterial → String → Outcome String
unfolding get_secret
secret_or_absent host none name = ok ""
secret_or_absent host (some row) name = get_secret host.cipher host.secret_key name row

module _ {V : Type 0} (host : Host) (engine : Engine) where
  -- `_get_session`: a session of the pool, or a new one, with its certificate if the engine uses one.
  unfoldable pub add_session : SessionKey → Option (String × String) → Exec (State V) Session
  add_session key cert s =
      let session : Session = record { serial = s.next_session; cert = cert } in
      (ok session, record s { pool = (key, session) ∷ s.pool; next_session = suc s.next_session })

  unfoldable pub certified_session : SessionKey → Option EngineAuthMaterial → Exec (State V) Session
  unfolding required_material add_session
  certified_session key material = do
    cert ← lift (required_material host engine "client_cert" "Certificate" material)
    private_key ← lift (required_material host engine "client_key" "Certificate" material)
    add_session key (some (cert, private_key))

  unfoldable pub pooled_session :
      SessionKey → Option (SessionKey × Session) → Exec (State V) Session
  unfolding certified_session add_session
  pooled_session key (some (_, session)) s = (ok session, s)
  pooled_session key none s =
      if uses_certificate host engine
      then certified_session key s.auth_material s
      else add_session key none s

  unfoldable pub get_session : Exec (State V) Session
  unfolding pooled_session
  get_session s =
      let key = session_key host engine s.auth_material in
      pooled_session key (first (λ entry. same_session_key entry.0 key) s.pool) s

  -- `_build_client`
  unfoldable pub build_client : Option Value → Exec (State V) Client
  unfolding get_session
  build_client token = do session ← get_session; pure (record { session = session; token = token })

  module _ (hvac : Hvac V) where
    unfoldable pub call : {A : Type 0} → (V → Answer A × V) → Exec (State V) A
    unfolding translated
    call request s =
        let (result, service) = request s.service in
        (translated host.lower result, record s { service = service })

    -- `except Exception`: what is no backend error is translated as any other failure.
    unfoldable pub unexpected : {A : Type 0} → Outcome A → Outcome A
    unfolding coded
    unexpected (ok a) = ok a
    unexpected (raise (openbao e)) = raise (openbao e)
    unexpected (raise e) = raise (openbao (coded OpenBaoClass.unavailable none))

    unfoldable pub login_response : Client → Exec (State V) Value
    unfolding required_material file_or call unexpected
    login_response client s =
        if str_eq engine.auth_method "approle"
        then approle s
        else if str_eq engine.auth_method "kubernetes"
        then kubernetes s
        else if str_eq engine.auth_method "cert"
        then call (hvac.cert_login client) s
        else (
          raise (
              openbao (
                worded configuration
                  ("Unsupported authentication method: " <> (engine.auth_method <> ".")))),
          s,
        )
      where
        approle : Exec (State V) Value
        approle s =
            (lift (required_material host engine "role_id" "AppRole" s.auth_material) >>= λ role_id.
            lift (required_material host engine "secret_id" "AppRole" s.auth_material)
            >>= λ secret_id. call (hvac.approle_login client role_id secret_id))
              s

        kubernetes : Exec (State V) Value
        kubernetes s =
            (lift (required_material host engine "k8s_role" "Kubernetes" s.auth_material)
                >>= λ role.
                    lift (unexpected (secret_or_absent host s.auth_material "k8s_jwt_path"))
                    >>= λ path. lift (file_or (host.file (jwt_path path))) >>= λ jwt.
                        call (hvac.kubernetes_login client role jwt))
              s

    -- `_login`
    unfoldable pub login : Client → Exec (State V) (Value × ℤ)
    unfolding login_response login_result required_material
    login client s =
        if str_eq engine.auth_method "token"
        then (lift (required_material host engine "token" "Token" s.auth_material) >>= λ token.
              pure (text token, pos (default_ttl host)))
            s
        else (login_response client >>= λ response. lift (login_result host response)) s

    -- `_get_client`
    unfoldable pub refresh : State V → State V
    unfolding refresh_auth_material
    refresh s =
        let (changed, material) = refresh_auth_material s.table s.auth_material in
        record s { auth_material = material; client = if changed then none else s.client }

    unfoldable pub keep_client : Client → Exec (State V) Client
    keep_client client s = (ok client, record s { client = some client })

    unfoldable pub cache_set : Client → Value × ℤ → Exec (State V) Client
    unfolding cache_key token_ttl keep_client
    cache_set client (token, lease) s =
        let key = cache_key host engine s.auth_material in
        let entry : Cached = record { cache_key = key; token = token; ttl = token_ttl lease } in
        keep_client (record client { token = some token })
          (record s { cache = entry ∷ keep (λ other. not (str_eq other.cache_key key)) s.cache })

    unfoldable pub authenticated : Option Value → Exec (State V) Client
    unfolding build_client login cache_set keep_client truthy
    authenticated none = build_client none >>= λ client. login client >>= cache_set client
    authenticated (some token) =
        if truthy token
        then build_client (some token) >>= keep_client
        else build_client none >>= λ client. login client >>= cache_set client

    unfoldable pub client_or_login : Option Client → Exec (State V) Client
    unfolding authenticated cache_key
    client_or_login none s =
        authenticated (cached_token (cache_key host engine s.auth_material) s.cache) s
    client_or_login (some client) s = (ok client, s)

    unfoldable pub get_client : Exec (State V) Client
    unfolding refresh client_or_login
    get_client s = client_or_login (refresh s).client (refresh s)

    -- `invalidate_token`
    unfoldable pub invalidate_token : State V → State V
    unfolding cache_key
    invalidate_token s =
        let key = session_key host engine s.auth_material in
        record s {
          cache =
              keep (λ entry. not (str_eq entry.cache_key (cache_key host engine s.auth_material)))
                s.cache;
          client = none;
          pool =
              if uses_certificate host engine
              then keep (λ entry. not (same_session_key entry.0 key)) s.pool
              else s.pool;
        }

-- `close_auth_material_sessions`
abbrev pub presents : String → SessionKey → Bool
presents revision key = elim key.identity [
  | none ↦ false
  | some identity ↦ str_eq identity revision
]

unfoldable pub close_auth_material_sessions :
    ℕ → ℕ → List (SessionKey × Session) → List (SessionKey × Session)
unfolding print_number
close_auth_material_sessions material_id revision pool =
    keep
      (λ entry. not (presents (print_number material_id <> (":" <> print_number revision)) entry.0))
      pool
