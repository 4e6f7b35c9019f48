-- ===== src/Backends/Broker/Verified.antt =====
-- The sessions that the broker backend presents its certificate on.
use netbox_openbao.Prelude.{
  String, Bool, true, false, Option, none, some, List, [], ◌∷◌, ◌≡◌, refl, sym, subst, All, keep,
  first, not, Bool-cases, inl, inr, if◌then◌else◌, ◌==◌, ◌&&◌,
}
use netbox_openbao.Exec.{Outcome, ok, raise, lift, ◌>>=◌, continue, pure}
use netbox_openbao.Exec.Outcomes.{Ensures}
use netbox_openbao.Json.{Value}
use netbox_openbao.Models.{Engine}
use netbox_openbao.Models.AuthMaterials.{Cipher, EngineAuthMaterial, get_secret, configured}
use netbox_openbao.Backends.Session.{verifies, verify_of, refresh_auth_material}
use netbox_openbao.Backends.Broker.{
  PoolKey, Session, Wire, State, pool_key, get_session, session_or_fresh, fresh_session,
  pooled_session, client_certificate, certificate_of, opened_session, use_session, refresh,
}
use netbox_openbao.Backends.Broker.Operations.{send, post, without, invalidate_token}

abbrev pub Held : Option Session → Type 0
Held none = Unit
Held (some session) = verifies session.verify ≡ true

-- Every session of the pool, and the object's, verifies its peer.
pub record Verified {V : Type 0} (s : State V) : Type 0 where
  pub pooled : All (λ entry. verifies entry.1.verify ≡ true) s.pool
  pub own : Held s.session

All-keep : {A : Type 0} (P : A → Type 0) (p : A → Bool) (xs : List A) → All P xs → All P (keep p xs)
All-keep P p [] all = tt
All-keep P p (x ∷ xs) (h, all) = elim (Bool-cases (p x)) [
  | inl e ↦ rw e (h, All-keep P p xs all)
  | inr e ↦ rw e (All-keep P p xs all)
]

first-pooled :
    (p : PoolKey × Session → Bool) (pool : List (PoolKey × Session)) (key : PoolKey)
    (session : Session)
    → All (λ entry. verifies entry.1.verify ≡ true) pool
    → first p pool ≡ some (key, session)
    → verifies session.verify ≡ true
first-pooled p [] key session all at = cc
first-pooled p (entry ∷ pool) key session (h, all) at = elim (Bool-cases (p entry)) [
  | inl e ↦
      let same : entry ≡ (key, session) = cc (e, at) in
      subst (λ x. verifies x.1.verify ≡ true) same h
  | inr e ↦ first-pooled p pool key session all (cc (e, at))
]

module _ {V : Type 0} (cipher : Cipher) (secret_key : String) (engine : Engine) where
  -- How a step that returns a session ends.
  Safe : Outcome Session × State V → Type 0
  Safe (r, s) = Ensures (λ session. verifies session.verify ≡ true) r × Verified s

  refresh-Verified : (s : State V) → Verified s → Verified (refresh cipher secret_key engine s)
  unfolding refresh
  refresh-Verified s h = record {
    pooled = h.pooled;
    own = go (refresh_auth_material s.table s.auth_material).0;
  }
    where
      go : (b : Bool) → Held (if b then none else s.session)
      go true = tt
      go false = h.own

  opened_session-Safe :
      (key : PoolKey) (r : Outcome (String × String)) (s : State V)
      → verifies (verify_of engine) ≡ true
      → Verified s
      → Safe (continue r (opened_session cipher secret_key engine key) s)
  unfolding Safe opened_session use_session
  opened_session-Safe key (ok (cert, private_key)) s trusted h =
      (trusted, record { pooled = (trusted, h.pooled); own = trusted })
  opened_session-Safe key (raise e) s trusted h = (tt, h)

  certificate_of-still :
      (b : Bool) (row : EngineAuthMaterial) (s : State V)
      → (certificate_of cipher secret_key engine b row s).1 ≡ s
  unfolding certificate_of
  certificate_of-still false row s = refl
  certificate_of-still true row s =
      go (get_secret cipher secret_key "client_cert" row)
        (get_secret cipher secret_key "client_key" row)
    where
      go :
          (r q : Outcome String)
          → (continue {B = String × String} r (λ cert. lift q >>= λ key. pure (cert, key)) s).1 ≡ s
      go (ok cert) (ok key) = refl
      go (ok cert) (raise e) = refl
      go (raise e) q = refl

  client_certificate-still :
      (material : Option EngineAuthMaterial) (s : State V)
      → (client_certificate cipher secret_key engine material s).1 ≡ s
  unfolding client_certificate
  client_certificate-still none s = refl
  client_certificate-still (some row) s =
      certificate_of-still (configured "client_cert" row && configured "client_key" row) row s

  pooled_session-Safe :
      (key : PoolKey) (found : Option (PoolKey × Session)) (s : State V)
      → verifies (verify_of engine) ≡ true
      → ((entry : PoolKey × Session) → found ≡ some entry → verifies entry.1.verify ≡ true)
      → Verified s
      → Safe (pooled_session cipher secret_key engine key found s)
  unfolding pooled_session use_session Safe
  pooled_session-Safe key (some (at, session)) s trusted safe h =
      (safe (at, session) refl, record { pooled = h.pooled; own = safe (at, session) refl })
  pooled_session-Safe key none s trusted safe h =
      subst
        (λ x. Safe (
          continue (client_certificate cipher secret_key engine s.auth_material s).0
            (opened_session cipher secret_key engine key) x))
        (sym (client_certificate-still s.auth_material s))
        (opened_session-Safe key (client_certificate cipher secret_key engine s.auth_material s).0 s
          trusted h)

  fresh_session-Safe : (s : State V) → Verified s → Safe (fresh_session cipher secret_key engine s)
  unfolding fresh_session Safe
  fresh_session-Safe s h = elim (Bool-cases (verifies (verify_of engine))) [
    | inl trusted ↦ rw trusted (
        pooled_session-Safe (pool_key cipher secret_key engine s) _ s trusted
          (λ entry at. first-pooled _ s.pool entry.0 entry.1 h.pooled at) h)
    | inr loose ↦ rw loose (tt, h)
  ]

  get_session-Safe : (s : State V) → Verified s → Safe (get_session cipher secret_key engine s)
  unfolding get_session session_or_fresh Safe
  get_session-Safe s h =
      go (refresh cipher secret_key engine s).session (refresh cipher secret_key engine s)
        (refresh-Verified s h) (refresh-Verified s h).own
    where
      go :
          (o : Option Session) (t : State V)
          → Verified t
          → Held o
          → Safe (session_or_fresh cipher secret_key engine o t)
      go none t v held = fresh_session-Safe t v
      go (some session) t v held = (held, v)

  module _ (wire : Wire V) where
    sent-Verified :
        (endpoint : String) (body : Value) (r : Outcome Session) (s : State V)
        → Verified s
        → Verified (continue r (send cipher secret_key engine wire endpoint body) s).1
    unfolding send
    sent-Verified endpoint body (ok session) s h = record { pooled = h.pooled; own = h.own }
    sent-Verified endpoint body (raise e) s h = h

    without-pooled :
        (o : Option Session) (pool : List (PoolKey × Session))
        → All (λ entry. verifies entry.1.verify ≡ true) pool
        → All
            (λ entry. verifies entry.1.verify ≡ true)
            (without cipher secret_key engine wire o pool)
    unfolding without
    without-pooled none pool all = all
    without-pooled (some session) pool all =
        All-keep _ (λ entry. not (entry.1.serial == session.serial)) pool all

    -- The certificate is presented on sessions that verify their peer only: each session that a request is sent on does, when
    -- those of the pool and of the object do, and a request and the dropping of the session keep that.
    pub post-Verified :
        (endpoint : String) (body : Value) (s : State V)
        → Verified s
        → Ensures
            (λ session. verifies session.verify ≡ true)
            (get_session cipher secret_key engine s).0
          × Verified (post cipher secret_key engine wire endpoint body s).1
          × Verified (invalidate_token cipher secret_key engine wire s)
    unfolding post invalidate_token Safe
    post-Verified endpoint body s h =
        let (trusted, after) : Safe (get_session cipher secret_key engine s) =
          get_session-Safe s h in
        (
          trusted,
          sent-Verified endpoint body (get_session cipher secret_key engine s).0
              (get_session cipher secret_key engine s).1 after,
          record { pooled = without-pooled s.session s.pool h.pooled; own = tt },
        )
