-- ===== src/Examples/Identities.antt =====
-- Service identities, the backends that present them, and the scans of the jobs.
use netbox_openbao.Prelude.{
  ℕ, suc, ◌<>◌, String, true, Option, none, some, List, [], ◌∷◌, ◌≡◌, refl, map, contains_text,
  str_eq, if◌then◌else◌, Bool-cases, inl, inr,
}
use netbox_openbao.Exec.{Outcome, ok, raise}
use netbox_openbao.Exec.Outcomes.{Ensures}
use netbox_openbao.Json.{null, text, Payload}
use netbox_openbao.Models.{Credential, expired}
use netbox_openbao.Models.AuthMaterials.{
  Cipher, EngineAuthMaterial, Instance, auth_material_fields, get_secret, resealed, save, merged,
  remove_prefix, decrypt, decrypt_token, opened,
}
use netbox_openbao.Models.AuthMaterials.Resealed.{Opens, remove_prefix-append, resealed-get_secret}
use netbox_openbao.Backends.Session.{verifies}
use netbox_openbao.Backends.Broker
use netbox_openbao.Backends.Broker.Operations
use netbox_openbao.Backends.Broker.{Response, Wire}
use netbox_openbao.Backends.Broker.Scrubbed.{scrubbed_wire, operations-scrubbed}
use netbox_openbao.Backends.Broker.Verified.{Verified, post-Verified}
use netbox_openbao.Models.{Engine}
use netbox_openbao.Jobs.{expiry_scan, mark_expired, past_window}
use netbox_openbao.Jobs.Scan.{scanned, expiry_scan-exact}
use netbox_openbao.Samples.{engine, router, db_of}

-- A cipher that writes the key before the text.
abbrev cipher : Cipher
cipher = record {
  seal = λ secret_key plain. secret_key <> plain;
  open_token = λ secret_key token. remove_prefix secret_key token;
}

abbrev identity : EngineAuthMaterial
identity = record {
  pk = 1;
  engine_id = some 1;
  policy_id = none;
  cluster_id = none;
  revision = 3;
  ciphertexts = λ name. if str_eq name "token" then "v1:old-s.1" else "";
}

abbrev values : String → String
values name = if str_eq name "token" then "s.1" else ""

cipher-Opens : Opens cipher
cipher-Opens secret_key plain = remove_prefix-append secret_key plain

identity-readable :
    (name : String)
    → contains_text auth_material_fields name ≡ true
    → get_secret cipher "old-" name identity ≡ ok (values name)
unfolding get_secret decrypt decrypt_token opened remove_prefix
identity-readable name is_known = elim (Bool-cases (str_eq name "token")) [
  | inl e ↦ rw is_known (rw e refl)
  | inr e ↦ rw is_known (rw e refl)
]

resealed-get_secret_example :
    (t : EngineAuthMaterial) × (resealed cipher "old-" "new-" identity ≡ ok t)
    × ((name : String)
        → contains_text auth_material_fields name ≡ true
        → get_secret cipher "new-" name t ≡ ok (values name))
resealed-get_secret_example =
    resealed-get_secret cipher cipher-Opens "old-" "new-" refl identity values identity-readable

-- Two objects of one row, of which one changes the token and the other the role.
abbrev with_token : Instance
with_token = record {
  row = record identity { ciphertexts = λ name. if str_eq name "token" then "v1:s.2" else "" };
  loaded = identity;
}

abbrev with_role : Instance
with_role = record {
  row = record identity {
    ciphertexts = λ name.
        if str_eq name "role_id"
        then "v1:role"
        else if str_eq name "token"
        then "v1:old-s.1"
        else "";
  };
  loaded = identity;
}

abbrev saved : Outcome (Instance × List EngineAuthMaterial) → Instance × List EngineAuthMaterial
saved (ok r) = r
saved (raise e) = (with_token, [])

abbrev first_save : Instance × List EngineAuthMaterial
first_save = saved (save with_token (identity ∷ []))

abbrev second_save : Instance × List EngineAuthMaterial
second_save = saved (save with_role first_save.1)

both_kept :
    (second_save.0.row.ciphertexts "token" ≡ "v1:s.2")
    × (second_save.0.row.ciphertexts "role_id" ≡ "v1:role")
unfolding save merged
both_kept = (refl, refl)

-- A broker that answers one request and refuses the next, with a body.
abbrev broker_engine : Engine
broker_engine = record engine { backend = "broker"; api_url = "https://broker.example/" }

abbrev denial : Response
denial = record { status_code = 403; json = some (text "policy netbox may not read secret/root") }

abbrev wire : Wire ℕ
wire = record {
  post = λ session url body n. (some denial, suc n);
  get_page = λ session url n. (none, n);
  shown = λ v. "";
}

abbrev broker_identity : EngineAuthMaterial
broker_identity = record identity { ciphertexts = λ name. "v1:old-pem" }

abbrev broker_state : Broker.State ℕ
broker_state = record {
  service = 0;
  pool = [];
  next_session = 0;
  table = broker_identity ∷ [];
  session = none;
  auth_material = some broker_identity;
}

post-Verified_example :
    Ensures
      (λ session. verifies session.verify ≡ true)
      (Broker.get_session cipher "old-" broker_engine broker_state).0
    × Verified
        (Operations.post cipher "old-" broker_engine wire "/v1/secret/read" null broker_state).1
    × Verified (Operations.invalidate_token cipher "old-" broker_engine wire broker_state)
post-Verified_example =
    post-Verified cipher "old-" broker_engine wire "/v1/secret/read" null broker_state
      (record { pooled = tt; own = tt })

operations-scrubbed_example :
    ((path : String) (version : Option ℕ)
      → Operations.read cipher "old-" broker_engine (scrubbed_wire wire) path version
        ≡ Operations.read cipher "old-" broker_engine wire path version)
    × ((path : String) (material : Payload) (cas : Option ℕ)
        → Operations.write cipher "old-" broker_engine (scrubbed_wire wire) path material cas
          ≡ Operations.write cipher "old-" broker_engine wire path material cas)
    × ((path : String) (versions : List (Option ℕ))
        → Operations.delete cipher "old-" broker_engine (scrubbed_wire wire) path versions
          ≡ Operations.delete cipher "old-" broker_engine wire path versions)
    × ((path : String)
        → Operations.list_versions cipher "old-" broker_engine (scrubbed_wire wire) path
          ≡ Operations.list_versions cipher "old-" broker_engine wire path)
    × ((path : String)
        → Operations.read_metadata cipher "old-" broker_engine (scrubbed_wire wire) path
          ≡ Operations.read_metadata cipher "old-" broker_engine wire path)
    × ((path : String) (metadata : Payload)
        → Operations.set_metadata cipher "old-" broker_engine (scrubbed_wire wire) path metadata
          ≡ Operations.set_metadata cipher "old-" broker_engine wire path metadata)
operations-scrubbed_example = operations-scrubbed cipher "old-" broker_engine wire

-- Two days behind the end of its window.
abbrev ended_router : Credential
ended_router = record router { valid_until = some 100 }

expiry_scan-exact_example :
    ((expiry_scan 172900 (30 ∷ []) (db_of ended_router)).1.credentials
      ≡ map (scanned 172900) (ended_router ∷ []))
    × ((expiry_scan 172900
          (30 ∷ [])
          (expiry_scan 172900 (30 ∷ []) (db_of ended_router)).1).1.credentials
        ≡ (expiry_scan 172900 (30 ∷ []) (db_of ended_router)).1.credentials)
expiry_scan-exact_example = expiry_scan-exact 172900 (30 ∷ []) (db_of ended_router)

ended_test :
    (expiry_scan 172900 (30 ∷ []) (db_of ended_router)).1.credentials
    ≡ record ended_router { status = expired } ∷ []
unfolding expiry_scan mark_expired past_window
ended_test = refl
