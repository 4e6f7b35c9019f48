-- ===== src/Backends/OpenBao/Operations.antt =====
-- The operations of `OpenBaoBackend` on a KV mount, and its health.
use netbox_openbao.Prelude.{
  ℕ, ◌<>◌, String, Bool, true, false, Option, none, some, List, print_number, not, is_nil, ◌==◌,
  if◌then◌else◌, ◌&&◌,
}
use netbox_openbao.Errors.{openbao, OpenBaoClass, configuration, auth, worded, untranslated}
use netbox_openbao.Exec.{Exec, Outcome, ok, raise, pure, lift, require, ◌>>=◌, ◌>>◌}
use netbox_openbao.Json.{
  pos, Value, null, bool, int, text, object, Fields, end, entries, Payload, truthy,
}
use netbox_openbao.Models.{Engine}
use netbox_openbao.Secrets.Registry.{get}
use netbox_openbao.Backends.Session.{
  EngineStatus, healthy, sealed, standby, unreachable, unauthorized, Health,
}
use netbox_openbao.Backends.OpenBao.{
  other, Answer, answer, fails, Client, Hvac, Host, State, translate, dict_or_empty,
}
use netbox_openbao.Backends.OpenBao.Versions.{VersionEntry, listed, data_or_empty}
use netbox_openbao.Backends.OpenBao.Login.{build_client, call, get_client}

-- `value[key]`, whose failure the `except` translates as any other.
unfoldable pub item : (String → String) → String → Value → Outcome Value
unfolding translate
item lower key (object fields) = elim (get key (entries fields)) [
  | none ↦ raise (openbao (translate lower (other none)))
  | some v ↦ ok v
]
item lower key _ = raise (openbao (translate lower (other none)))

-- The report of `health`, by the answer of the instance.
abbrev pub report : EngineStatus → String → Option Value → Health
report status message raw = record { status = status; message = message; raw = raw }

unfoldable pub payload_of : Option Value → Outcome Fields
unfolding dict_or_empty
payload_of none = ok end
payload_of (some (object fields)) = ok fields
payload_of (some value) = if truthy value then raise untranslated else ok end

-- `payload.get(name, default)`
abbrev pub entry_or : Value → String → Fields → Value
entry_or default name fields = elim (get name (entries fields)) [ none ↦ default | some v ↦ v ]

unfoldable pub instance_health : Host → Fields → Health
unfolding truthy
instance_health host payload =
    if not (truthy (entry_or (bool true) "initialized" payload))
    then report unreachable "Instance is not initialized." (some (object payload))
    else if truthy (entry_or null "sealed" payload)
    then report sealed "Instance is sealed." (some (object payload))
    else if truthy (entry_or null "standby" payload)
    then report standby "Standby node." (some (object payload))
    else report healthy
        ("Version " <> (host.shown (entry_or (text "unknown") "version" payload) <> "."))
        (some (object payload))

abbrev pub denied : OpenBaoClass → EngineStatus
denied auth = unauthorized
denied _ = unreachable

unfoldable pub reported : Host → Answer (Option Value) → Outcome Health
unfolding translate payload_of instance_health
reported host (fails e) =
    let error = translate host.lower e in ok (report (denied error.class) error.message none)
reported host (answer response) = elim (payload_of response) [
  | ok payload ↦ ok (instance_health host payload)
  | raise e ↦ raise e
]

-- `VaultBackend.health` of backends/vault.py, over what the inherited method reports.
abbrev pub is_standby : EngineStatus → Bool
is_standby standby = true
is_standby _ = false

unfoldable pub vault_report : Health → Fields → Health
unfolding truthy
vault_report result payload =
    let named =
      if is_standby result.status && truthy (entry_or null "performance_standby" payload)
      then record result { message = "Performance standby node; serving reads." }
      else result in
    if truthy (entry_or null "enterprise" payload)
    then record named { message = named.message <> " Enterprise build." }
    else named

abbrev pub raw_fields : Option Value → Fields
raw_fields (some (object fields)) = fields
raw_fields _ = end

module _ {V : Type 0} (host : Host) (engine : Engine) where
  -- `_require_kv2`
  unfoldable pub require_kv2 : String → Exec (State V) (Unit {0})
  unfolding worded print_number
  require_kv2 operation = require (engine.kv_version == 2) (
      openbao (
        worded configuration (
          operation
          <> (" requires a KV version 2 mount; engine "
              <> (engine.slug
                  <> (" is configured for version " <> (print_number engine.kv_version <> ".")))))))

  module _ (hvac : Hvac V) where
    unfoldable pub read_at : Bool → String → Option ℕ → Client → Exec (State V) Value
    unfolding call item
    read_at true path version client = do
      response ←
          call host engine hvac (hvac.read_secret_version client path version engine.kv_mount)
      envelope ← lift (item host.lower "data" response)
      lift (item host.lower "data" envelope)
    read_at false path version client = do
      response ← call host engine hvac (hvac.read_secret client path engine.kv_mount)
      lift (item host.lower "data" response)

    unfoldable pub read : String → Option ℕ → Exec (State V) Value
    unfolding get_client read_at
    read path version =
        get_client host engine hvac >>= read_at (engine.kv_version == 2) path version

    unfoldable pub write_at : Bool → String → Payload → Option ℕ → Client → Exec (State V) Value
    unfolding call item
    write_at true path material cas client = do
      response ←
          call host engine hvac (hvac.create_or_update_v2 client path material cas engine.kv_mount)
      envelope ← lift (item host.lower "data" response)
      lift (item host.lower "version" envelope)
    write_at false path material cas client = do
      call host engine hvac (hvac.create_or_update_v1 client path material engine.kv_mount)
      pure (int (pos 1))

    unfoldable pub write : String → Payload → Option ℕ → Exec (State V) Value
    unfolding get_client write_at
    write path material cas =
        get_client host engine hvac >>= write_at (engine.kv_version == 2) path material cas

    unfoldable pub delete_at :
        Bool → Bool → String → List (Option ℕ) → Client → Exec (State V) Value
    unfolding call
    delete_at true false path versions client =
        call host engine hvac (hvac.delete_secret_versions client path versions engine.kv_mount)
    delete_at true true path versions client =
        call host engine hvac (hvac.delete_metadata_and_all_versions client path engine.kv_mount)
    delete_at false _ path versions client =
        call host engine hvac (hvac.delete_secret client path engine.kv_mount)

    unfoldable pub delete : String → List (Option ℕ) → Exec (State V) (Unit {0})
    unfolding get_client delete_at
    delete path versions = do
      client ← get_client host engine hvac
      delete_at (engine.kv_version == 2) (is_nil versions) path versions client
      pure tt

    unfoldable pub metadata_of : String → Client → Exec (State V) Value
    unfolding call
    metadata_of path client =
        call host engine hvac (hvac.read_secret_metadata client path engine.kv_mount)

    unfoldable pub list_versions : String → Exec (State V) (List VersionEntry)
    unfolding require_kv2 get_client metadata_of listed
    list_versions path = do
      require_kv2 "Listing versions"
      client ← get_client host engine hvac
      response ← metadata_of path client
      lift (listed host response)

    unfoldable pub read_metadata : String → Exec (State V) Value
    unfolding require_kv2 get_client metadata_of data_or_empty
    read_metadata path = do
      require_kv2 "Reading metadata"
      client ← get_client host engine hvac
      response ← metadata_of path client
      lift (data_or_empty response)

    unfoldable pub update_at : String → Payload → Client → Exec (State V) Value
    unfolding call
    update_at path metadata client =
        call host engine hvac (hvac.update_metadata client path metadata engine.kv_mount)

    unfoldable pub set_metadata : String → Payload → Exec (State V) (Unit {0})
    unfolding require_kv2 get_client update_at
    set_metadata path metadata = do
      require_kv2 "Setting custom metadata"
      client ← get_client host engine hvac
      update_at path metadata client
      pure tt

    -- `authenticate`
    unfoldable pub authenticate : Exec (State V) (Unit {0})
    unfolding get_client
    authenticate = do get_client host engine hvac; pure tt

    -- `health`
    unfoldable pub probe : Client → Exec (State V) Health
    unfolding reported
    probe client s =
        let (result, service) = hvac.read_health_status client s.service in
        (reported host result, record s { service = service })

    unfoldable pub health : Exec (State V) Health
    unfolding build_client probe
    health = build_client host engine none >>= probe

    unfoldable pub vault_health : Exec (State V) Health
    unfolding health vault_report
    vault_health = do result ← health; pure (vault_report result (raw_fields result.raw))
