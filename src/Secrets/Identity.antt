-- ===== src/Secrets/Identity.antt =====
-- netbox_openbao/secrets/identity.py: the public identity of an SSH key, bound to the version of
-- the material that it was derived from.
use Prim.Native.Char.{code}
use netbox_openbao.Prelude.{
  ℕ, zero, suc, String, Bool, true, false, Option, none, some, List, [], ◌∷◌, ◌==◌, ◌&&◌, ◌||◌, not,
  leb, opt_eq, str_eq, truncate, if◌then◌else◌,
}
use netbox_openbao.Errors.{Exn, openbao, worded, failed, untranslated}
use netbox_openbao.Exec.{Outcome, ok, raise}
use netbox_openbao.Json.{text, Payload}
use netbox_openbao.Models.{Credential}
use netbox_openbao.Models.Columns.{
  Column, live_key_fingerprint, live_key_version, staged_key_fingerprint, staged_key_version,
}
use netbox_openbao.Secrets.Schema.{Schema}
use netbox_openbao.Secrets.Extractors.{Crypto, Metadata, words, extract_ssh_metadata}
use netbox_openbao.Secrets.Registry.{StoredTypes, get, get_schema}

abbrev pub is_ssh : Schema → Bool
is_ssh schema = elim schema.extractor [ none ↦ false | some name ↦ str_eq name "ssh" ]

-- The class `[A-Za-z0-9+/]`
base64_char : ℕ → Bool
base64_char c =
    (leb 65 c && leb c 90)
    || (leb 97 c && leb c 122)
    || (leb 48 c && leb c 57)
    || c == 43
    || c == 47

-- Exactly `n` characters of the class.
base64_run : ℕ → String → Bool
unfolding base64_char
base64_run zero String.[] = true
base64_run zero (String.◌∷◌ _ _) = false
base64_run (suc n) String.[] = false
base64_run (suc n) (String.◌∷◌ c s) = base64_char (code c) && base64_run n s

skip : ℕ → String → String
skip zero s = s
skip (suc n) String.[] = ""
skip (suc n) (String.◌∷◌ c s) = skip n s

-- `re.fullmatch(r'SHA256:[A-Za-z0-9+/]{43}', text)`
unfoldable pub is_key_fingerprint : String → Bool
unfolding base64_run skip truncate
is_key_fingerprint s = str_eq (truncate 7 s) "SHA256:" && base64_run 43 (skip 7 s)

-- `extract_ssh_metadata(...)['fingerprint']`
fingerprint_of : Outcome Metadata → Outcome String
unfolding get
fingerprint_of (raise e) = raise e
fingerprint_of (ok m) = elim (get "fingerprint" m) [
  | some (words s) ↦ ok s
  | _ ↦ raise untranslated
]

-- `extract_ssh_metadata(payload.get('private_key', ''), payload.get('passphrase'))['fingerprint']`
unfoldable pub payload_fingerprint : Crypto → Payload → Outcome String
unfolding fingerprint_of extract_ssh_metadata get
payload_fingerprint crypto payload = fingerprint_of (
    extract_ssh_metadata crypto
      (elim (get "private_key" payload) [ none ↦ text "" | some key ↦ key ])
      (get "passphrase" payload))

derive_with : Crypto → Outcome Schema → Payload → Outcome String
unfolding payload_fingerprint
derive_with crypto (raise e) payload = raise e
derive_with crypto (ok schema) payload =
    if is_ssh schema then payload_fingerprint crypto payload else ok ""

unfoldable pub derive_key_fingerprint : Crypto → StoredTypes → String → Payload → Outcome String
unfolding derive_with get_schema
derive_key_fingerprint crypto stored name payload =
    derive_with crypto (get_schema stored name) payload

-- A legacy or mismatched identity of an SSH type is refused.
unfoldable pub live_key_fingerprint_of : Credential → Schema → Outcome String
unfolding is_key_fingerprint worded
live_key_fingerprint_of c schema =
    if not (is_ssh schema)
    then ok c.fingerprint
    else if not (opt_eq c.live_key_version c.live_kv_version)
        || not (is_key_fingerprint c.live_key_fingerprint)
    then raise (openbao (worded failed "The live credential identity is not verified."))
    else ok c.live_key_fingerprint

abbrev unverified : Exn
unverified = openbao (record {
  class = failed;
  message = "The credential bundle identity does not match its authorization.";
  status_code = none;
})

check_actual : Outcome String → String → Outcome (Unit {0})
check_actual (raise e) expected = raise unverified
check_actual (ok actual) expected =
    if not (str_eq expected "") && str_eq actual expected then ok tt else raise unverified

verify_with : Crypto → Bool → Outcome Schema → Payload → String → Outcome (Unit {0})
unfolding check_actual payload_fingerprint
verify_with crypto true schema payload expected =
    check_actual (payload_fingerprint crypto payload) expected
verify_with crypto false (raise e) payload expected = raise e
verify_with crypto false (ok schema) payload expected =
    if is_ssh schema then check_actual (payload_fingerprint crypto payload) expected else ok tt

-- `expected_fingerprint` is blank where the caller has none.
unfoldable pub verify_bundle_identity :
    Crypto → StoredTypes → Credential → Payload → String → Outcome (Unit {0})
unfolding verify_with is_key_fingerprint get_schema
verify_bundle_identity crypto stored c payload expected =
    verify_with crypto (is_key_fingerprint expected) (get_schema stored c.credential_type) payload
      expected

unfoldable pub clear_staged_key : Credential → Credential × List Column
clear_staged_key c = (
  record c { staged_key_fingerprint = ""; staged_key_version = none },
  staged_key_fingerprint ∷ staged_key_version ∷ [],
)

-- `version if fingerprint else None`
abbrev version_if : String → Option ℕ → Option ℕ
version_if fingerprint version = if str_eq fingerprint "" then none else version

unfoldable pub record_key_version :
    Credential → String → Option ℕ → (promote : Bool) → Credential × List Column
unfolding clear_staged_key
record_key_version c fingerprint version true =
    let (c', cleared) = clear_staged_key (record c {
      live_key_fingerprint = fingerprint;
      live_key_version = version_if fingerprint version;
    }) in
    (c', live_key_fingerprint ∷ live_key_version ∷ cleared)
record_key_version c fingerprint version false = (
  record c {
    staged_key_fingerprint = fingerprint;
    staged_key_version = version_if fingerprint version;
  },
  staged_key_fingerprint ∷ staged_key_version ∷ [],
)

unfoldable pub promote_key_identity : Credential → Credential × List Column
unfolding record_key_version
promote_key_identity c =
    record_key_version c
      (if opt_eq c.staged_key_version c.staged_kv_version then c.staged_key_fingerprint else "")
      c.staged_kv_version true
