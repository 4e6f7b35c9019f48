-- ===== src/Secrets/Extractors.antt =====
-- netbox_openbao/secrets/extractors.py: the public half of a key pair, and the identity of a
-- certificate. The cryptography package, base64 and SHA-256 are the record `Crypto`.
use Prim.Native.Char.{code}
use netbox_openbao.Prelude.{
  ℕ, ◌<>◌, String, Bool, Option, none, some, List, [], ◌∷◌, ◌||◌, ◌==◌, if◌then◌else◌,
}
use netbox_openbao.Errors.{invalid, other_invalid}
use netbox_openbao.Exec.{Outcome, ok, raise}
use netbox_openbao.Json.{Value, text, truthy}

-- The classes of public keys that `_ssh_key_type` tells apart.
pub data KeyClass : Type 0 where
  ed25519 : KeyClass
  -- `key_size`, printed
  rsa : String → KeyClass
  -- `curve.name`
  elliptic : String → KeyClass
  -- the lowered name of any other class, without `PublicKey`
  other_class : String → KeyClass

-- What the code reads of a loaded private key: the OpenSSH line of its public half, which
-- `public_bytes` may refuse to give, and its class.
pub record LoadedKey : Type 0 where
  pub openssh : Option String
  pub class : KeyClass

pub record Certificate : Type 0 where
  pub subject : String
  pub issuer : String
  pub serial : String
  pub not_before : ℕ
  pub not_after : ℕ
  pub sha256_hex : String
  pub key_class : KeyClass
  pub public_pem : String
  pub alternative_names : Option (List String)

pub record Crypto : Type 0 where
  -- `str(value)` of a value that is no text
  pub printed : Value → String
  pub load_ssh_private_key : String → Option String → Option LoadedKey
  pub load_pem_private_key : String → Option String → Option LoadedKey
  pub load_pem_certificate : String → Option Certificate
  pub load_der_certificate : String → Option Certificate
  pub b64decode : String → Option String
  pub sha256 : String → String
  -- `b64encode(...).rstrip('=')`
  pub b64encode_stripped : String → String

-- A value of the extracted attributes.
pub data Attribute : Type 0 where
  words : String → Attribute
  time : ℕ → Attribute
  names : List String → Attribute

abbrev pub Metadata : Type 0
Metadata = List (String × Attribute)

-- The characters at which `bytes.split()` splits.
is_space : ℕ → Bool
is_space c = c == 32 || c == 9 || c == 10 || c == 11 || c == 12 || c == 13

cons_word : String → List String → List String
cons_word String.[] rest = rest
cons_word (String.◌∷◌ c w) rest = String.◌∷◌ c w ∷ rest

-- The word that is being read, and those behind it.
split_at : String → String × List String
unfolding is_space cons_word
split_at String.[] = ("", [])
split_at (String.◌∷◌ c s) =
    let (word, rest) = split_at s in
    if is_space (code c) then ("", cons_word word rest) else (String.◌∷◌ c word, rest)

-- `text.split()`
unfoldable pub split_words : String → List String
unfolding split_at cons_word
split_words s = let (word, rest) = split_at s in cons_word word rest

-- `_ssh_key_type`
unfoldable pub ssh_key_type : KeyClass → String
ssh_key_type ed25519 = "ed25519"
ssh_key_type (rsa size) = "rsa-" <> size
ssh_key_type (elliptic curve) = "ecdsa-" <> curve
ssh_key_type (other_class name) = name

module _ (crypto : Crypto) where
  open crypto use {
    printed, load_ssh_private_key, load_pem_private_key, load_pem_certificate, load_der_certificate,
    b64decode, sha256, b64encode_stripped,
  }

  -- `_as_bytes`
  unfoldable pub as_bytes : Value → String
  as_bytes (text s) = s
  as_bytes v = printed v

  fingerprint_of_blob : Option String → Outcome String
  fingerprint_of_blob none = raise (invalid other_invalid)
  fingerprint_of_blob (some blob) = ok ("SHA256:" <> b64encode_stripped (sha256 blob))

  fingerprint_of_words : List String → Outcome String
  unfolding fingerprint_of_blob
  fingerprint_of_words (kind ∷ blob ∷ _) = fingerprint_of_blob (b64decode blob)
  fingerprint_of_words _ = raise (invalid other_invalid)

  unfoldable pub ssh_fingerprint : String → Outcome String
  unfolding fingerprint_of_words split_words
  ssh_fingerprint line = fingerprint_of_words (split_words line)

  -- `password = _as_bytes(passphrase) if passphrase else None`
  password_of : Option Value → Option String
  unfolding as_bytes truthy
  password_of none = none
  password_of (some p) = if truthy p then some (as_bytes p) else none

  -- The two loaders, in their order.
  load_key : String → Option String → Option LoadedKey
  load_key material password = elim (load_ssh_private_key material password) [
    | some key ↦ some key
    | none ↦ load_pem_private_key material password
  ]

  ssh_metadata : KeyClass → String → Outcome String → Outcome Metadata
  unfolding ssh_key_type
  ssh_metadata class line (raise e) = raise e
  ssh_metadata class line (ok fingerprint) = ok (
      ("public_key", words line)
      ∷ ("fingerprint", words fingerprint)
      ∷ ("key_type", words (ssh_key_type class))
      ∷ [])

  describe_key : Option LoadedKey → Outcome Metadata
  unfolding ssh_metadata ssh_fingerprint
  describe_key none = raise (invalid other_invalid)
  describe_key (some key) = elim key.openssh [
    | none ↦ raise (invalid other_invalid)
    | some line ↦ ssh_metadata key.class line (ssh_fingerprint line)
  ]

  unfoldable pub extract_ssh_metadata : Value → Option Value → Outcome Metadata
  unfolding describe_key load_key password_of as_bytes
  extract_ssh_metadata private_key passphrase =
      describe_key (load_key (as_bytes private_key) (password_of passphrase))

  load_certificate : String → Option Certificate
  load_certificate material = elim (load_pem_certificate material) [
    | some cert ↦ some cert
    | none ↦ load_der_certificate material
  ]

  describe_certificate : Option Certificate → Outcome Metadata
  unfolding ssh_key_type
  describe_certificate none = raise (invalid other_invalid)
  describe_certificate (some cert) = ok (
      ("cert_subject", words cert.subject)
      ∷ ("cert_issuer", words cert.issuer)
      ∷ ("cert_serial", words cert.serial)
      ∷ ("valid_from", time cert.not_before)
      ∷ ("valid_until", time cert.not_after)
      ∷ ("fingerprint", words ("SHA256:" <> cert.sha256_hex))
      ∷ ("key_type", words (ssh_key_type cert.key_class))
      ∷ ("public_key", words cert.public_pem)
      ∷ (
        "subject_alternative_names",
        names (elim cert.alternative_names [ none ↦ [] | some sans ↦ sans ]),
      )
      ∷ [])

  unfoldable pub extract_certificate_metadata : Value → Outcome Metadata
  unfolding describe_certificate load_certificate as_bytes
  extract_certificate_metadata certificate =
      describe_certificate (load_certificate (as_bytes certificate))
