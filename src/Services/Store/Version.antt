-- ===== src/Services/Store/Version.antt =====
-- What `store_credential` and `write_material` of netbox_openbao/services.py change in the object.
use netbox_openbao.Prelude.{
  ℕ, String, Bool, true, false, none, some, List, [], ◌∷◌, ◌++◌, str_eq, if◌then◌else◌,
}
use netbox_openbao.Models.{Credential, Action, rotate, stage, staged}
use netbox_openbao.Models.Columns.{
  Column, kv_version, live_kv_version, staged_kv_version, last_verified, last_rotated, status,
}
use netbox_openbao.Secrets.Extractors.{Attribute, words, time, Metadata}
use netbox_openbao.Secrets.Identity.{record_key_version}

-- `setattr(credential, field, value)` for the columns that an extractor may fill.
unfoldable pub set_attribute : String → Attribute → Credential → Credential
set_attribute name (words s) c =
    if str_eq name "public_key"
    then record c { public_key = s }
    else if str_eq name "fingerprint"
    then record c { fingerprint = s }
    else if str_eq name "key_type"
    then record c { key_type = s }
    else if str_eq name "cert_serial"
    then record c { cert_serial = s }
    else if str_eq name "cert_subject"
    then record c { cert_subject = s }
    else if str_eq name "cert_issuer"
    then record c { cert_issuer = s }
    else c
set_attribute name (time t) c =
    if str_eq name "valid_from"
    then record c { valid_from = some t }
    else if str_eq name "valid_until"
    then record c { valid_until = some t }
    else c
set_attribute name _ c = c

unfoldable pub set_attributes : Metadata → Credential → Credential
unfolding set_attribute
set_attributes [] c = c
set_attributes ((name, value) ∷ rest) c = set_attributes rest (set_attribute name value c)

unfoldable pub move_pointers :
    (version : ℕ) → (promote : Bool) → Credential → Credential × List Column
move_pointers version true c = (
  record c { live_kv_version = some version; staged_kv_version = none },
  live_kv_version ∷ staged_kv_version ∷ [],
)
move_pointers version false c =
    (record c { staged_kv_version = some version }, staged_kv_version ∷ [])

unfoldable pub note_action : (now : ℕ) → Action → Credential → Credential × List Column
note_action now rotate c = (record c { last_rotated = some now }, last_rotated ∷ [])
note_action now stage c = (record c { status = staged }, status ∷ [])
note_action now action c = (c, [])

-- What a new version changes in the object, and the columns that are saved of it.
unfoldable pub record_version :
    (version now : ℕ)
    → (fingerprint : String) → Action
    → (promote : Bool) → Credential
    → Credential × List Column
unfolding record_key_version move_pointers note_action
record_version version now fingerprint action promote c =
    let (keyed, identity) =
      record_key_version (record c { kv_version = some version; last_verified = some now })
        fingerprint (some version) promote in
    let (moved, pointers) = move_pointers version promote keyed in
    let (noted, extra) = note_action now action moved in
    (noted, (kv_version ∷ last_verified ∷ []) ++ identity ++ pointers ++ extra)
