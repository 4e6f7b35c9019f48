-- ===== src/Services/Staging/Moves.antt =====
-- What the staging operations of netbox_openbao/services.py decide and change in the object.
use netbox_openbao.Prelude.{
  ℕ, ◌<>◌, String, Bool, true, false, Option, none, some, List, [], ◌∷◌, ◌++◌, not, is_some, str_eq,
  ◌==◌, ◌&&◌, strip, strip_end, if◌then◌else◌,
}
use netbox_openbao.Models.{Credential, active}
use netbox_openbao.Models.Columns.{Column, live_kv_version, staged_kv_version, last_rotated, status}
use netbox_openbao.Secrets.Identity.{clear_staged_key, promote_key_identity}
use netbox_openbao.Backends.{VersionInfo}

-- `has_staged_version` of models/credentials.py
abbrev pub has_staged_version : Credential → Bool
has_staged_version c = is_some c.staged_kv_version

-- `versions.get(credential.staged_kv_version)`: of two entries for a number the last one counts.
unfoldable pub find_version : Option ℕ → List VersionInfo → Option VersionInfo
find_version none listed = none
find_version (some n) [] = none
find_version (some n) (v ∷ rest) =
    let later = find_version (some n) rest in
    elim later [ some found ↦ some found | none ↦ if v.version == n then some v else none ]

-- `not (staged.get('destroyed') or staged.get('deletion_time'))`
abbrev pub still_there : VersionInfo → Bool
still_there v = not v.destroyed && elim v.deletion_time [ none ↦ true | some t ↦ str_eq t "" ]

abbrev pub present : Option VersionInfo → Bool
present none = false
present (some v) = still_there v

-- `live_kv_version` is pinned where there was none, so that a staged version is not the live one.
unfoldable pub pin_live : Credential → Credential × List Column
pin_live c = elim c.live_kv_version [
  | some _ ↦ (c, [])
  | none ↦ elim c.kv_version [
    | none ↦ (c, [])
    | some version ↦ (record c { live_kv_version = some version }, live_kv_version ∷ [])
  ]
]

-- The object and its columns once the staged version is the live one.
unfoldable pub promoted : (now : ℕ) → Credential → Credential × List Column
unfolding promote_key_identity
promoted now c =
    let (keyed, identity) = promote_key_identity c in
    (
      record keyed {
        live_kv_version = keyed.staged_kv_version;
        staged_kv_version = none;
        status = active;
        last_rotated = some now;
      },
      (live_kv_version ∷ staged_kv_version ∷ status ∷ last_rotated ∷ []) ++ identity,
    )

-- The object and its columns once the staged pointer is cleared; `kv_version` stays.
unfoldable pub discarded : Credential → Credential × List Column
unfolding clear_staged_key
discarded c =
    let (keyed, identity) = clear_staged_key c in
    (
      record keyed { staged_kv_version = none; status = active },
      (staged_kv_version ∷ status ∷ []) ++ identity,
    )

-- The note of a promotion, which says whether the material was verified.
unfoldable pub promotion_reason : (verified : Bool) → (note : String) → String
unfolding strip strip_end
promotion_reason verified note =
    if verified then strip_end (λ c. c == 58) (strip ("verified: " <> note)) else note

abbrev pub staged_number : Credential → ℕ
staged_number c = elim c.staged_kv_version [ none ↦ 0 | some n ↦ n ]
