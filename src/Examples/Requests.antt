-- ===== src/Examples/Requests.antt =====
-- The checks of the administration on concrete requests and answers.
use netbox_openbao.Prelude.{
  ℕ, suc, ◌≤◌, String, Bool, true, false, Option, none, some, List, [], ◌∷◌, ◌≡◌, ◌↔◌, refl, length,
  all, map, ltb, leb, if◌then◌else◌,
}
use netbox_openbao.Exec.{ok}
use netbox_openbao.Json.{pos, text, object, Fields, field, end}
use netbox_openbao.Models.Paths.{segments}
use netbox_openbao.Administration.Snapshots.{
  Bytes, Chunk, bytes, Reader, open_reader, read, take_chunk, clamp, max_snapshot_bytes,
}
use netbox_openbao.Administration.Snapshots.Download.{total_length}
use netbox_openbao.Administration.Snapshots.Upload.{Reads, stop, next, Reads-bounds}
use netbox_openbao.Administration.Wrapping.{
  done, validate_wrapping_json, encoded_length, max_wrapping_json_members, max_wrapping_json_bytes,
}
use netbox_openbao.Administration.Wrapping.Terminates.{Ends, validate_wrapping_json-Ends}
use netbox_openbao.Administration.Wrapping.Reviewed.{
  reviewed, members_below, validate_wrapping_json_iff,
}
use netbox_openbao.Administration.Redaction.{shown, normalize_access_response}
use netbox_openbao.Administration.Redaction.Complete.{
  redact, all_shown, normalize_access_response-redact,
}
use netbox_openbao.Administration.MountedPaths.{
  full_match, mount_char, resource_segment, normalize_mount_path, compile_mounted_path,
}
use netbox_openbao.Administration.MountedPaths.Confined.{compile_mounted_path-segments}

-- A stream that hands on as many zeros as are asked for.
abbrev zeros : ℕ → Bytes
zeros netbox_openbao.Prelude.zero = []
zeros (suc n) = 0 ∷ zeros n

abbrev stream : ℕ → ℕ → Chunk × ℕ
stream wanted state = (bytes (zeros wanted), suc state)

abbrev reader : ℕ → ℕ → Reader ℕ
reader state count = record { stream = state; size = 3; bytes_read = count }

three_bytes : Reads stream (reader 0 0) ((0 ∷ 0 ∷ []) ∷ (0 ∷ []) ∷ []) (reader 2 3)
unfolding read take_chunk clamp
three_bytes =
    next (some (pos 2)) (0 ∷ 0 ∷ []) _ (reader 0 0) (reader 1 2) (reader 2 3) refl
      (next none (0 ∷ []) [] (reader 1 2) (reader 2 3) (reader 2 3) refl (stop (reader 2 3)))

Reads-bounds_example :
    (total_length ((0 ∷ 0 ∷ []) ∷ (0 ∷ []) ∷ []) ≤ 3)
    × (3 ≤ max_snapshot_bytes)
    × (read stream none (reader 2 3) ≡ (ok [], reader 2 3)
        → total_length ((0 ∷ 0 ∷ []) ∷ (0 ∷ []) ∷ []) ≡ 3)
unfolding open_reader
Reads-bounds_example =
    Reads-bounds stream 0 3 (reader 0 0) (reader 2 3) (reader 2 3) ((0 ∷ 0 ∷ []) ∷ (0 ∷ []) ∷ [])
      refl three_bytes

-- A value with a secret below.
abbrev secret_fields : Fields
secret_fields =
    field "name" (text "ops") (field "auth" (object (field "Client_Token" (text "s.1") end)) end)

abbrev shown_fields : Fields
shown_fields = field "name" (text "ops") (field "auth" (object end) end)

abbrev lowered : String → String
lowered key = if netbox_openbao.Prelude.str_eq key "Client_Token" then "client_token" else key

validate_wrapping_json-Ends_example : Ends (validate_wrapping_json (λ x. "") (object secret_fields))
validate_wrapping_json-Ends_example = validate_wrapping_json-Ends (λ x. "") (object secret_fields)

validate_wrapping_json_iff_example :
    (validate_wrapping_json (λ x. "") (object secret_fields) ≡ done (ok tt)) ↔ (
      ((fields : Fields) × (object secret_fields ≡ object fields))
      × (reviewed 0 (object secret_fields) ≡ true)
      × (members_below (object secret_fields) ≤ max_wrapping_json_members)
      × (encoded_length (λ x. "") (object secret_fields) ≤ max_wrapping_json_bytes))
validate_wrapping_json_iff_example = validate_wrapping_json_iff (λ x. "") (object secret_fields)

normalize_access_response-redact_example :
    (object shown_fields ≡ redact (shown lowered false) (object secret_fields))
    × (all_shown (shown lowered false) (object shown_fields) ≡ true)
    × (all_shown (shown lowered false) (object secret_fields) ≡ true
        → object shown_fields ≡ object secret_fields)
    × (false ≡ true → object shown_fields ≡ object secret_fields)
unfolding normalize_access_response
normalize_access_response-redact_example =
    normalize_access_response-redact lowered false (object secret_fields) (object shown_fields) refl

compile_mounted_path-segments_example :
    (mount : String) × (resource : String) × (normalize_mount_path (text "/kv/") ≡ ok mount)
    × (text "data/app:web" ≡ text resource)
    × (full_match mount_char 127 mount ≡ true)
    × (all resource_segment (segments resource) ≡ true)
    × (segments "/kv/data/app:web" ≡ "" ∷ mount ∷ segments resource)
unfolding compile_mounted_path
compile_mounted_path-segments_example =
    compile_mounted_path-segments (text "/kv/") (text "data/app:web") "/kv/data/app:web" refl
