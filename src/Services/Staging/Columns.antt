-- ===== src/Services/Staging/Columns.antt =====
-- `save(update_fields=...)` of the material path names every column that its operation changed.
use netbox_openbao.Prelude.{ℕ, String, Bool, true, false, List, ◌≡◌, refl, arith}
use netbox_openbao.Models.{
  Credential, Action, reveal, write, rotate, stage, promote, discard, delete, configure,
}
use netbox_openbao.Models.Columns.{write_columns}
use netbox_openbao.Services.Store.{record_version}
use netbox_openbao.Services.Staging.{promoted, discarded, pin_live}

-- The row, once the columns are saved, is the object in memory.
abbrev pub Saves : Credential → Credential × List netbox_openbao.Models.Columns.Column → Type 0
Saves before (after, columns) = write_columns after columns before ≡ after

promoted-Saves : (now : ℕ) (c : Credential) → Saves c (promoted now c)
unfolding write_columns promoted
promoted-Saves now c = refl

discarded-Saves : (c : Credential) → Saves c (discarded c)
unfolding write_columns discarded
discarded-Saves c = refl

record_version-Saves :
    (version now : ℕ) (fingerprint : String) (action : Action) (promote : Bool) (c : Credential)
    → Saves c (record_version version now fingerprint action promote c)
unfolding write_columns record_version
record_version-Saves version now fingerprint rotate true c = refl
record_version-Saves version now fingerprint rotate false c = refl
record_version-Saves version now fingerprint stage true c = refl
record_version-Saves version now fingerprint stage false c = refl
record_version-Saves version now fingerprint _ true c = refl
record_version-Saves version now fingerprint _ false c = refl

pin_live-Saves : (c : Credential) → Saves c (pin_live c)
unfolding write_columns pin_live
pin_live-Saves c = ground arith

-- Each operation on the material of a credential saves every column that it changed: a write,
-- whatever its action and whether it is served at once, a promotion, a discard, and the pinning of
-- the live version.
pub operations-Saves :
    (version now : ℕ) (fingerprint : String) (action : Action) (served : Bool) (c : Credential)
    → Saves c (record_version version now fingerprint action served c)
      × Saves c (promoted now c)
      × Saves c (discarded c)
      × Saves c (pin_live c)
operations-Saves version now fingerprint action served c = (
  record_version-Saves version now fingerprint action served c,
  promoted-Saves now c,
  discarded-Saves c,
  pin_live-Saves c,
)
