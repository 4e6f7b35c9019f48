-- ===== src/Services/Staging/Pointers.antt =====
-- The version pointers of a credential, and how the operations on its material move them.
use netbox_openbao.Prelude.{ℕ, ◌≤◌, ◌<◌, String, true, false, none, some, ◌≡◌}
use netbox_openbao.Models.{Credential, Action, stage}
use netbox_openbao.Services.Store.{record_version}
use netbox_openbao.Services.Staging.{promoted, discarded, pin_live}

-- The live version and the staged one were issued; a staged version is younger than a live one
-- that is pinned; and a fingerprint is bound to the version that it is recorded beside.
pub record Sound (c : Credential) : Type 0 where
  pub live : (l : ℕ) → c.live_kv_version ≡ some l → (k : ℕ) × (c.kv_version ≡ some k) × (l ≤ k)
  pub staged : (s : ℕ) → c.staged_kv_version ≡ some s → (k : ℕ) × (c.kv_version ≡ some k) × (s ≤ k)
  pub pinned :
      (s : ℕ) → c.staged_kv_version ≡ some s → (l : ℕ) × (c.live_kv_version ≡ some l) × (l < s)
  pub live_key : (v : ℕ) → c.live_key_version ≡ some v → c.live_kv_version ≡ some v
  pub staged_key : (v : ℕ) → c.staged_key_version ≡ some v → c.staged_kv_version ≡ some v

-- A version that a check-and-set write returns is younger than every one before it.
abbrev pub Younger : ℕ → Credential → Type 0
Younger version c = (k : ℕ) → c.kv_version ≡ some k → k < version

-- What one operation on the material does to the object: a write that is served at once, a write
-- that is staged, a promotion, a discard.
pub data Step : Credential → Credential → Type 0 where
  serve :
      (version now : ℕ) (fingerprint : String) (action : Action) (c : Credential)
      → Younger version c
      → Step c (record_version version now fingerprint action true c).0
  stage_one :
      (version now : ℕ) (fingerprint : String) (c : Credential) (k : ℕ)
      → c.staged_kv_version ≡ none
      → c.kv_version ≡ some k
      → Younger version c
      → Step c (record_version version now fingerprint stage false (pin_live c).0).0
  promote_one : (now : ℕ) (c : Credential) → Step c (promoted now c).0
  discard_one : (c : Credential) → Step c (discarded c).0

pub data Steps : Credential → Credential → Type 0 where
  none_yet : (c : Credential) → Steps c c
  then_one : {a b c : Credential} → Steps a b → Step b c → Steps a c
