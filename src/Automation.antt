-- ===== src/Automation.antt =====
-- The checks of netbox_openbao/automation.py on a credential that an execution asks for: who acts,
-- when, at which version and for which fields.
pub mod Admitted
pub mod Authority
pub mod Metadata
pub mod Delivery
pub mod Capture
pub mod Spent
use netbox_openbao.Prelude.{
  ℕ, String, Bool, true, false, Option, none, some, List, [], ◌∷◌, not, ◌&&◌, ◌||◌, ltb, leb, ◌==◌,
  opt_eq, is_nil, all, contains_text, str_eq, if◌then◌else◌,
}
use netbox_openbao.Errors.{Exn, automation_denied}
use netbox_openbao.Exec.{Outcome, ok, raise}
use netbox_openbao.Models.{
  Credential, Policy, User, Status, active, staged, rotating, expired, retired, compromised,
}
use netbox_openbao.Secrets.Schema.{FieldSpec, VaultFields, Schema}
use netbox_openbao.Secrets.Registry.{get, keys}
use netbox_openbao.Services.Access.{in_groups}
use netbox_openbao.Services.Reveal.{is_blank_text}

-- What the code reads of the frozen reference of an authority: the version that it is pinned to,
-- if its policy is `pinned`, and the fields that it names.
pub record Reference : Type 0 where
  pub pinned : Option ℕ
  pub fields : List String

abbrev valid_status : Status → Bool
valid_status active = true
valid_status staged = true
valid_status _ = false

-- `credential.valid_from and credential.valid_from > now`
abbrev too_early : ℕ → Option ℕ → Bool
too_early now none = false
too_early now (some from) = ltb now from

-- `credential.valid_until and credential.valid_until <= now`
abbrev too_late : ℕ → Option ℕ → Bool
too_late now none = false
too_late now (some until) = leb until now

abbrev outside_groups : Policy → User → Bool
outside_groups policy actor =
    not (is_nil policy.groups)
    && not actor.is_superuser
    && not (in_groups policy.groups actor.groups)

abbrev refuse_if : Bool → Outcome (Unit {0}) → Outcome (Unit {0})
refuse_if true rest = raise automation_denied
refuse_if false rest = rest

-- `_check_credential`; `visible` says whether NetBox shows the credential to the actor for a
-- reveal.
unfoldable pub check_credential :
    (visible : Bool) → (now : ℕ) → Credential → Policy → User → Outcome (Unit {0})
check_credential visible now c policy actor = refuse_if (not visible) (
    refuse_if (not (valid_status c.status)) (
      refuse_if (too_early now c.valid_from)
        (refuse_if (too_late now c.valid_until) (refuse_if (outside_groups policy actor) (ok tt)))))

abbrev other_pin : Option ℕ → ℕ → Bool
other_pin none version = false
other_pin (some n) version = not (n == version)

-- `_version`
unfoldable pub automation_version : Credential → Reference → Outcome ℕ
automation_version c reference = elim c.live_kv_version [
  | none ↦ raise automation_denied
  | some version ↦
      if version == 0 || opt_eq (some version) c.staged_kv_version
      then raise automation_denied
      else if other_pin reference.pinned version
      then raise automation_denied
      else ok version
]

-- `{field: declared[field] for field in fields}`
select_fields : List String → VaultFields → Option VaultFields
unfolding get
select_fields [] declared = some []
select_fields (name ∷ rest) declared =
    let others = select_fields rest declared in
    elim (get name declared) [
      | none ↦ none
      | some spec ↦ elim others [ none ↦ none | some specs ↦ some ((name, spec) ∷ specs) ]
    ]

-- `_fields`
unfoldable pub automation_fields : Schema → Reference → Outcome VaultFields
unfolding select_fields
automation_fields schema reference =
    if is_nil reference.fields
    then raise automation_denied
    else elim (select_fields reference.fields schema.vault_fields) [
      | none ↦ raise automation_denied
      | some specs ↦ ok specs
    ]

with_fields : ℕ → Outcome VaultFields → Outcome (ℕ × VaultFields)
with_fields version (raise e) = raise e
with_fields version (ok specs) = ok (version, specs)

with_version : Outcome ℕ → Outcome VaultFields → Outcome (ℕ × VaultFields)
unfolding with_fields
with_version (raise e) fields = raise e
with_version (ok version) fields = with_fields version fields

-- The last part of `_resolve_metadata`, behind the locks and the checks of the assignment.
unfoldable pub admit :
    (visible : Bool)
    → (now : ℕ) → Credential
    → Policy
    → Schema
    → User
    → Reference
    → (reason : String) → Outcome (ℕ × VaultFields)
unfolding check_credential automation_version automation_fields with_version is_blank_text
admit visible now c policy schema actor reference reason =
    elim (check_credential visible now c policy actor) [
      | raise e ↦ raise e
      | ok _ ↦
          if policy.require_reason && is_blank_text reason
          then raise automation_denied
          else with_version (automation_version c reference) (automation_fields schema reference)
    ]
