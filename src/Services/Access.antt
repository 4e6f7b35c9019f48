-- ===== src/Services/Access.antt =====
-- `enforce_policy_access` and `enforce_update_access` of netbox_openbao/services.py: the coarse
-- group gate of a policy tier.
pub mod Gate
use netbox_openbao.Prelude.{
  ℕ, String, Bool, true, false, Option, none, some, List, [], any, contains, is_nil, ◌||◌,
  if◌then◌else◌,
}
use netbox_openbao.Errors.{Exn, permission_denied, does_not_exist}
use netbox_openbao.Exec.{Exec, Outcome, ok, raise, pure, throw, ◌>>=◌, ◌>>◌}
use netbox_openbao.Models.{
  Credential, Policy, User, Request, Action, Db, find_policy, find_credential,
}
use netbox_openbao.World.{World, Env}
use netbox_openbao.Services.Audit.{entry, log_access}

-- `user.groups.filter(pk__in=permitted).exists()`
abbrev pub in_groups : List ℕ → List ℕ → Bool
in_groups permitted groups = any (contains permitted) groups

-- `user is None or user.is_superuser`
abbrev pub exempt : Option User → Bool
exempt none = true
exempt (some u) = u.is_superuser

abbrev groups_of : Option User → List ℕ
groups_of none = []
groups_of (some u) = u.groups

-- A tier without groups does not use the gate.
unfoldable pub gate_open : Policy → Option User → Bool
gate_open policy user = is_nil policy.groups || in_groups policy.groups (groups_of user)

module _ {V : Type 0} (env : Env V) where
  refuse : Credential → Option User → Option Action → Option Request → Exec (World V) (Unit {0})
  unfolding log_access
  refuse c user none request = throw permission_denied
  refuse c user (some action) request =
      log_access env c user (entry action false "" "Policy group membership required.") request
      >> throw permission_denied

  check_gate :
      Credential
      → Option User
      → Option Action
      → Option Request
      → Option Policy
      → Exec (World V) (Unit {0})
  unfolding refuse gate_open
  check_gate c user action request none = throw does_not_exist
  check_gate c user action request (some policy) =
      if gate_open policy user then pure tt else refuse c user action request

  -- `credential.policy` is the row that the object in memory names.
  unfoldable pub enforce_policy_access :
      Credential → Option User → Option Action → Option Request → Exec (World V) (Unit {0})
  unfolding check_gate find_policy
  enforce_policy_access c user action request w =
      if exempt user
      then (ok tt, w)
      else check_gate c user action request (find_policy c.policy_id w.db) w

  check_committed :
      Option Credential → Option User → Option Action → Option Request → Exec (World V) (Unit {0})
  unfolding enforce_policy_access
  check_committed none user action request = pure tt
  check_committed (some row) user action request = enforce_policy_access row user action request

  -- The object in memory already carries the tier that the caller asks for, so the row is read
  -- again, and its tier is what the caller has to satisfy.
  unfoldable pub enforce_update_access :
      Option Credential → Option User → Option Action → Option Request → Exec (World V) (Unit {0})
  unfolding check_committed find_credential
  enforce_update_access none user action request w = (ok tt, w)
  enforce_update_access (some c) user action request w = elim c.pk [
    | none ↦ (ok tt, w)
    | some pk ↦ check_committed (find_credential pk w.db) user action request w
  ]
