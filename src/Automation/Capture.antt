-- ===== src/Automation/Capture.antt =====
-- `capture_reference_identity` of automation.py: the identity that an authorization freezes.
use netbox_openbao.Errors.{automation_denied}
use netbox_openbao.Exec.{Exec, Outcome, ok, raise, lift, ◌>>=◌}
use netbox_openbao.World.{World, Env}
use netbox_openbao.Automation.Authority.{Authority, Identity, Surroundings}
use netbox_openbao.Automation.Metadata.{resolve_metadata, identity_of}
use netbox_openbao.Automation.Delivery.{atomic}

module _ {V : Type 0} (env : Env V) (around : Surroundings V) where
  unfoldable pub captured : Authority → Exec (World V) Identity
  unfolding resolve_metadata identity_of
  captured a = resolve_metadata around a >>= λ m. lift (identity_of around a m)

  -- `except Exception`
  unfoldable pub or_denied : Outcome Identity → Outcome Identity
  or_denied (ok identity) = ok identity
  or_denied (raise e) = raise automation_denied

  unfoldable pub capture_reference_identity : Authority → Exec (World V) Identity
  unfolding atomic captured or_denied
  capture_reference_identity a w =
      let (result, w') = atomic env (captured a) w in (or_denied result, w')
