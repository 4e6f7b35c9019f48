-- ===== src/Services/Deletion.antt =====
-- `delete_material` of netbox_openbao/services.py, and the callback `destroy` of
-- netbox_openbao/signals.py that runs it once the deletion of the row has committed.
use netbox_openbao.Prelude.{String, Bool, true, false, Option, none, some, [], is_some}
use netbox_openbao.Errors.{openbao, untranslated}
use netbox_openbao.Exec.{Exec, Outcome, ok, raise}
use netbox_openbao.Models.{Credential, User, Request, delete, Db, find_credential}
use netbox_openbao.Backends.{Backend}
use netbox_openbao.World.{World, Env, on_vault}
use netbox_openbao.Services.Audit.{Entry, log_access}
use netbox_openbao.Services.Projection.{credential_backend}

-- `_row_exists`
unfoldable pub row_exists : Credential → Db → Bool
unfolding find_credential
row_exists c db = elim c.pk [ none ↦ false | some pk ↦ is_some (find_credential pk db) ]

abbrev deletion_entry : Bool → Bool → String → Entry
deletion_entry link success message = record {
  action = delete;
  success = success;
  reason = "";
  message = message;
  link = link;
}

module _ {V : Type 0} (env : Env V) where
  log_deletion :
      Credential
      → Option User
      → Option Request
      → Bool
      → Outcome (Unit {0})
      → Exec (World V) (Unit {0})
  unfolding log_access
  log_deletion c user request link (ok _) w =
      (ok tt, (log_access env c user (deletion_entry link true "") request w).1)
  log_deletion c user request link (raise (openbao e)) w =
      (raise (openbao e), (log_access env c user (deletion_entry link false e.message) request w).1)
  log_deletion c user request link (raise e) w = (raise e, w)

  delete_through :
      Credential → Option User → Option Request → Option Backend → Exec (World V) (Unit {0})
  unfolding log_deletion on_vault row_exists
  delete_through c user request none w = (raise untranslated, w)
  delete_through c user request (some backend) w =
      let link = row_exists c w.db in
      let (r, w') = on_vault ((env.backend backend).delete c.path []) w in
      log_deletion c user request link r w'

  unfoldable pub delete_material :
      Credential → Option User → Option Request → Exec (World V) (Unit {0})
  unfolding delete_through credential_backend
  delete_material c user request w = delete_through c user request (credential_backend env c w.db) w

  -- Every failure is only logged.
  unfoldable pub destroy_material : Credential → World V → World V
  unfolding delete_material
  destroy_material c w = (delete_material c none none w).1
