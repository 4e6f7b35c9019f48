-- ===== src/MaterialTransactions/Cleanup.antt =====
-- `finish_deletions` of netbox_openbao/material_transactions.py: the deletions that wait for the
-- commit.
use netbox_openbao.Prelude.{
  ℕ, String, Bool, true, false, Option, none, some, List, [], ◌∷◌, not, ◌&&◌, is_nil, any,
  update_where, ◌==◌, if◌then◌else◌,
}
use netbox_openbao.Errors.{Exn, openbao, worded, failed}
use netbox_openbao.Exec.{Exec, ok, raise}
use netbox_openbao.Models.{Db}
use netbox_openbao.World.{MaterialAttempt, MaterialTransaction, World, Env, on_vault, write_db}
use netbox_openbao.MaterialTransactions.Compensation.{record_recovery}

-- Whether a row of the access log is still there.
abbrev pub has_log : Db → Option ℕ → Bool
has_log db none = false
has_log db (some pk) = any (λ row. row.pk == pk) db.access_log

unfoldable pub commit_required : Exn
unfolding worded
commit_required =
    openbao (worded failed "Staged cleanup requires a confirmed material transaction commit.")

module _ {V : Type 0} (env : Env V) where
  unfoldable pub mark_discarded : Option ℕ → Db → Db
  mark_discarded audit_id db = record db {
    access_log =
        update_where (λ row. elim audit_id [ none ↦ false | some pk ↦ row.pk == pk ])
          (λ row. record row {
            success = true;
            message = "Discard committed; its exact staged version was removed.";
          })
          db.access_log;
  }

  -- One deletion: whether it is complete. The log row has to be there to be updated.
  unfoldable pub finish_deletion : String → MaterialAttempt → World V → Bool × World V
  unfolding on_vault write_db mark_discarded record_recovery
  finish_deletion operation deletion w =
      let (r, w') =
        on_vault ((env.backend deletion.backend).delete deletion.path (deletion.version ∷ [])) w in
      let recorded = has_log w'.db deletion.audit_id in
      let complete : Bool = elim r [ ok _ ↦ recorded | raise _ ↦ false ] in
      if complete then (true, write_db (mark_discarded deletion.audit_id) w') else (
        false,
        record_recovery env operation deletion
            "Discard committed; cleanup or its audit requires reconciliation." w',
      )

  unfoldable pub finish_all : String → List MaterialAttempt → Bool → World V → Bool × World V
  unfolding finish_deletion
  finish_all operation [] complete w = (complete, w)
  finish_all operation (deletion ∷ rest) complete w =
      let (this, w') = finish_deletion operation deletion w in
      finish_all operation rest (complete && this) w'

  -- `finish_deletions`
  unfoldable pub finish_deletions : MaterialTransaction → Exec (World V) (Unit {0})
  unfolding finish_all worded commit_required
  finish_deletions owner w =
      if not (is_nil owner.deletions) && not owner.committed
      then (raise commit_required, w)
      else (let (complete, w') = finish_all owner.operation_id owner.deletions true w in
          if complete then (ok tt, w') else (
            raise (
                openbao (
                  worded failed
                    "Discard committed; cleanup is incomplete and requires reconciliation.")),
            w',
          ))
