-- ===== src/MaterialTransactions/Undo.antt =====
-- What `recover` of material_transactions.py does to the secret store and to the database.
use netbox_openbao.Prelude.{
  String, Bool, true, false, none, some, List, [], ◌∷◌, ◌≡◌, refl, arith, ◌||◌, ◌∙◌, if◌then◌else◌,
}
use netbox_openbao.Models.{AccessLog, Db}
use netbox_openbao.World.{MaterialAttempt, MaterialTransaction, World, Env}
use netbox_openbao.Services.Audit.{create_log}
use netbox_openbao.MaterialTransactions.{
  record_recovery, recover_attempt, recover_attempts, note_deletions, recover, reversed,
  discard_recovery_message,
}

-- Every table but the access log is the same.
pub record SameRows (a b : Db) : Type 0 where
  pub credentials : a.credentials ≡ b.credentials
  pub policies : a.policies ≡ b.policies
  pub engines : a.engines ≡ b.engines
  pub assignments : a.assignments ≡ b.assignments
  pub auth_materials : a.auth_materials ≡ b.auth_materials
  pub receipts : a.receipts ≡ b.receipts
  pub settings : a.settings ≡ b.settings

pub SameRows-refl : (a : Db) → SameRows a a
SameRows-refl a = ground arith

pub SameRows-trans : {a b c : Db} → SameRows a b → SameRows b c → SameRows a c
SameRows-trans p q = ground arith

module _ {V : Type 0} (env : Env V) where
  -- The exact versions of the attempts are deleted, in the order of the list.
  pub undo : List MaterialAttempt → V → V
  undo [] v = v
  undo (a ∷ rest) v = elim a.version [
    | none ↦ undo rest v
    | some version ↦ undo rest ((env.backend a.backend).delete a.path (some version ∷ []) v).1
  ]

  create_log-vault : (row : AccessLog) (w : World V) → (create_log env row w).1.vault ≡ w.vault
  unfolding create_log
  create_log-vault row w = ground arith

  create_log-SameRows : (row : AccessLog) (w : World V) → SameRows (create_log env row w).1.db w.db
  unfolding create_log
  create_log-SameRows row w = ground arith

  recover_attempt-vault :
      (operation : String) (committed unknown : Bool) (a : MaterialAttempt) (w : World V)
      → (recover_attempt env operation committed unknown a w).vault
        ≡ (if unknown || committed then w.vault else undo (a ∷ []) w.vault)
  unfolding recover_attempt undo
  recover_attempt-vault operation true true a w = ground arith
  recover_attempt-vault operation true false a w = ground arith
  recover_attempt-vault operation false true a w = ground arith
  recover_attempt-vault operation false false a w = ground arith

  recover_attempt-SameRows :
      (operation : String) (committed unknown : Bool) (a : MaterialAttempt) (w : World V)
      → SameRows (recover_attempt env operation committed unknown a w).db w.db
  unfolding recover_attempt
  recover_attempt-SameRows operation true unknown a w = ground arith
  recover_attempt-SameRows operation false true a w = ground arith
  recover_attempt-SameRows operation false false a w = ground arith

  undo-cons :
      (a : MaterialAttempt) (rest : List MaterialAttempt) (v : V)
      → undo (a ∷ rest) v ≡ undo rest (undo (a ∷ []) v)
  unfolding undo
  undo-cons a rest v = ground arith

  recover_attempts-vault :
      (operation : String) (committed unknown : Bool) (attempts : List MaterialAttempt)
      (w : World V)
      → (recover_attempts env operation committed unknown attempts w).vault
        ≡ (if unknown || committed then w.vault else undo attempts w.vault)
  unfolding recover_attempts
  recover_attempts-vault operation committed unknown [] w = unfold undo in ground arith
  recover_attempts-vault operation committed unknown (a ∷ rest) w =
      let w' = recover_attempt env operation committed unknown a w in
      ground (
        arith,
        recover_attempts-vault operation committed unknown rest w',
        recover_attempt-vault operation committed unknown a w,
        undo-cons a rest w.vault,
      )

  recover_attempts-SameRows :
      (operation : String) (committed unknown : Bool) (attempts : List MaterialAttempt)
      (w : World V)
      → SameRows (recover_attempts env operation committed unknown attempts w).db w.db
  unfolding recover_attempts
  recover_attempts-SameRows operation committed unknown [] w = SameRows-refl w.db
  recover_attempts-SameRows operation committed unknown (a ∷ rest) w =
      SameRows-trans
        (recover_attempts-SameRows operation committed unknown rest
          (recover_attempt env operation committed unknown a w))
        (recover_attempt-SameRows operation committed unknown a w)

  note_deletions-vault :
      (operation : String) (message : String) (ds : List MaterialAttempt) (w : World V)
      → (note_deletions env operation message ds w).vault ≡ w.vault
  unfolding note_deletions record_recovery
  note_deletions-vault operation message [] w = refl
  note_deletions-vault operation message (d ∷ rest) w =
      note_deletions-vault operation message rest (record_recovery env operation d message w)
      ∙ create_log-vault _ w

  note_deletions-SameRows :
      (operation : String) (message : String) (ds : List MaterialAttempt) (w : World V)
      → SameRows (note_deletions env operation message ds w).db w.db
  unfolding note_deletions record_recovery
  note_deletions-SameRows operation message [] w = SameRows-refl w.db
  note_deletions-SameRows operation message (d ∷ rest) w =
      SameRows-trans
        (note_deletions-SameRows operation message rest (record_recovery env operation d message w))
        (create_log-SameRows _ w)

  -- Nothing is deleted after a commit, or where it is not known whether there was one; after a
  -- rollback the exact versions of the attempts are, the last one first.
  pub recover-vault :
      (owner : MaterialTransaction) (unknown : Bool) (w : World V)
      → (recover env owner unknown w).vault
        ≡ (if unknown || owner.committed then w.vault else undo (reversed owner.attempts) w.vault)
  unfolding recover
  recover-vault owner unknown w =
      note_deletions-vault owner.operation_id (discard_recovery_message owner.committed unknown)
        owner.deletions
        (recover_attempts env owner.operation_id owner.committed unknown (reversed owner.attempts)
          w)
      ∙ recover_attempts-vault owner.operation_id owner.committed unknown (reversed owner.attempts)
          w

  pub recover-SameRows :
      (owner : MaterialTransaction) (unknown : Bool) (w : World V)
      → SameRows (recover env owner unknown w).db w.db
  unfolding recover
  recover-SameRows owner unknown w =
      SameRows-trans
        (note_deletions-SameRows owner.operation_id
          (discard_recovery_message owner.committed unknown) owner.deletions
          (recover_attempts env owner.operation_id owner.committed unknown (reversed owner.attempts)
            w))
        (recover_attempts-SameRows owner.operation_id owner.committed unknown
          (reversed owner.attempts) w)
