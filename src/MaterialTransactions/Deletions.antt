-- ===== src/MaterialTransactions/Deletions.antt =====
-- The deletions that wait for a commit: none before it, and behind it exactly those that were
-- queued.
use netbox_openbao.Prelude.{
  Bool, true, false, List, [], ◌∷◌, ◌≡◌, refl, arith, ◌∙◌, ap, ◌⊎◌, inl, inr, is_nil, ◌&&◌, ◌||◌,
  String, Bool-cases,
}
use netbox_openbao.Exec.{raise}
use netbox_openbao.World.{MaterialAttempt, MaterialTransaction, World, Env}
use netbox_openbao.MaterialTransactions.{
  finish_deletion, finish_all, finish_deletions, commit_required,
}

-- The secret store once each queued version is deleted at its path, in the order of the queue.
pub delete_queued : {V : Type 0} → Env V → List MaterialAttempt → V → V
delete_queued env [] v = v
delete_queued env (d ∷ rest) v =
    delete_queued env rest ((env.backend d.backend).delete d.path (d.version ∷ []) v).1

module _ {V : Type 0} (env : Env V) where
  finish_deletion-vault :
      (operation : String) (d : MaterialAttempt) (w : World V)
      → (finish_deletion env operation d w).1.vault
        ≡ ((env.backend d.backend).delete d.path (d.version ∷ []) w.vault).1
  unfolding finish_deletion
  finish_deletion-vault operation d w = ground arith

  finish_all-vault :
      (operation : String) (ds : List MaterialAttempt) (complete : Bool) (w : World V)
      → (finish_all env operation ds complete w).1.vault ≡ delete_queued env ds w.vault
  unfolding finish_all delete_queued
  finish_all-vault operation [] complete w = refl
  finish_all-vault operation (d ∷ rest) complete w =
      let (this, w') = finish_deletion env operation d w in
      finish_all-vault operation rest (complete && this) w'
      ∙ ap (delete_queued env rest) (finish_deletion-vault operation d w)

-- Where nothing is queued or the transaction is committed, the clean-up leaves the secret store
-- without exactly the versions that were queued, each at its path, whatever comes out of it; where
-- something is queued and the transaction is not committed, it raises and changes nothing.
pub finish_deletions-cases :
    {V : Type 0} (env : Env V) (owner : MaterialTransaction) (w : World V)
    → (((is_nil owner.deletions || owner.committed) ≡ true)
        × ((finish_deletions env owner w).1.vault ≡ delete_queued env owner.deletions w.vault))
      ⊎ (((is_nil owner.deletions || owner.committed) ≡ false)
          × (finish_deletions env owner w ≡ (raise commit_required, w)))
unfolding finish_deletions
finish_deletions-cases env owner w = elim (Bool-cases (is_nil owner.deletions || owner.committed)) [
  | inl free ↦
      inl
        (free, ground (arith, free, finish_all-vault env owner.operation_id owner.deletions true w))
  | inr early ↦ inr (early, ground (arith, early))
]
