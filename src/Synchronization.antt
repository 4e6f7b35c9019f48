-- ===== src/Synchronization.antt =====
-- netbox_openbao/synchronization.py, and `declare_graph` of material_transactions.py: the graph of
-- rows that a change to material declares and locks before its first write.
mod Graph
pub mod Reader
pub mod Locks
pub mod Result
pub use Graph.{subset, subject_ids, related, observe}
unfoldable pub use Graph.{
  declare_kind, graph_refused, declare_rows, declare_engines, selectors_of, same_relations,
  check_participant, check_participants, locked_row,
}
use netbox_openbao.Prelude.{
  ℕ, String, Bool, true, false, Option, none, some, List, [], ◌∷◌, ◌++◌, map, all, any, keep, not,
  contains, ◌==◌, opt_eq, first, is_some, ◌&&◌, ◌||◌, if◌then◌else◌,
}
use netbox_openbao.Errors.{
  Exn, openbao, worded, failed, invalid, relationships_changed, participant_missing, untranslated,
  does_not_exist,
}
use netbox_openbao.Exec.{Exec, Outcome, ok, raise, pure, throw, gets, modify, require, ◌>>=◌, ◌>>◌}
use netbox_openbao.Models.{
  Credential, Policy, Engine, User, Request, Action, Db, find_credential, find_policy, find_engine,
}
use netbox_openbao.World.{MaterialTransaction, GraphIds, World, Env, lock_wait}
use netbox_openbao.Services.Audit.{entry, log_access}
use netbox_openbao.MaterialTransactions.{current_material_transaction, material_transaction}

module _ {V : Type 0} where
  -- A method of the owner that may raise and that may have changed it.
  on_owner :
      (MaterialTransaction → Outcome (Unit {0}) × MaterialTransaction) → Exec (World V) (Unit {0})
  unfolding current_material_transaction
  on_owner method = current_material_transaction >>= λ owner w.
      (let (r, owner') = method owner in (r, record w { owner = some owner' }))

  -- `select_for_update()`: the wait, and then what the statement reads.
  locking : {A : Type 0} → (Db → A) → Exec (World V) A
  unfolding lock_wait
  locking read w = let w' = lock_wait w in (ok (read w'.db), w')

  freeze : World V → World V
  freeze w = elim w.owner [
    | none ↦ w
    | some owner ↦ record w { owner = some (record owner { graph_frozen = true }) }
  ]

  -- The check behind the last wait, and the end of the declarations.
  check_and_freeze :
      List Credential
      → List Policy
      → List Engine
      → List Credential
      → Exec (World V) (List Credential)
  unfolding check_participants freeze
  check_and_freeze selectors policies engines locked w =
      elim (check_participants selectors policies engines locked) [
        | raise e ↦ (raise e, w)
        | ok _ ↦ (ok locked, freeze w)
      ]

  lock_credentials :
      List ℕ → List Credential → List Policy → List Engine → Exec (World V) (List Credential)
  unfolding locking check_and_freeze
  lock_credentials ids selectors policies engines =
      locking (λ db. keep (λ c. any (λ pk. opt_eq c.pk (some pk)) ids) db.credentials)
      >>= check_and_freeze selectors policies engines

  lock_engines :
      List ℕ → List (Option ℕ) → List Credential → List Policy → Exec (World V) (List Credential)
  unfolding on_owner declare_engines locking lock_credentials
  lock_engines ids engine_ids selectors policies = on_owner (declare_engines engine_ids) >>= λ _.
      locking (λ db. keep (λ e. any (opt_eq (some e.pk)) engine_ids) db.engines)
      >>= lock_credentials ids selectors policies

  lock_policies : List Credential → List ℕ → List Credential → Exec (World V) (List Credential)
  unfolding on_owner declare_rows locking lock_engines
  lock_policies subjects policy_ids selectors =
      on_owner (declare_rows (subject_ids subjects) policy_ids) >>= λ _.
      locking (λ db. keep (λ p. contains policy_ids p.pk) db.policies) >>= λ policies.
      lock_engines (subject_ids subjects)
        (map (λ p. some p.engine_id) policies
          ++ map (λ c. c.engine_id) selectors
          ++ map (λ c. c.engine_id) subjects)
        selectors policies

  -- `lock_material_subjects`: what is read first says which policies are locked, and their rows
  -- which engines.
  unfoldable pub lock_material_subjects :
      List Credential → List ℕ → Exec (World V) (List Credential)
  unfolding selectors_of lock_policies
  lock_material_subjects subjects additional w = elim (selectors_of (subject_ids subjects) w.db) [
    | none ↦ (raise (invalid participant_missing), w)
    | some selectors ↦
        lock_policies subjects
          (map (λ c. c.policy_id) selectors ++ map (λ c. c.policy_id) subjects ++ additional)
          selectors w
  ]

  -- `refresh_material_selectors`: `objects.get` of the policy and of the engine.
  unfoldable pub refresh_material_selectors : Credential → Exec (World V) (Unit {0})
  unfolding find_policy find_engine
  refresh_material_selectors c w =
      if is_some (find_policy c.policy_id w.db)
        && is_some (elim c.engine_id [ none ↦ none | some pk ↦ find_engine pk w.db ])
      then (ok tt, w)
      else (raise does_not_exist, w)

  -- `target_policy.refresh_from_db()`, and its engine.
  refresh_target : Option Policy → Exec (World V) (Unit {0})
  unfolding find_policy find_engine
  refresh_target none w = (ok tt, w)
  refresh_target (some p) w = elim (find_policy p.pk w.db) [
    | none ↦ (raise does_not_exist, w)
    | some row ↦
        if is_some (find_engine row.engine_id w.db) then (ok tt, w) else (raise does_not_exist, w)
  ]

  observe_locked : Credential → Option Policy → List Credential → Exec (World V) (Option Credential)
  unfolding locked_row refresh_material_selectors refresh_target
  observe_locked c target locked = elim c.pk [
    | none ↦ refresh_material_selectors c >>= λ _. pure (some c)
    | some pk ↦ elim (locked_row (some pk) locked) [
      | none ↦ throw untranslated
      | some fresh ↦
          let c' = observe fresh c in
          refresh_material_selectors c' >>= λ _. refresh_target target >>= λ _. pure (some c')
    ]
  ]

  -- `lock_material_subject`: the subject comes back as its object is left.
  unfoldable pub lock_material_subject :
      Option Credential → Option Policy → Exec (World V) (Option Credential)
  unfolding lock_material_subjects observe_locked worded
  lock_material_subject none none = throw (
      openbao (
        worded failed
          "A material subject or destination policy must be declared before persistence."))
  lock_material_subject none (some target) =
      lock_material_subjects [] (target.pk ∷ []) >>= λ _. pure none
  lock_material_subject (some c) target =
      lock_material_subjects (c ∷ []) (elim target [ none ↦ c.policy_id | some p ↦ p.pk ] ∷ [])
      >>= observe_locked c target

  -- `refresh_from_db()`: the object takes every column of its row.
  reload : Credential → List Credential → Exec (World V) Credential
  unfolding locked_row find_credential
  reload c locked w = elim c.pk [
    | none ↦ (raise untranslated, w)
    | some pk ↦ elim (locked_row (some pk) locked) [
      | none ↦ (raise untranslated, w)
      | some _ ↦ elim (find_credential pk w.db) [
        | none ↦ (raise does_not_exist, w)
        | some row ↦ (ok row, record w { held = some row })
      ]
    ]
  ]

  -- The body that `synchronized_material_change` runs in the transaction.
  unfoldable pub synchronized_body :
      {A : Type 0} → Credential → (Credential → Exec (World V) A) → Exec (World V) A
  unfolding lock_material_subjects reload
  synchronized_body c function = lock_material_subjects (c ∷ []) [] >>= reload c >>= function

module _ {V : Type 0} (env : Env V) where
  abbrev pub incomplete_message : String
  incomplete_message = "Material operation did not complete; inspect its reconciliation records."

  log_incomplete :
      {A : Type 0}
      → Action
      → Credential
      → Option User
      → Option Request
      → Outcome A
      → Exec (World V) A
  unfolding log_access
  log_incomplete action c user request (ok a) w = (ok a, w)
  log_incomplete action c user request (raise e) w = (
    raise e,
    (log_access env (elim w.held [ none ↦ c | some row ↦ row ]) user
        (entry action false "" incomplete_message) request w).1,
  )

  -- `synchronized_material_change`
  unfoldable pub synchronized_material_change :
      {A : Type 0}
      → Action
      → Credential
      → Option User
      → Option Request
      → (Credential → Exec (World V) A)
      → Exec (World V) A
  unfolding material_transaction synchronized_body log_incomplete
  synchronized_material_change action c user request function w =
      let (r, w') =
        material_transaction env (synchronized_body c function) (record w { held = none }) in
      log_incomplete action c user request r w'
