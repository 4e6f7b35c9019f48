-- ===== src/Automation/Spent/Quiet.antt =====
-- The parts of a resolution change the state by waits for locks and by rows of other tables than
-- that of the receipts only.
use netbox_openbao.Prelude.{
  ℕ, String, Option, none, some, List, ◌≡◌, refl, Bool-cases, inl, inr, not, ◌&&◌, ◌||◌, is_some,
  opt_eq, if◌then◌else◌, arith,
}
use netbox_openbao.Errors.{Exn, automation_denied, does_not_exist}
use netbox_openbao.Exec.{Outcome, ok, raise, pure, require}
use netbox_openbao.Exec.Keeps.{Keeps, Keeps-bind, Keeps-still, Keeps-require, Keeps-if}
use netbox_openbao.Models.{Credential, Policy, Engine, Assignment, User, Db, find_credential}
use netbox_openbao.World.{World, lock_wait}
use netbox_openbao.Secrets.Schema.{Schema}
use netbox_openbao.Secrets.Registry.{get_schema}
use netbox_openbao.Synchronization.Reader.{
  Graph, required, locked, selectors_of, policy_rows, engine_rows, policy_ids_of, bound,
  lock_credential_graph,
}
use netbox_openbao.Automation.Authority.{Authority, Identity, Surroundings, same_identity}
use netbox_openbao.Automation.Metadata.{
  Metadata, resolve_metadata, require_identity, check_dispatch, lock_metadata, assignment_rows,
  only, lock_candidate_service, lock_stored, candidate_of, recheck_service, find_assignment,
  admitted_to, is_service, among, actor_of, check_target, check_assignment, identity_of,
}

module _ {V : Type 0} (P : World V → Type 0) (waits : (w : World V) → P w → P (lock_wait w)) where
  pub Keeps-required : {A : Type 0} (o : Option A) (e : Exn) → Keeps P (required o e)
  Keeps-required none e = record { at = λ s h. h }
  Keeps-required (some a) e = record { at = λ s h. h }

  Keeps-locked : {A : Type 0} (read : Db → A) → Keeps P (locked read)
  unfolding locked
  Keeps-locked read = record { at = waits }

  selectors_of-Keeps : (pk : ℕ) → Keeps P (selectors_of {V = V} pk)
  unfolding selectors_of
  selectors_of-Keeps pk = record {
    at = λ s h. (Keeps-required (find_credential pk s.db) does_not_exist).at s h;
  }

  bound-still :
      (before : Credential) (policies : List Policy) (engines : List Engine) (c : Credential)
      (s : World V)
      → (bound before policies engines c s).1 ≡ s
  unfolding bound
  bound-still before policies engines c s = refl

  pub lock_credential_graph-Keeps :
      (pk : ℕ) (additional : Option ℕ) → Keeps P (lock_credential_graph {V = V} pk additional)
  unfolding lock_credential_graph
  lock_credential_graph-Keeps pk additional =
      Keeps-bind (selectors_of pk) _ (selectors_of-Keeps pk) λ before.
        Keeps-bind (locked (policy_rows (policy_ids_of before.policy_id additional))) _
          (Keeps-locked (policy_rows (policy_ids_of before.policy_id additional)))
          λ policies.
            Keeps-bind (locked (engine_rows policies before.engine_id)) _
              (Keeps-locked (engine_rows policies before.engine_id))
              λ engines.
                Keeps-bind (locked (find_credential pk)) _ (Keeps-locked (find_credential pk))
                  λ row.
                    Keeps-bind (required row does_not_exist) _ (Keeps-required row does_not_exist)
                      λ c.
                        Keeps-still (bound before policies engines c)
                          (bound-still before policies engines c)

  module _ (around : Surroundings V) where
    lock_candidate_service-Keeps : (row : Assignment) → Keeps P (lock_candidate_service around row)
    unfolding lock_candidate_service
    lock_candidate_service-Keeps row =
        Keeps-if (is_service row) _ (pure tt)
          (record {
            at = λ s h.
                (Keeps-require {P = P} (around.service_exists (lock_wait s) row.object_id)
                    automation_denied).at
                  (lock_wait s) (waits s h);
          })
          (Keeps-still (pure tt) (λ s. refl))

    lock_stored-Keeps : (name : String) → Keeps P (lock_stored around name)
    unfolding lock_stored
    lock_stored-Keeps name = record { at = λ s h. go s h (get_schema s.db.stored_types name) }
      where
        go :
            (s : World V)
            → P s
            → (r : Outcome Schema)
            → P
                (elim r as (λ _. Outcome (Unit {0}) × World V) [
                  | raise e ↦ (raise e, s)
                  | ok schema ↦ if is_some schema.stored then (ok tt, lock_wait s) else (ok tt, s)
                ]).1
        go s h (raise e) = h
        go s h (ok schema) = elim (Bool-cases (is_some schema.stored)) [
          | inl held ↦ rw held (waits s h)
          | inr free ↦ rw free h
        ]

    candidate_of-Keeps : (a : Authority) → Keeps P (candidate_of around a)
    unfolding candidate_of
    candidate_of-Keeps a = record {
      at = λ s h.
          (Keeps-required (only around (assignment_rows around s a)) automation_denied).at s h;
    }

    recheck_service-Keeps :
        (a : Authority) (candidate row : Assignment)
        → Keeps P (recheck_service around a candidate row)
    unfolding recheck_service
    recheck_service-Keeps a candidate row = record {
      at = λ s h.
          (Keeps-require {P = P}
              (not (is_service candidate) || among around (assignment_rows around s a) row.pk)
              automation_denied).at
            s h;
    }

    lock_metadata-Keeps : (a : Authority) → Keeps P (lock_metadata around a)
    unfolding lock_metadata
    lock_metadata-Keeps a = Keeps-bind (candidate_of around a) _ (candidate_of-Keeps a) λ candidate.
        Keeps-bind (lock_candidate_service around candidate) _
          (lock_candidate_service-Keeps candidate)
          λ _.
            Keeps-bind (lock_credential_graph candidate.credential_id none) _
              (lock_credential_graph-Keeps candidate.credential_id none)
              λ graph.
                Keeps-bind (locked (find_assignment candidate.pk)) _
                  (Keeps-locked (find_assignment candidate.pk))
                  λ row.
                    Keeps-bind (required row does_not_exist) _ (Keeps-required row does_not_exist)
                      λ assignment.
                        Keeps-bind
                          (require (opt_eq graph.credential.pk (some assignment.credential_id))
                            automation_denied)
                          _ (Keeps-require _ automation_denied)
                          λ _.
                            Keeps-bind (recheck_service around a candidate assignment) _
                              (recheck_service-Keeps a candidate assignment)
                              λ _.
                                Keeps-bind (lock_stored around graph.credential.credential_type) _
                                  (lock_stored-Keeps graph.credential.credential_type)
                                  λ _. Keeps-still (pure (assignment, graph)) (λ s. refl)

    actor_of-still : (a : Authority) (s : World V) → (actor_of around a s).1 ≡ s
    unfolding actor_of
    actor_of-still a s = go (around.find_user s a.initiating_actor)
      where
        go :
            (found : Option User)
            → (elim found as (λ _. Outcome User × World V) [
              | none ↦ (raise automation_denied, s)
              | some user ↦ if user.is_active then (ok user, s) else (raise automation_denied, s)
            ]).1
              ≡ s
        go none = refl
        go (some user) = ground arith

    check_target-still :
        (a : Authority) (u : User) (s : World V) → (check_target around a u s).1 ≡ s
    unfolding check_target
    check_target-still a u s = ground arith

    check_assignment-still :
        (a : Authority) (u : User) (row : Assignment) (s : World V)
        → (check_assignment around a u row s).1 ≡ s
    unfolding check_assignment
    check_assignment-still a u row s = ground arith

    admitted_to-still :
        (a : Authority) (u : User) (g : Graph) (s : World V) → (admitted_to around a u g s).1 ≡ s
    unfolding admitted_to
    admitted_to-still a u g s = refl

    pub resolve_metadata-Keeps : (a : Authority) → Keeps P (resolve_metadata around a)
    unfolding resolve_metadata
    resolve_metadata-Keeps a =
        Keeps-bind (lock_metadata around a) _ (lock_metadata-Keeps a) λ subject.
          Keeps-bind (actor_of around a) _ (Keeps-still _ (actor_of-still a)) λ actor.
            Keeps-bind (check_target around a actor) _ (Keeps-still _ (check_target-still a actor))
              λ _.
                Keeps-bind (check_assignment around a actor subject.0) _
                  (Keeps-still _ (check_assignment-still a actor subject.0))
                  λ _.
                    Keeps-bind (admitted_to around a actor subject.1) _
                      (Keeps-still _ (admitted_to-still a actor subject.1))
                      λ admitted. record { at = λ s h. h }

    pub check_dispatch-Keeps : (a : Authority) → Keeps P (check_dispatch around a)
    unfolding check_dispatch
    check_dispatch-Keeps a = record {
      at = λ s h.
          (Keeps-require {P = P} (around.within_lifetime s a && around.rpc_permits s a)
              automation_denied).at
            s h;
    }

    pub require_identity-Keeps :
        (a : Authority) (m : Metadata) → Keeps P (require_identity around a m)
    unfolding require_identity
    require_identity-Keeps a m = record { at = λ s h. go s h (identity_of around a m) }
      where
        go :
            (s : World V)
            → P s
            → (r : Outcome Identity)
            → P
                (elim r as (λ _. Outcome (Unit {0}) × World V) [
                  | raise e ↦ (raise e, s)
                  | ok identity ↦
                      require (same_identity identity a.provider_identity) automation_denied s
                ]).1
        go s h (raise e) = h
        go s h (ok identity) =
            (Keeps-require {P = P} (same_identity identity a.provider_identity)
                automation_denied).at
              s h
