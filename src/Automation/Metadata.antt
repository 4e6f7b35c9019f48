-- ===== src/Automation/Metadata.antt =====
-- The metadata of a resolution in automation.py: what is locked, who asks, and what may be read.
use netbox_openbao.Prelude.{
  ℕ, String, Bool, false, Option, none, some, List, [], ◌∷◌, keep, any, first, contains,
  contains_text, opt_eq, str_eq, not, ◌==◌, ◌&&◌, ◌||◌, is_some, if◌then◌else◌,
}
use netbox_openbao.Errors.{automation_denied, does_not_exist}
use netbox_openbao.Exec.{Exec, Outcome, ok, raise, pure, require, ◌>>=◌, ◌>>◌}
use netbox_openbao.Models.{Assignment, User, Db, find_credential}
use netbox_openbao.Models.Assignments.{label_of}
use netbox_openbao.Secrets.Schema.{Schema, VaultFields}
use netbox_openbao.Secrets.Registry.{get_schema}
use netbox_openbao.Secrets.Identity.{live_key_fingerprint_of}
use netbox_openbao.World.{World, lock_wait}
use netbox_openbao.Synchronization.Reader.{Graph, required, locked, lock_credential_graph}
use netbox_openbao.Automation.{admit, check_credential, automation_version}
use netbox_openbao.Services.Reveal.{is_blank_text}
use netbox_openbao.Automation.Authority.{Authority, Identity, Surroundings, same_identity}

-- `lift` of an outcome that was computed.
abbrev pub returning {ℓ} : {S A : Type ℓ} → Outcome A → Exec S A
returning r s = (r, s)

-- The chain of two outcomes.
infixl 10 ◌>>>=◌
abbrev ◌>>>=◌ {ℓ κ} : {A : Type ℓ} {B : Type κ} → Outcome A → (A → Outcome B) → Outcome B
ok a >>>= f = f a
raise e >>>= f = raise e

-- What `_resolve_metadata` returns, with the rows that it holds.
pub record Metadata : Type 0 where
  pub assignment : Assignment
  pub graph : Graph
  pub schema : Schema
  pub version : ℕ
  pub fields : VaultFields

unfoldable pub find_assignment : ℕ → Db → Option Assignment
find_assignment pk db = first (λ row. row.pk == pk) db.assignments

abbrev pub is_service : Assignment → Bool
is_service row = str_eq row.app_label "ipam" && str_eq row.model "service"

module _ {V : Type 0} (around : Surroundings V) where
  -- The filter of `_assignment_rows`.
  unfoldable pub binds : World V → Authority → Assignment → Bool
  unfolding find_credential
  binds w a row =
      ((str_eq row.app_label a.target_object.app_label
          && str_eq row.model a.target_object.model
          && row.object_id == a.target_id)
        || (is_service row
            && contains (around.services_on w (record a.target_object { object_id = a.target_id }))
                row.object_id))
      && str_eq row.purpose a.purpose
      && row.enabled
      && elim a.assignment_id [
        | some pk ↦ row.pk == pk
        | none ↦ elim (find_credential row.credential_id w.db) [
          | none ↦ false
          | some c ↦ str_eq c.uuid a.credential_uuid
        ]
      ]

  -- `_assignment_rows`
  unfoldable pub assignment_rows : World V → Authority → List Assignment
  unfolding binds
  assignment_rows w a = keep (binds w a) w.db.assignments

  abbrev pub among : List Assignment → ℕ → Bool
  among rows pk = any (λ row. row.pk == pk) rows

  -- `list(rows.order_by('pk')[:2])`, of which there must be one.
  abbrev pub only : List Assignment → Option Assignment
  only [] = none
  only (row ∷ []) = some row
  only (row ∷ _ ∷ _) = none

  -- `_lock_candidate_service`
  unfoldable pub lock_candidate_service : Assignment → Exec (World V) (Unit {0})
  unfolding lock_wait
  lock_candidate_service row w =
      if is_service row
      then require (around.service_exists (lock_wait w) row.object_id) automation_denied
          (lock_wait w)
      else (ok tt, w)

  -- The schema, and `select_for_update().get(pk=stored.pk)` for a stored type.
  unfoldable pub lock_stored : String → Exec (World V) (Unit {0})
  unfolding lock_wait get_schema
  lock_stored credential_type w = elim (get_schema w.db.stored_types credential_type) [
    | raise e ↦ (raise e, w)
    | ok schema ↦ if is_some schema.stored then (ok tt, lock_wait w) else (ok tt, w)
  ]

  -- The one row that `list(rows.order_by('pk')[:2])` must have.
  unfoldable pub candidate_of : Authority → Exec (World V) Assignment
  unfolding assignment_rows
  candidate_of a w = required (only (assignment_rows w a)) automation_denied w

  -- A service must still bind the row behind the waits.
  unfoldable pub recheck_service : Authority → Assignment → Assignment → Exec (World V) (Unit {0})
  unfolding assignment_rows
  recheck_service a candidate assignment w =
      require (not (is_service candidate) || among (assignment_rows w a) assignment.pk)
        automation_denied w

  -- `_lock_metadata`
  unfoldable pub lock_metadata : Authority → Exec (World V) (Assignment × Graph)
  unfolding assignment_rows lock_candidate_service lock_credential_graph locked lock_stored
      candidate_of recheck_service find_assignment
  lock_metadata a = do
    candidate ← candidate_of a
    lock_candidate_service candidate
    graph ← lock_credential_graph candidate.credential_id none
    row ← locked (find_assignment candidate.pk)
    assignment ← required row does_not_exist
    require (opt_eq graph.credential.pk (some assignment.credential_id)) automation_denied
    recheck_service a candidate assignment
    lock_stored graph.credential.credential_type
    pure (assignment, graph)

  -- `_actor`
  unfoldable pub actor_of : Authority → Exec (World V) User
  actor_of a w = elim (around.find_user w a.initiating_actor) [
    | none ↦ (raise automation_denied, w)
    | some user ↦ if user.is_active then (ok user, w) else (raise automation_denied, w)
  ]

  -- `_target`
  unfoldable pub check_target : Authority → User → Exec (World V) (Unit {0})
  check_target a actor w =
      if str_eq (label_of a.target_object) a.target_type
        && a.target_object.object_id == a.target_id
        && contains_text (around.assignable w) (label_of a.target_object)
        && around.views_target w actor a.target_object
      then (ok tt, w)
      else (raise automation_denied, w)

  -- `.restrict(actor, 'view').filter(pk=assignment.pk).exists()`, and `_check_service_visible`.
  unfoldable pub check_assignment : Authority → User → Assignment → Exec (World V) (Unit {0})
  unfolding assignment_rows
  check_assignment a actor assignment w =
      if any (λ row. row.pk == assignment.pk && around.views_assignment w actor row)
          (assignment_rows w a)
        && (not (is_service assignment) || around.views_service w actor assignment.object_id)
      then (ok tt, w)
      else (raise automation_denied, w)

  -- The last checks, with a schema that may be missing by then.
  unfoldable pub admit_under :
      Outcome Schema
      → (visible : Bool) → (now : ℕ) → Graph
      → User
      → Authority
      → Outcome (Schema × (ℕ × VaultFields))
  unfolding admit check_credential automation_version
  admit_under (ok schema) visible now g actor a =
      admit visible now g.credential g.policy schema actor a.reference a.reason >>>= λ found.
      ok (schema, found)
  admit_under (raise e) visible now g actor a =
      check_credential visible now g.credential g.policy actor >>>= λ _.
      (if g.policy.require_reason && is_blank_text a.reason
        then raise automation_denied
        else automation_version g.credential a.reference >>>= λ _. raise e)

  unfoldable pub admitted_to :
      Authority → User → Graph → Exec (World V) (Schema × (ℕ × VaultFields))
  unfolding admit_under get_schema
  admitted_to a actor g w = (
    admit_under (get_schema w.db.stored_types g.credential.credential_type)
        (around.reveals w actor g.credential) w.now g actor a,
    w,
  )

  -- `_resolve_metadata`
  unfoldable pub resolve_metadata : Authority → Exec (World V) Metadata
  unfolding lock_metadata actor_of check_target check_assignment admitted_to
  resolve_metadata a = do
    subject ← lock_metadata a
    actor ← actor_of a
    check_target a actor
    check_assignment a actor subject.0
    admitted ← admitted_to a actor subject.1
    pure (record {
      assignment = subject.0;
      graph = subject.1;
      schema = admitted.0;
      version = admitted.1.0;
      fields = admitted.1.1;
    })

  unfoldable pub identity_with : Authority → Metadata → Outcome String → Outcome Identity
  identity_with a m (raise e) = raise e
  identity_with a m (ok fingerprint) = ok (record {
    credential_uuid = m.graph.credential.uuid;
    assignment_id = m.assignment.pk;
    target_type = a.target_type;
    target_id = a.target_id;
    purpose = m.assignment.purpose;
    username = m.graph.credential.username;
    fingerprint = fingerprint;
    credential_type = m.graph.credential.credential_type;
    policy_id = m.graph.credential.policy_id;
    engine_id = m.graph.engine.pk;
    engine_identity = around.engine_identity m.graph.engine m.graph.credential.path;
    schema_digest = around.schema_digest m.schema;
  })

  -- `_identity`
  unfoldable pub identity_of : Authority → Metadata → Outcome Identity
  unfolding identity_with live_key_fingerprint_of
  identity_of a m =
      if m.graph.policy.engine_id == m.graph.engine.pk
      then identity_with a m (live_key_fingerprint_of m.graph.credential m.schema)
      else raise automation_denied

  -- `_require_identity`
  unfoldable pub require_identity : Authority → Metadata → Exec (World V) (Unit {0})
  unfolding identity_of
  require_identity a m w = elim (identity_of a m) [
    | raise e ↦ (raise e, w)
    | ok identity ↦ require (same_identity identity a.provider_identity) automation_denied w
  ]

  -- `_check_dispatch`: the lifetime, the permissions, and the lifetime again.
  unfoldable pub check_dispatch : Authority → Exec (World V) (Unit {0})
  check_dispatch a w =
      require (around.within_lifetime w a && around.rpc_permits w a) automation_denied w
