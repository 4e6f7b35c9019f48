-- ===== src/Synchronization/Graph.antt =====
-- The declarations of a graph of rows, and the check of its participants, in
-- netbox_openbao/synchronization.py and material_transactions.py.
use netbox_openbao.Prelude.{
  ℕ, Bool, Option, none, some, List, [], ◌∷◌, ◌++◌, all, any, not, ◌==◌, opt_eq, first, ◌&&◌, ◌||◌,
  if◌then◌else◌,
}
use netbox_openbao.Errors.{
  Exn, openbao, worded, failed, invalid, relationships_changed, untranslated,
}
use netbox_openbao.Exec.{Outcome, ok, raise}
use netbox_openbao.Models.{Credential, Policy, Engine, Db, find_credential}
use netbox_openbao.World.{MaterialTransaction}

abbrev pub subset {ℓ} : {A : Type ℓ} → (A → A → Bool) → List A → List A → Bool
subset same requested known = all (λ x. any (same x) known) requested

-- One kind of a declaration: a frozen graph takes no new row.
unfoldable pub declare_kind {ℓ} :
    {A : Type ℓ} → (A → A → Bool) → Bool → List A → List A → Option (List A)
declare_kind same frozen known requested =
    if frozen && not (subset same requested known) then none else some (requested ++ known)

unfoldable pub graph_refused : Exn
unfolding worded
graph_refused =
    openbao (worded failed "All material participants must be locked before the first write.")

-- `declare_graph(credential=..., policy=...)`: the kinds are declared one after the other, and a
-- refused one leaves those before it declared.
unfoldable pub declare_rows :
    List ℕ → List ℕ → MaterialTransaction → Outcome (Unit {0}) × MaterialTransaction
unfolding declare_kind graph_refused
declare_rows credentials policies owner =
    elim (declare_kind ◌==◌ owner.graph_frozen owner.graph_ids.credential credentials) [
      | none ↦ (raise graph_refused, owner)
      | some known ↦
          let owner' = record owner { graph_ids = record owner.graph_ids { credential = known } } in
          elim (declare_kind ◌==◌ owner.graph_frozen owner.graph_ids.policy policies) [
            | none ↦ (raise graph_refused, owner')
            | some known' ↦
                (ok tt, record owner' { graph_ids = record owner'.graph_ids { policy = known' } })
          ]
    ]

-- `declare_graph(engine=...)`
unfoldable pub declare_engines :
    List (Option ℕ) → MaterialTransaction → Outcome (Unit {0}) × MaterialTransaction
unfolding declare_kind graph_refused
declare_engines engines owner =
    elim (declare_kind opt_eq owner.graph_frozen owner.graph_ids.engine engines) [
      | none ↦ (raise graph_refused, owner)
      | some known ↦ (ok tt, record owner { graph_ids = record owner.graph_ids { engine = known } })
    ]

-- `{subject.pk for subject in subjects if subject.pk is not None}`
abbrev pub subject_ids : List Credential → List ℕ
subject_ids [] = []
subject_ids (c ∷ rest) = elim c.pk [ none ↦ subject_ids rest | some pk ↦ pk ∷ subject_ids rest ]

-- The rows of the subjects, where each has one.
unfoldable pub selectors_of : List ℕ → Db → Option (List Credential)
unfolding find_credential
selectors_of [] db = some []
selectors_of (pk ∷ rest) db =
    let others = selectors_of rest db in
    elim (find_credential pk db) [
      | none ↦ none
      | some row ↦ elim others [ none ↦ none | some rows ↦ some (row ∷ rows) ]
    ]

-- `_check_material_participants`, for one row that is locked now, against what was read before.
unfoldable pub same_relations : Credential → Credential → Bool
same_relations now before =
    now.policy_id == before.policy_id && opt_eq now.engine_id before.engine_id

abbrev pub related : List Policy → List Engine → Credential → Bool
related policies engines c =
    any (λ p. p.pk == c.policy_id) policies && any (λ e. opt_eq c.engine_id (some e.pk)) engines

unfoldable pub check_participant :
    List Credential → List Policy → List Engine → Credential → Outcome (Unit {0})
unfolding same_relations
check_participant selectors policies engines c =
    if not (all (λ before. not (opt_eq before.pk c.pk) || same_relations c before) selectors)
    then raise (invalid relationships_changed)
    else if related policies engines c
    then ok tt
    else raise untranslated

unfoldable pub check_participants :
    List Credential → List Policy → List Engine → List Credential → Outcome (Unit {0})
unfolding check_participant
check_participants selectors policies engines [] = ok tt
check_participants selectors policies engines (c ∷ rest) =
    let others = check_participants selectors policies engines rest in
    elim (check_participant selectors policies engines c) [ raise e ↦ raise e | ok _ ↦ others ]

-- `locked[pk]`
unfoldable pub locked_row : Option ℕ → List Credential → Option Credential
locked_row none locked = none
locked_row (some pk) locked = first (λ row. opt_eq row.pk (some pk)) locked

-- The version state of the locked row; the other edits of the caller stay.
abbrev pub observe : Credential → Credential → Credential
observe fresh c = record c {
  kv_version = fresh.kv_version;
  live_kv_version = fresh.live_kv_version;
  staged_kv_version = fresh.staged_kv_version;
  live_key_fingerprint = fresh.live_key_fingerprint;
  live_key_version = fresh.live_key_version;
  staged_key_fingerprint = fresh.staged_key_fingerprint;
  staged_key_version = fresh.staged_key_version;
}
