-- ===== src/Synchronization/Locks.antt =====
-- What the locking of a graph guarantees, where it returns.
use netbox_openbao.Prelude.{
  ℕ, Bool, true, Option, none, some, List, [], ◌∷◌, ◌++◌, map, keep, all, any, contains, ◌≡◌, refl,
  arith, ◌∙◌, sym, subst, All, not, opt_eq, ◌||◌,
}
use netbox_openbao.Errors.{Exn, invalid, participant_missing}
use netbox_openbao.Exec.{Exec, Outcome, ok, raise, bind-ok, ◌>>=◌}
use netbox_openbao.Models.{Credential, Policy, Engine, Db}
use netbox_openbao.World.{MaterialTransaction, World}
use netbox_openbao.Synchronization.{
  lock_material_subjects, selectors_of, subject_ids, same_relations, check_participant,
  check_participants, declare_rows, declare_engines, on_owner, locking, freeze, check_and_freeze,
  lock_credentials, lock_engines, lock_policies, related,
}

-- The relations of a row that is locked now are those that were read before the wait.
abbrev pub Unmoved : List Credential → Credential → Type 0
Unmoved selectors c =
    all (λ before. not (opt_eq before.pk c.pk) || same_relations c before) selectors ≡ true

participant-ok :
    (selectors : List Credential) (policies : List Policy) (engines : List Engine) (c : Credential)
    (u : Unit)
    → check_participant selectors policies engines c ≡ ok u
    → Unmoved selectors c × (related policies engines c ≡ true)
unfolding check_participant
participant-ok selectors policies engines c u h = ground (arith, h)

-- Each row keeps its relations, and its policy and its engine are locked too.
participants-ok :
    (selectors : List Credential) (policies : List Policy) (engines : List Engine)
    (locked : List Credential) (u : Unit)
    → check_participants selectors policies engines locked ≡ ok u
    → All (λ c. Unmoved selectors c × (related policies engines c ≡ true)) locked
unfolding check_participants
participants-ok selectors policies engines [] u h = tt
participants-ok selectors policies engines (c ∷ rest) u h =
    go (check_participant selectors policies engines c) refl
      (participants-ok selectors policies engines rest u)
  where
    head-raises :
        (e : Exn)
        → check_participant selectors policies engines c ≡ raise e
        → check_participants selectors policies engines (c ∷ rest) ≡ raise e
    head-raises e at = cc at

    head-ok :
        (v : Unit)
        → check_participant selectors policies engines c ≡ ok v
        → check_participants selectors policies engines (c ∷ rest)
          ≡ check_participants selectors policies engines rest
    head-ok v at = cc at

    go :
        (r : Outcome (Unit {0}))
        → check_participant selectors policies engines c ≡ r
        → (check_participants selectors policies engines rest ≡ ok u
            → All (λ x. Unmoved selectors x × (related policies engines x ≡ true)) rest)
        → All (λ x. Unmoved selectors x × (related policies engines x ≡ true)) (c ∷ rest)
    go (raise e) at later = cc (head-raises e at, h)
    go (ok v) at later =
        (participant-ok selectors policies engines c v at, later (sym (head-ok v at) ∙ h))

-- The graph of the open transaction, if one is open.
abbrev pub frozen : Option MaterialTransaction → Bool
frozen none = true
frozen (some owner) = owner.graph_frozen

unmoved :
    (selectors : List Credential) (policies : List Policy) (engines : List Engine)
    (locked : List Credential)
    → All (λ c. Unmoved selectors c × (related policies engines c ≡ true)) locked
    → All (Unmoved selectors) locked
unmoved selectors policies engines [] kept = tt
unmoved selectors policies engines (c ∷ rest) ((moved, _), kept) =
    (moved, unmoved selectors policies engines rest kept)

module _ {V : Type 0} where
  check_and_freeze-ok :
      (selectors : List Credential) (policies : List Policy) (engines : List Engine)
      (locked result : List Credential) (s out : World V)
      → check_and_freeze selectors policies engines locked s ≡ (ok result, out)
      → (locked ≡ result)
        × (out ≡ freeze s)
        × All (λ c. Unmoved selectors c × (related policies engines c ≡ true)) locked
  unfolding check_and_freeze
  check_and_freeze-ok selectors policies engines locked result s out h =
      go (check_participants selectors policies engines locked) refl
    where
      raises :
          (e : Exn)
          → check_participants selectors policies engines locked ≡ raise e
          → check_and_freeze selectors policies engines locked s ≡ (raise e, s)
      raises e at = cc at

      goes :
          (u : Unit)
          → check_participants selectors policies engines locked ≡ ok u
          → check_and_freeze selectors policies engines locked s ≡ (ok locked, freeze s)
      goes u at = cc at

      go :
          (r : Outcome (Unit {0}))
          → check_participants selectors policies engines locked ≡ r
          → (locked ≡ result)
            × (out ≡ freeze s)
            × All (λ c. Unmoved selectors c × (related policies engines c ≡ true)) locked
      go (raise e) at = cc (raises e at, h)
      go (ok u) at = (
        cc (goes u at, h),
        cc (goes u at, h),
        participants-ok selectors policies engines locked u at,
      )

  -- The state of a locked graph: the rows that are locked are those of the subjects as they stand
  -- now, with the relations that were read first, and no row can be added to the graph.
  abbrev pub Locked : List ℕ → List Credential → List Credential → World V → Type 0
  Locked ids selectors rows out =
      (rows ≡ keep (λ c. any (λ pk. opt_eq c.pk (some pk)) ids) out.db.credentials)
      × All (Unmoved selectors) rows
      × (frozen out.owner ≡ true)

  freeze-frozen : (w : World V) → (frozen (freeze w).owner ≡ true) × ((freeze w).db ≡ w.db)
  unfolding freeze
  freeze-frozen w = ground arith

  locking-reads :
      {A : Type 0} (read : Db → A) (w s : World V) (a : A)
      → locking read w ≡ (ok a, s)
      → a ≡ read s.db
  unfolding locking
  locking-reads read w s a h = ground (arith, h)

  credentials-ok :
      (ids : List ℕ) (selectors : List Credential) (policies : List Policy) (engines : List Engine)
      (result : List Credential) (w out : World V)
      → lock_credentials ids selectors policies engines w ≡ (ok result, out)
      → Locked ids selectors result out
  unfolding lock_credentials
  credentials-ok ids selectors policies engines result w out h =
      let (locked, s, read, checked) =
        bind-ok (locking (λ db. keep (λ c. any (λ pk. opt_eq c.pk (some pk)) ids) db.credentials))
          (check_and_freeze selectors policies engines) w out result h in
      let (same, end, kept) =
        check_and_freeze-ok selectors policies engines locked result s out checked in
      let (closed, rows) = freeze-frozen s in
      let seen =
        locking-reads (λ db. keep (λ c. any (λ pk. opt_eq c.pk (some pk)) ids) db.credentials) w s
          locked read in
      (
        cc (same, seen, end, rows),
        subst (All (Unmoved selectors)) same (unmoved selectors policies engines locked kept),
        cc (closed, end),
      )

  engines-ok :
      (ids : List ℕ) (engine_ids : List (Option ℕ)) (selectors : List Credential)
      (policies : List Policy) (result : List Credential) (w out : World V)
      → lock_engines ids engine_ids selectors policies w ≡ (ok result, out)
      → Locked ids selectors result out
  unfolding lock_engines
  engines-ok ids engine_ids selectors policies result w out h =
      let read : Exec (World V) (List Engine) =
        locking (λ db. keep (λ e. any (opt_eq (some e.pk)) engine_ids) db.engines) in
      let rest = lock_credentials ids selectors policies in
      let (u, s, declared, then') =
        bind-ok (on_owner (declare_engines engine_ids)) (λ _. read >>= rest) w out result h in
      let (engines, t, seen, last) = bind-ok read rest s out result then' in
      credentials-ok ids selectors policies engines result t out last

  policies-ok :
      (subjects : List Credential) (policy_ids : List ℕ) (selectors result : List Credential)
      (w out : World V)
      → lock_policies subjects policy_ids selectors w ≡ (ok result, out)
      → Locked (subject_ids subjects) selectors result out
  unfolding lock_policies
  policies-ok subjects policy_ids selectors result w out h =
      let read : Exec (World V) (List Policy) =
        locking (λ db. keep (λ p. contains policy_ids p.pk) db.policies) in
      let rest : List Policy → Exec (World V) (List Credential) = λ policies.
        lock_engines (subject_ids subjects)
          (map (λ p. some p.engine_id) policies
            ++ map (λ c. c.engine_id) selectors
            ++ map (λ c. c.engine_id) subjects)
          selectors policies in
      let (u, s, declared, then') =
        bind-ok (on_owner (declare_rows (subject_ids subjects) policy_ids)) (λ _. read >>= rest) w
          out result h in
      let (policies, t, seen, last) = bind-ok read rest s out result then' in
      engines-ok (subject_ids subjects) _ selectors policies result t out last

-- Where the locking returns: the rows are those of the subjects as they stand behind the waits,
-- their policy and engine are the same as were read before the waits, and the graph of the open
-- transaction takes no further row.
pub lock_material_subjects-ok :
    {V : Type 0} (subjects : List Credential) (additional : List ℕ) (rows : List Credential)
    (w out : World V)
    → lock_material_subjects subjects additional w ≡ (ok rows, out)
    → (selectors : List Credential) × (selectors_of (subject_ids subjects) w.db ≡ some selectors)
      × Locked (subject_ids subjects) selectors rows out
unfolding lock_material_subjects
lock_material_subjects-ok subjects additional rows w out h =
    go (selectors_of (subject_ids subjects) w.db) refl
  where
    missing :
        selectors_of (subject_ids subjects) w.db ≡ none
        → lock_material_subjects subjects additional w ≡ (raise (invalid participant_missing), w)
    missing at = cc at

    present :
        (selectors : List Credential)
        → selectors_of (subject_ids subjects) w.db ≡ some selectors
        → lock_material_subjects subjects additional w
          ≡ lock_policies subjects
              (map (λ c. c.policy_id) selectors ++ map (λ c. c.policy_id) subjects ++ additional)
              selectors
              w
    present selectors at = cc at

    go :
        (o : Option (List Credential))
        → selectors_of (subject_ids subjects) w.db ≡ o
        → (selectors : List Credential) × (selectors_of (subject_ids subjects) w.db
            ≡ some selectors)
          × Locked (subject_ids subjects) selectors rows out
    go none at = cc (missing at, h)
    go (some selectors) at = (
      selectors,
      at,
      policies-ok subjects _ selectors rows w out (sym (present selectors at) ∙ h),
    )
