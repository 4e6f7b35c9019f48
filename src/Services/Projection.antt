-- ===== src/Services/Projection.antt =====
-- `build_custom_metadata`, `_publish_custom_metadata` and `defer_custom_metadata` of
-- netbox_openbao/services.py: the projection of a committed credential to the secret store.
use netbox_openbao.Prelude.{
  ℕ, ◌<>◌, String, Bool, false, Option, none, some, List, [], ◌∷◌, map, keep, not, str_eq,
  print_number, join, ◌==◌, if◌then◌else◌,
}
use netbox_openbao.Models.{
  Credential, Policy, Assignment, Db, find_credential, find_policy, find_engine,
}
use netbox_openbao.Backends.{Backend, get_backend}
use netbox_openbao.World.{World, Env, publish, on_vault, on_commit, lock_wait}

print_pk : Option ℕ → String
unfolding print_number
print_pk none = "None"
print_pk (some n) = print_number n

assignment_label : Assignment → String
unfolding print_number
assignment_label a = a.app_label <> ("." <> (a.model <> (":" <> print_number a.object_id)))

abbrev owned_by : Option ℕ → Assignment → Bool
owned_by none a = false
owned_by (some pk) a = a.credential_id == pk

policy_slug : Option Policy → String
policy_slug none = ""
policy_slug (some p) = p.slug

module _ {V : Type 0} (env : Env V) where
  -- Values that are empty are dropped.
  unfoldable pub build_custom_metadata : Credential → Db → List (String × String)
  unfolding print_pk assignment_label policy_slug find_policy join
  build_custom_metadata c db =
      keep (λ item. not (str_eq item.1 ""))
        (("managed_by", "netbox-openbao")
          ∷ ("netbox_credential_id", print_pk c.pk)
          ∷ ("netbox_credential_uuid", c.uuid)
          ∷ ("netbox_credential_type", c.credential_type)
          ∷ ("netbox_policy", policy_slug (find_policy c.policy_id db))
          ∷ (
            "netbox_assignments",
            join "," (map assignment_label (keep (owned_by c.pk) db.assignments)),
          )
          ∷ ("netbox_import_source", c.import_source)
          ∷ ("netbox_url", env.credential_url c)
          ∷ [])

  -- The backend of a credential, `get_backend(credential.engine, credential.policy)`: none where
  -- a row that it names is missing, which foreign keys rule out.
  unfoldable pub credential_backend : Credential → Db → Option Backend
  unfolding find_policy find_engine get_backend
  credential_backend c db = elim c.engine_id [
    | none ↦ none
    | some engine_id ↦ elim (find_engine engine_id db) [
      | none ↦ none
      | some engine ↦ elim (find_policy c.policy_id db) [
        | none ↦ none
        | some policy ↦ some (get_backend engine (some policy) db)
      ]
    ]
  ]

  set_projection : Credential → Option Backend → World V → World V
  unfolding build_custom_metadata on_vault
  set_projection c none w = w
  set_projection c (some backend) w =
      (on_vault ((env.backend backend).set_metadata c.path (build_custom_metadata c w.db)) w).1

  publish_locked : Option Credential → World V → World V
  unfolding set_projection credential_backend
  publish_locked none w = w
  publish_locked (some c) w = set_projection c (credential_backend c w.db) w

  publish_source : ℕ → Option Credential → World V → World V
  unfolding publish_locked lock_wait find_credential
  publish_source pk none w = w
  publish_source pk (some _) w =
      let w' = lock_wait w in publish_locked (find_credential pk w'.db) w'

  -- The credential is read, the projection is locked, and the credential is read again; a failure
  -- of the store is only logged, so nothing is raised.
  unfoldable pub publish_custom_metadata : ℕ → World V → World V
  unfolding publish_source find_credential
  publish_custom_metadata pk w = publish_source pk (find_credential pk w.db) w

-- `sorted(set(filter(None, ids)))`: an unsaved credential has no number, and 0 is falsy.
insert_id : ℕ → List ℕ → List ℕ
insert_id n [] = n ∷ []
insert_id n (m ∷ ms) = elim (Prim.Native.Nat.compare n m) [
  | Prim.Native.Nat.Ordering.lt ↦ n ∷ m ∷ ms
  | Prim.Native.Nat.Ordering.eq ↦ m ∷ ms
  | Prim.Native.Nat.Ordering.gt ↦ m ∷ insert_id n ms
]

unfoldable pub durable_ids : List (Option ℕ) → List ℕ
unfolding insert_id
durable_ids [] = []
durable_ids (none ∷ rest) = durable_ids rest
durable_ids (some n ∷ rest) = if n == 0 then durable_ids rest else insert_id n (durable_ids rest)

unfoldable pub defer_custom_metadata : {V : Type 0} → List (Option ℕ) → World V → World V
unfolding durable_ids on_commit
defer_custom_metadata ids = on_commit (map publish (durable_ids ids))
