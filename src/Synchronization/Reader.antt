-- ===== src/Synchronization/Reader.antt =====
-- `lock_credential_graph` of netbox_openbao/synchronization.py: the locks of a reader.
use netbox_openbao.Prelude.{
  ℕ, Option, none, some, List, [], ◌∷◌, ◌++◌, map, any, keep, contains, ◌==◌, opt_eq, first, ◌&&◌,
  if◌then◌else◌,
}
use netbox_openbao.Errors.{Exn, invalid, relationships_changed, does_not_exist, untranslated}
use netbox_openbao.Exec.{Exec, Outcome, ok, raise, ◌>>=◌}
use netbox_openbao.Models.{Credential, Policy, Engine, Db, find_credential}
use netbox_openbao.World.{World, lock_wait}

-- A credential with its policy and its engine, as the locks found them.
pub record Graph : Type 0 where
  pub credential : Credential
  pub policy : Policy
  pub engine : Engine

-- A value that may be missing, and the exception where it is.
abbrev pub required {ℓ} : {S A : Type ℓ} → Option A → Exn → Exec S A
required none e s = (raise e, s)
required (some a) e s = (ok a, s)

-- `{policy_id}` and the other policy, if its number is not 0.
abbrev pub policy_ids_of : ℕ → Option ℕ → List ℕ
policy_ids_of policy_id none = policy_id ∷ []
policy_ids_of policy_id (some n) = if n == 0 then policy_id ∷ [] else policy_id ∷ n ∷ []

-- The relations of the locked row are those that were read first, and its policy and its engine are
-- among the locked ones.
unfoldable pub bind_graph : Credential → List Policy → List Engine → Credential → Outcome Graph
bind_graph before policies engines c =
    if (c.policy_id == before.policy_id) && opt_eq c.engine_id before.engine_id
    then elim (first (λ p. p.pk == c.policy_id) policies) [
      | none ↦ raise untranslated
      | some policy ↦ elim (first (λ e. opt_eq (some e.pk) c.engine_id) engines) [
        | none ↦ raise untranslated
        | some engine ↦ ok (record { credential = c; policy = policy; engine = engine })
      ]
    ]
    else raise (invalid relationships_changed)

-- The rows of the two statements, by what was read before.
unfoldable pub policy_rows : List ℕ → Db → List Policy
policy_rows ids db = keep (λ p. contains ids p.pk) db.policies

unfoldable pub engine_rows : List Policy → Option ℕ → Db → List Engine
engine_rows policies engine_id db =
    keep
      (λ e.
        any (opt_eq (some e.pk))
          (map (λ (p : Policy). some p.engine_id) policies ++ (engine_id ∷ [])))
      db.engines

module _ {V : Type 0} where
  -- `select_for_update()`: the wait, and then what the statement reads.
  unfoldable pub locked : {A : Type 0} → (Db → A) → Exec (World V) A
  unfolding lock_wait
  locked read w = let w' = lock_wait w in (ok (read w'.db), w')

  -- `objects.values(...).get(pk=credential_id)`
  unfoldable pub selectors_of : ℕ → Exec (World V) Credential
  unfolding find_credential
  selectors_of pk w = required (find_credential pk w.db) does_not_exist w

  unfoldable pub bound : Credential → List Policy → List Engine → Credential → Exec (World V) Graph
  unfolding bind_graph
  bound before policies engines c w = (bind_graph before policies engines c, w)

  unfoldable pub lock_credential_graph :
      ℕ → (additional_policy_id : Option ℕ) → Exec (World V) Graph
  unfolding find_credential locked bound selectors_of policy_rows engine_rows
  lock_credential_graph credential_id additional = do
    before ← selectors_of credential_id
    policies ← locked (policy_rows (policy_ids_of before.policy_id additional))
    engines ← locked (engine_rows policies before.engine_id)
    row ← locked (find_credential credential_id)
    c ← required row does_not_exist
    bound before policies engines c
