-- ===== src/Services/Access/Gate.antt =====
-- Whom the group gate of a policy tier lets through.
use netbox_openbao.Prelude.{
  ℕ, true, false, Option, none, some, List, [], ◌∷◌, ◌≡◌, refl, ◌⊎◌, inl, inr, arith, contains,
  Member, is_nil, ◌==◌, Bool-cases, ◌||◌,
}
use netbox_openbao.Errors.{permission_denied}
use netbox_openbao.Exec.{ok, raise}
use netbox_openbao.Models.{Credential, Policy, User, Request, Action, find_policy, find_credential}
use netbox_openbao.World.{World, Env}
use netbox_openbao.Services.Access.{
  exempt, in_groups, gate_open, enforce_policy_access, enforce_update_access,
}

-- An internal caller, a superuser, anyone if the tier names no group, or a member of one of them.
pub data Permitted (p : Policy) : Option User → Type 0 where
  internal : Permitted p none
  superuser : (u : User) → u.is_superuser ≡ true → Permitted p (some u)
  ungated : (user : Option User) → p.groups ≡ [] → Permitted p user
  member : (u : User) (g : ℕ) → Member g u.groups → Member g p.groups → Permitted p (some u)

contains_sound : (xs : List ℕ) (n : ℕ) → contains xs n ≡ true → Member n xs
contains_sound [] n h = cc
contains_sound (x ∷ xs) n h = elim (Bool-cases (x == n)) [
  | inl same ↦ Member.here (ground arith)
  | inr other ↦ Member.there (contains_sound xs n (ground arith))
]

contains_complete : (xs : List ℕ) (n : ℕ) → Member n xs → contains xs n ≡ true
contains_complete [] n m = elim m [ ]
contains_complete (x ∷ xs) n (Member.here e) = ground arith
contains_complete (x ∷ xs) n (Member.there m) = ground (arith, contains_complete xs n m)

in_groups_sound :
    (permitted groups : List ℕ)
    → in_groups permitted groups ≡ true
    → (g : ℕ) × Member g groups × Member g permitted
in_groups_sound permitted [] h = cc
in_groups_sound permitted (g ∷ gs) h = elim (Bool-cases (contains permitted g)) [
  | inl found ↦ (g, Member.here refl, contains_sound permitted g found)
  | inr absent ↦
      let (k, mine, theirs) = in_groups_sound permitted gs (rw absent at h) in
      (k, Member.there mine, theirs)
]

in_groups_complete :
    (permitted groups : List ℕ) (g : ℕ)
    → Member g groups
    → Member g permitted
    → in_groups permitted groups ≡ true
in_groups_complete permitted [] g m n = elim m [ ]
in_groups_complete permitted (x ∷ xs) g (Member.here e) n = rw (e, contains_complete permitted g n)
in_groups_complete permitted (x ∷ xs) g (Member.there m) n =
    ground (arith, in_groups_complete permitted xs g m n)

pub gate_sound :
    (p : Policy) (user : Option User) → (exempt user || gate_open p user) ≡ true → Permitted p user
unfolding gate_open
gate_sound p none h = internal
gate_sound p (some u) h = elim (Bool-cases u.is_superuser) [
  | inl super ↦ superuser u super
  | inr plain ↦ elim (Bool-cases (is_nil p.groups)) [
    | inl empty ↦ ungated (some u) (ground arith)
    | inr gated ↦
        let (g, mine, theirs) = in_groups_sound p.groups u.groups (ground arith) in
        member u g mine theirs
  ]
]

gate_complete :
    (p : Policy) (user : Option User) → Permitted p user → (exempt user || gate_open p user) ≡ true
unfolding gate_open
gate_complete p none h = refl
gate_complete p (some u) (superuser v super) = rw super
gate_complete p (some u) (ungated v empty) = ground arith
gate_complete p (some u) (member v g mine theirs) =
    ground (arith, in_groups_complete p.groups u.groups g mine theirs)

module _ {V : Type 0} (env : Env V) (c : Credential) (user : Option User) (action : Option Action)
    (request : Option Request) (w : World V) where
  enforce-open :
      (p : Policy)
      → find_policy c.policy_id w.db ≡ some p
      → (exempt user || gate_open p user) ≡ true
      → enforce_policy_access env c user action request w ≡ (ok tt, w)
  unfolding enforce_policy_access
  enforce-open p found open_gate = ground arith

  enforce-shut :
      (p : Policy)
      → find_policy c.policy_id w.db ≡ some p
      → (exempt user || gate_open p user) ≡ false
      → (enforce_policy_access env c user action request w).0 ≡ raise permission_denied
  unfolding enforce_policy_access
  enforce-shut p found shut = ground arith

-- Where the policy of the credential exists: a caller is permitted by it and passes without a trace
-- in the state, or is not permitted and gets a permission error.
pub enforce_policy_access-cases :
    {V : Type 0} (env : Env V) (c : Credential) (user : Option User) (action : Option Action)
    (request : Option Request) (w : World V) (p : Policy)
    → find_policy c.policy_id w.db ≡ some p
    → (Permitted p user × (enforce_policy_access env c user action request w ≡ (ok tt, w)))
      ⊎ ((¬ Permitted p user)
          × ((enforce_policy_access env c user action request w).0 ≡ raise permission_denied))
enforce_policy_access-cases env c user action request w p found =
    elim (Bool-cases (exempt user || gate_open p user)) [
      | inl open_gate ↦
          inl (
            gate_sound p user open_gate,
            enforce-open env c user action request w p found open_gate,
          )
      | inr shut ↦ inr (
        (λ permitted. cc (gate_complete p user permitted)),
        enforce-shut env c user action request w p found shut,
      )
    ]

update-reads-row :
    {V : Type 0} (env : Env V) (c row : Credential) (user : Option User) (action : Option Action)
    (request : Option Request) (w : World V) (pk : ℕ)
    → c.pk ≡ some pk
    → find_credential pk w.db ≡ some row
    → enforce_update_access env (some c) user action request w
      ≡ enforce_policy_access env row user action request w
unfolding enforce_update_access
update-reads-row env c row user action request w pk saved found = rw (saved, found)

-- Where the credential is saved and its row and the policy of that row exist: whatever policy the
-- object names, a caller is permitted by the policy of the row and passes without a trace in the
-- state, or is not permitted and gets a permission error.
pub enforce_update_access-cases :
    {V : Type 0} (env : Env V) (c row : Credential) (user : Option User) (action : Option Action)
    (request : Option Request) (w : World V) (pk : ℕ) (p : Policy)
    → c.pk ≡ some pk
    → find_credential pk w.db ≡ some row
    → find_policy row.policy_id w.db ≡ some p
    → (Permitted p user × (enforce_update_access env (some c) user action request w ≡ (ok tt, w)))
      ⊎ ((¬ Permitted p user)
          × ((enforce_update_access env (some c) user action request w).0
              ≡ raise permission_denied))
enforce_update_access-cases env c row user action request w pk p saved found tier =
    rw (update-reads-row env c row user action request w pk saved found)
      (enforce_policy_access-cases env row user action request w p tier)
