-- ===== src/Services/Reveal/Done.antt =====
-- What a reveal has checked and read, where it returns.
use netbox_openbao.Prelude.{
  ℕ, ◌≤◌, String, true, false, Option, none, some, ◌≡◌, refl, arith, ◌∙◌, sym, subst, Bool-cases,
  inl, inr, ◌&&◌,
}
use netbox_openbao.Errors.{Exn, openbao, invalid, reason_required, does_not_exist}
use netbox_openbao.Exec.{Exec, Outcome, ok, raise, bind-ok, ◌>>=◌}
use netbox_openbao.Json.{Value}
use netbox_openbao.Models.{Credential, Policy, User, Request, reveal, Db, find_policy}
use netbox_openbao.Backends.{Backend}
use netbox_openbao.World.{World, Env, on_vault}
use netbox_openbao.Services.Access.{enforce_policy_access}
use netbox_openbao.Services.Access.Gate.{Permitted, enforce_policy_access-cases}
use netbox_openbao.Services.Staging.Done.{enforce-same}
use netbox_openbao.Services.Projection.{credential_backend}
use netbox_openbao.Services.Reveal.{
  reveal_material, reveal_with, read_through, log_reveal, effective_version, reveal_ttl_of,
  is_blank_text,
}

ttl-bound : (db : Db) (policy : Policy) → reveal_ttl_of db policy ≤ policy.max_reveal_ttl
unfolding reveal_ttl_of
ttl-bound db policy = omega arith

module _ {V : Type 0} (env : Env V) (c : Credential) (user : Option User) (request : Option Request)
    (reason : String) where
  log-raises :
      (e : Exn) (w : World V) → (log_reveal env c user request reason (raise e) w).0 ≡ raise e
  unfolding log_reveal
  log-raises (openbao e) w = ground arith
  log-raises _ w = refl

  log-ok :
      (u v : Value) (w out : World V)
      → log_reveal env c user request reason (ok u) w ≡ (ok v, out)
      → ◌≡◌ {A = Outcome Value} (ok u) (ok v) × (out.vault ≡ w.vault)
  unfolding log_reveal
  log-ok u v w out h = ground (arith, h)

  log-value :
      (r : Outcome Value) (v : Value) (w out : World V)
      → log_reveal env c user request reason r w ≡ (ok v, out)
      → (r ≡ ok v) × (out.vault ≡ w.vault)
  log-value (raise e) v w out h = cc (log-raises e w, h)
  log-value (ok u) v w out h = log-ok u v w out h

  read-done :
      (version : Option ℕ) (chosen : Option Backend) (v : Value) (w out : World V)
      → read_through env c user request reason version chosen w ≡ (ok v, out)
      → (backend : Backend) × (chosen ≡ some backend)
        × ((env.backend backend).read c.path version w.vault ≡ (ok v, out.vault))
  unfolding read_through on_vault
  read-done version none v w out h = cc
  read-done version (some backend) v w out h =
      let (r, store) = (env.backend backend).read c.path version w.vault in
      let (outcome, kept) = log-value r v (record w { vault = store }) out h in
      (backend, refl, cc (outcome, kept))

  -- What a reveal under a policy has checked and read.
  abbrev pub Revealed : Option ℕ → Policy → Option Backend → World V → Value → ℕ → World V → Type 0
  Revealed version policy chosen w v ttl out =
      (backend : Backend) × (chosen ≡ some backend)
      × ((policy.require_reason && is_blank_text reason) ≡ false)
      × ((env.backend backend).read c.path (effective_version c version) w.vault
          ≡ (ok v, out.vault))
      × (ttl ≤ policy.max_reveal_ttl)

  with-refused :
      (version : Option ℕ) (policy : Policy) (w : World V)
      → (policy.require_reason && is_blank_text reason) ≡ true
      → (reveal_with env c user request reason version (some policy) w).0
        ≡ raise (invalid reason_required)
  unfolding reveal_with
  with-refused version policy w blank = ground (arith, blank)

  with-reads :
      (version : Option ℕ) (policy : Policy) (w : World V)
      → (policy.require_reason && is_blank_text reason) ≡ false
      → reveal_with env c user request reason version (some policy) w
        ≡ (read_through env c user request reason
                (effective_version c version)
                (credential_backend env c w.db)
              >>= λ v s. (ok (v, reveal_ttl_of s.db policy), s))
            w
  unfolding reveal_with
  with-reads version policy w given = simp given

  with-done :
      (version : Option ℕ) (policy : Policy) (v : Value) (ttl : ℕ) (w out : World V)
      → reveal_with env c user request reason version (some policy) w ≡ (ok (v, ttl), out)
      → Revealed version policy (credential_backend env c w.db) w v ttl out
  with-done version policy v ttl w out h =
      elim (Bool-cases (policy.require_reason && is_blank_text reason)) [
        | inl blank ↦ cc (with-refused version policy w blank, h)
        | inr given ↦
            let read =
              read_through env c user request reason (effective_version c version)
                (credential_backend env c w.db) in
            let (u, s, first, last) =
              bind-ok read (λ v s. (ok (v, reveal_ttl_of s.db policy), s)) w out (v, ttl)
                (sym (with-reads version policy w given) ∙ h) in
            let (backend, chosen, run) =
              read-done (effective_version c version) (credential_backend env c w.db) u w s first in
            (backend, chosen, given, cc (run, last), ground (arith, last, ttl-bound s.db policy))
      ]

  none-raises :
      (version : Option ℕ) (w : World V)
      → (reveal_with env c user request reason version none w).0 ≡ raise does_not_exist
  unfolding reveal_with
  none-raises version w = refl

  policy-done :
      (version : Option ℕ) (found : Option Policy) (v : Value) (ttl : ℕ) (w out : World V)
      → reveal_with env c user request reason version found w ≡ (ok (v, ttl), out)
      → (policy : Policy) × (found ≡ some policy)
        × Revealed version policy (credential_backend env c w.db) w v ttl out
  policy-done version none v ttl w out h = cc (none-raises version w, h)
  policy-done version (some policy) v ttl w out h =
      (policy, refl, with-done version policy v ttl w out h)

-- Where a reveal returns: the policy of the credential permits the caller, and was given a reason
-- if it wants one; the value is what the backend of the credential reads at the version that was
-- asked for, or else at the live one; and the lifetime is at most that of the policy.
pub reveal_material-ok :
    {V : Type 0} (env : Env V) (c : Credential) (user : Option User) (request : Option Request)
    (reason : String) (version : Option ℕ) (v : Value) (ttl : ℕ) (w out : World V)
    → reveal_material env c user request reason version w ≡ (ok (v, ttl), out)
    → (policy : Policy) × (find_policy c.policy_id w.db ≡ some policy)
      × Permitted policy user
      × Revealed env c user request reason version policy
          (credential_backend env c w.db)
          w
          v
          ttl
          out
unfolding reveal_material
reveal_material-ok {V = V} env c user request reason version v ttl w out h =
    let gate = enforce_policy_access env c user (some reveal) request in
    let rest : Exec (World V) (Value × ℕ) =
      λ s. reveal_with env c user request reason version (find_policy c.policy_id s.db) s in
    let (u, s, first, second) = bind-ok gate (λ _. rest) w out (v, ttl) h in
    let same = enforce-same env c user (some reveal) request w s u first in
    let (policy, found, done') =
      policy-done env c user request reason version (find_policy c.policy_id s.db) v ttl s out
        second in
    let here : find_policy c.policy_id w.db ≡ some policy = cc (same, found) in
    (
      policy,
      here,
      (elim (enforce_policy_access-cases env c user (some reveal) request w policy here) [
        | inl (permitted, _) ↦ permitted
        | inr (_, refused) ↦ cc (refused, first)
      ]),
      subst
          (λ z.
            Revealed env c user request reason version policy (credential_backend env c z.db) z v
              ttl out)
          (sym same) done',
    )
