-- ===== src/Services/Store/Attempts.antt =====
-- A write to the secret store is on the record of its owner, with its exact version, however the
-- rest of the operation ends.
use netbox_openbao.Prelude.{
  ℕ, String, Bool, true, Option, none, some, List, [], ◌∷◌, ◌++◌, ◌≡◌, refl, arith, ◌∙◌, ap, subst,
}
use netbox_openbao.Errors.{Exn}
use netbox_openbao.Exec.{Exec, Outcome, ok, raise, continue}
use netbox_openbao.Json.{Payload}
use netbox_openbao.Models.{Credential, User, Request, Action}
use netbox_openbao.Models.Columns.{Column}
use netbox_openbao.Backends.{Backend}
use netbox_openbao.World.{MaterialAttempt, MaterialTransaction, World, Env, on_vault}
use netbox_openbao.Services.Audit.{entry, log_access}
use netbox_openbao.Services.Projection.{defer_custom_metadata}
use netbox_openbao.Services.Store.{
  on_last, append_attempt, set_attempt, attempt_write, finish_write, write_through, save_fields,
  record_version,
}

on_last-append {ℓ} :
    {A : Type ℓ} (f : A → A) (xs : List A) (x : A) → on_last f (xs ++ (x ∷ [])) ≡ xs ++ (f x ∷ [])
unfolding on_last
on_last-append f [] x = refl
on_last-append f (y ∷ []) x = refl
on_last-append f (y ∷ z ∷ rest) x = ap (λ l. y ∷ l) (on_last-append f (z ∷ rest) x)

-- The version that the answer to a write names.
abbrev pub version_of : Outcome ℕ → Option ℕ
version_of (ok version) = some version
version_of (raise _) = none

-- An attempt at a path of a backend, with the version that is known of it.
abbrev pub OnRecord :
    {V : Type 0} → MaterialTransaction → Backend → String → Option ℕ → World V → Type 0
OnRecord owner backend path version out =
    (attempt : MaterialAttempt) × (out.owner
      ≡ some (record owner { attempts = owner.attempts ++ (attempt ∷ []) }))
    × (attempt.backend ≡ backend)
    × (attempt.path ≡ path)
    × (attempt.version ≡ version)

module _ {V : Type 0} where
  set-OnRecord :
      (f : MaterialAttempt → MaterialAttempt) (owner : MaterialTransaction) (a : MaterialAttempt)
      (w : World V)
      → w.owner ≡ some (record owner { attempts = owner.attempts ++ (a ∷ []) })
      → (set_attempt f w).owner ≡ some (record owner { attempts = owner.attempts ++ (f a ∷ []) })
  unfolding set_attempt
  set-OnRecord f owner a w held = ground (arith, held, on_last-append f owner.attempts a)

  set-vault :
      (f : MaterialAttempt → MaterialAttempt) (w : World V) → (set_attempt f w).vault ≡ w.vault
  unfolding set_attempt
  set-vault f w = ground arith

  -- The version of the attempt is filled in where the write answered.
  note_version : Outcome ℕ → World V → Outcome ℕ × World V
  note_version r s =
      continue r
        (λ version t. (ok version, set_attempt (λ a. record a { version = some version }) t)) s

  note_version-OnRecord :
      (r : Outcome ℕ) (s : World V) (owner : MaterialTransaction) (a : MaterialAttempt)
      → s.owner ≡ some (record owner { attempts = owner.attempts ++ (a ∷ []) })
      → a.version ≡ none
      → OnRecord owner a.backend a.path (version_of r) (note_version r s).1
        × ((note_version r s).1.vault ≡ s.vault)
  unfolding note_version
  note_version-OnRecord (raise e) s owner a held blank = ((a, held, refl, refl, blank), refl)
  note_version-OnRecord (ok version) s owner a held blank =
      let f : MaterialAttempt → MaterialAttempt = λ x. record x { version = some version } in
      ((f a, set-OnRecord f owner a s held, refl, refl, refl), set-vault f s)

module _ {V : Type 0} (env : Env V) where
  append-held :
      (a : MaterialAttempt) (w : World V) (owner : MaterialTransaction)
      → w.owner ≡ some owner
      → ((append_attempt a w).owner ≡ some (record owner { attempts = owner.attempts ++ (a ∷ []) }))
        × ((append_attempt a w).vault ≡ w.vault)
  unfolding append_attempt
  append-held a w owner held = ground (arith, held)

  attempt-OnRecord :
      (c : Credential) (backend : Backend) (user : Option User) (action : Action)
      (cleaned : Payload) (cas : Option ℕ) (w : World V) (owner : MaterialTransaction)
      → w.owner ≡ some owner
      → OnRecord owner backend c.path
          (version_of ((env.backend backend).write c.path cleaned cas w.vault).0)
          (attempt_write env c backend user action cleaned cas w).1
        × ((attempt_write env c backend user action cleaned cas w).1.vault
            ≡ ((env.backend backend).write c.path cleaned cas w.vault).1)
  unfolding attempt_write on_vault note_version
  attempt-OnRecord c backend user action cleaned cas w owner held =
      let a : MaterialAttempt = record {
        credential = c;
        backend = backend;
        path = c.path;
        user = user;
        action = action;
        version = none;
        audit_id = none;
      } in
      let (mine, same) = append-held a w owner held in
      let (r, v) = (env.backend backend).write c.path cleaned cas (append_attempt a w).vault in
      let (entry', store) =
        note_version-OnRecord r (record (append_attempt a w) { vault = v }) owner a mine refl in
      subst
        (λ z.
          OnRecord owner backend c.path
            (version_of ((env.backend backend).write c.path cleaned cas z).0)
            (attempt_write env c backend user action cleaned cas w).1
          × ((attempt_write env c backend user action cleaned cas w).1.vault
              ≡ ((env.backend backend).write c.path cleaned cas z).1))
        same (entry', store)

  audit_of : Outcome (Option ℕ) → Option ℕ
  audit_of (ok audit) = audit
  audit_of (raise e) = none

  module _ (c : Credential) (columns : List Column) (user : Option User) (request : Option Request)
      (action : Action) (version : ℕ) (w : World V) where
    save-same :
        ((save_fields c columns w).1.owner ≡ w.owner)
        × ((save_fields c columns w).1.vault ≡ w.vault)
    unfolding save_fields
    save-same = ground arith

    finish-fails :
        (e : Exn)
        → (save_fields c columns w).0 ≡ raise e
        → (finish_write env c columns user request action version w).1 ≡ (save_fields c columns w).1
    unfolding finish_write
    finish-fails e h = simp h

    finish-goes :
        (u : Unit {0})
        → (save_fields c columns w).0 ≡ ok u
        → let t = defer_custom_metadata (c.pk ∷ []) (save_fields c columns w).1 in
          let logged = log_access env c user (entry action true "" "") request t in
          (finish_write env c columns user request action version w).1
          ≡ set_attempt (λ a. record a { audit_id = audit_of logged.0 }) logged.1
    unfolding finish_write log_access audit_of
    finish-goes u h = ground (arith, h)

    logged-same :
        let t = defer_custom_metadata (c.pk ∷ []) (save_fields c columns w).1 in
        let logged = log_access env c user (entry action true "" "") request t in
        (logged.1.owner ≡ (save_fields c columns w).1.owner)
        × (logged.1.vault ≡ (save_fields c columns w).1.vault)
    unfolding log_access defer_custom_metadata
    logged-same = ground arith

    -- What comes after the write keeps the attempt, and does not touch the secret store.
    finish-OnRecord :
        (owner : MaterialTransaction) (backend : Backend) (path : String) (known : Option ℕ)
        → OnRecord owner backend path known w
        → OnRecord owner backend path known
            (finish_write env c columns user request action version w).1
          × ((finish_write env c columns user request action version w).1.vault ≡ w.vault)
    finish-OnRecord owner backend path known (a, held, from, at, numbered) =
        go (save_fields c columns w).0 refl
      where
        go :
            (r : Outcome (Unit {0}))
            → (save_fields c columns w).0 ≡ r
            → OnRecord owner backend path known
                (finish_write env c columns user request action version w).1
              × ((finish_write env c columns user request action version w).1.vault ≡ w.vault)
        go (raise e) h =
            let (mine, store) = save-same in
            let out = finish-fails e h in
            (
              (a, ap (λ z. z.owner) out ∙ mine ∙ held, from, at, numbered),
              ap (λ z. z.vault) out ∙ store,
            )
        go (ok u) h =
            let (mine, store) = save-same in
            let (mine', store') = logged-same in
            let out = finish-goes u h in
            let t = defer_custom_metadata (c.pk ∷ []) (save_fields c columns w).1 in
            let logged = log_access env c user (entry action true "" "") request t in
            let f : MaterialAttempt → MaterialAttempt =
              λ x. record x { audit_id = audit_of logged.0 } in
            (
              (
                f a,
                ap (λ z. z.owner) out ∙ set-OnRecord f owner a logged.1 (mine' ∙ mine ∙ held),
                from,
                at,
                numbered,
              ),
              ap (λ z. z.vault) out ∙ set-vault f logged.1 ∙ store' ∙ store,
            )

-- Where a transaction is open: however a write to the secret store and the steps behind it end,
-- the owner has one attempt more than before, at the backend and the path that were written, with
-- the version that the store answered with, or none if it raised; and the store is what the write
-- alone has made of it.
pub write_through-recorded :
    {V : Type 0} (env : Env V) (c : Credential) (backend : Backend) (fingerprint : String)
    (cleaned : Payload) (cas : Option ℕ) (user : Option User) (request : Option Request)
    (action : Action) (promote : Bool) (w : World V) (owner : MaterialTransaction)
    → w.owner ≡ some owner
    → OnRecord owner backend c.path
        (version_of ((env.backend backend).write c.path cleaned cas w.vault).0)
        (write_through env c (some backend) fingerprint cleaned cas user request action promote w).1
      × ((write_through env c
            (some backend)
            fingerprint
            cleaned
            cas
            user
            request
            action
            promote
            w).1.vault
          ≡ ((env.backend backend).write c.path cleaned cas w.vault).1)
unfolding write_through
write_through-recorded {V = V} env c backend fingerprint cleaned cas user request action promote w
      owner held =
    let (entry', store) = attempt-OnRecord env c backend user action cleaned cas w owner held in
    let (r, s) = attempt_write env c backend user action cleaned cas w in
    let (kept, same) = pass r s entry' in (kept, same ∙ store)
  where
    known : Option ℕ
    known = version_of ((env.backend backend).write c.path cleaned cas w.vault).0

    follow : ℕ → Exec (World V) (Credential × ℕ)
    follow version u =
        let (recorded, columns) = record_version version u.now fingerprint action promote c in
        finish_write env recorded columns user request action version u

    pass :
        (r : Outcome ℕ) (s : World V)
        → OnRecord owner backend c.path known s
        → OnRecord owner backend c.path known (continue r follow s).1
          × ((continue r follow s).1.vault ≡ s.vault)
    pass (raise e) s entry' = (entry', refl)
    pass (ok version) s entry' =
        let (recorded, columns) = record_version version s.now fingerprint action promote c in
        finish-OnRecord env recorded columns user request action version s owner backend c.path
          known entry'
