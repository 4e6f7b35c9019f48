-- ===== src/Automation/Spent/Parts.antt =====
-- The parts of a resolution, and what they keep: the audit, what stands before and behind the read,
-- and the delivery.
use netbox_openbao.Prelude.{
  ℕ, String, Option, none, some, ◌≡◌, refl, sym, subst, ◌==◌, Bool-cases, inl, inr,
}
use netbox_openbao.Errors.{automation_denied}
use netbox_openbao.Exec.{Exec, Outcome, ok, raise, pure, require, lift, continue, ◌>>=◌}
use netbox_openbao.Exec.Keeps.{Keeps, Keeps-bind, Keeps-still, Keeps-require}
use netbox_openbao.Json.{Value, object, Payload, entries}
use netbox_openbao.Models.{Credential, Policy, User, Receipt, AccessLog, Db, find_policy}
use netbox_openbao.Backends.{Backend}
use netbox_openbao.Secrets.Schema.{VaultFields}
use netbox_openbao.Secrets.Identity.{verify_bundle_identity}
use netbox_openbao.Services.Projection.{credential_backend}
use netbox_openbao.Services.Reveal.{
  read_automation_bundle, read_bundle, bundle_of, project_bundle, reveal_ttl_of,
}
use netbox_openbao.World.{World, Env, write_db, lock_wait, on_vault}
use netbox_openbao.Automation.Authority.{Params, Authority, Surroundings}
use netbox_openbao.Automation.Metadata.{
  Metadata, resolve_metadata, require_identity, check_dispatch,
}
use netbox_openbao.Automation.Delivery.{
  Key, record_automation_access, refuse, evidence, prepare, conclude, delivery, deliver,
  as_reserved, mark_delivered, authorize_dispatch, delivered, answer,
}
use netbox_openbao.Automation.Spent.Quiet.{
  resolve_metadata-Keeps, check_dispatch-Keeps, require_identity-Keeps,
}
use netbox_openbao.Automation.Spent.Lasting.{
  Lasting, lock_wait-Lasting, write_db-Lasting, atomic-Lasting,
}
use netbox_openbao.Services.Audit.{insert_log}

module _ {V : Type 0} (env : Env V) (around : Surroundings V) (user : User) (params : Params) where
  module _ (P : World V → Type 0) (waits : (w : World V) → P w → P (lock_wait w))
      (writes : (f : Db → Db) (w : World V)
        → ((db : Db) → (f db).receipts ≡ db.receipts)
        → P w
        → P (write_db f w)) where
    insert-receipts : (row : AccessLog) (db : Db) → (insert_log row db).receipts ≡ db.receipts
    unfolding insert_log
    insert-receipts row db = refl

    record_automation_access-Keeps :
        (a : Option Authority) (c : Option Credential) (r : Option Receipt)
        → Keeps P (record_automation_access env around user params a c r)
    unfolding record_automation_access
    record_automation_access-Keeps a c r = record {
      at = λ w h.
          elim (Bool-cases
            (env.log_accepts w.db (evidence env around user params w.db.next_log a c r))) [
              | inl taken ↦ rw taken (
                  writes (insert_log (evidence env around user params w.db.next_log a c r)) w
                    (insert-receipts (evidence env around user params w.db.next_log a c r)) h)
              | inr lost ↦ rw lost h
            ];
    }

    pub refuse-Keeps :
        (a : Option Authority) (r : Option Receipt) → Keeps P (refuse env around user params a r)
    unfolding refuse
    refuse-Keeps a r = record { at = (record_automation_access-Keeps a none r).at }

    delivered-receipts :
        (pk : ℕ) (db : Db) → (delivered env around user params pk db).receipts ≡ db.receipts
    unfolding delivered
    delivered-receipts pk db = refl

    authorize_dispatch-still : (w : World V) → (authorize_dispatch env around user params w).1 ≡ w
    unfolding authorize_dispatch
    authorize_dispatch-still w = go (around.authorize w params (some user))
      where
        go :
            (o : Option Authority)
            → (elim o as (λ _. Outcome Authority × World V) [
              | none ↦ (raise automation_denied, w)
              | some a ↦ (ok a, w)
            ]).1
              ≡ w
        go none = refl
        go (some a) = refl

    prepare-Keeps : (r : Receipt) → Keeps P (prepare env around user params r)
    unfolding prepare
    prepare-Keeps r =
        Keeps-bind (authorize_dispatch env around user params) _
          (Keeps-still _ authorize_dispatch-still)
          λ a.
            Keeps-bind (resolve_metadata around a) _ (resolve_metadata-Keeps P waits around a) λ m.
              Keeps-bind (check_dispatch around a) _ (check_dispatch-Keeps P waits around a) λ _.
                Keeps-bind (require_identity around a m) _
                  (require_identity-Keeps P waits around a m)
                  λ _.
                    Keeps-bind
                      (require (as_reserved env around user params a m r) automation_denied) _
                      (Keeps-require _ automation_denied)
                      λ _.
                        Keeps-bind
                          (record_automation_access env around user params (some a)
                            (some m.graph.credential) (some r))
                          _
                          (record_automation_access-Keeps (some a) (some m.graph.credential)
                            (some r))
                          λ audit.
                            Keeps-bind (check_dispatch around a) _
                              (check_dispatch-Keeps P waits around a) λ _. record { at = λ s h. h }

    mark_delivered-Keeps : (pk : ℕ) → Keeps P (mark_delivered env around user params pk)
    unfolding mark_delivered
    mark_delivered-Keeps pk = record {
      at = λ w h. writes (delivered env around user params pk) w (delivered-receipts pk) h;
    }

    conclude-Keeps :
        (a : Authority) (m : Metadata) (audit : ℕ) (bundle : Payload × ℕ)
        → Keeps P (conclude env around user params a m audit bundle)
    unfolding conclude
    conclude-Keeps a m audit bundle =
        Keeps-bind (resolve_metadata around a) _ (resolve_metadata-Keeps P waits around a) λ final.
          Keeps-bind (require_identity around a final) _
            (require_identity-Keeps P waits around a final)
            λ _.
              Keeps-bind (require (final.version == m.version) automation_denied) _
                (Keeps-require _ automation_denied)
                λ _.
                  Keeps-bind (check_dispatch around a) _ (check_dispatch-Keeps P waits around a)
                    λ _.
                      Keeps-bind (mark_delivered env around user params audit)
                        (λ _. pure (answer env around user params m audit bundle))
                        (mark_delivered-Keeps audit) λ _. Keeps-still _ (λ s. refl)

    pub reservation_checks-Keeps :
        (a : Authority) (rest : Metadata → Exec (World V) Receipt)
        → ((m : Metadata) → Keeps P (rest m))
        → Keeps P (
            resolve_metadata around a >>= λ m.
            check_dispatch around a >>= λ _. require_identity around a m >>= λ _. rest m)
    reservation_checks-Keeps a rest kept =
        Keeps-bind (resolve_metadata around a) _ (resolve_metadata-Keeps P waits around a) λ m.
          Keeps-bind (check_dispatch around a) _ (check_dispatch-Keeps P waits around a) λ _.
            Keeps-bind (require_identity around a m) _ (require_identity-Keeps P waits around a m)
              λ _. kept m

  bundled :
      (c : Credential) (fields : VaultFields) (expected : String) (policy : Option Policy)
      (v : Value) (w : World V)
      → (bundle_of env c fields expected policy v w).1 ≡ w
  unfolding bundle_of
  bundled c fields expected none v w = refl
  bundled c fields expected (some policy) (object bundle) w =
      go (verify_bundle_identity env.crypto w.db.stored_types c (entries bundle) expected)
    where
      inner :
          (r : Outcome Payload)
          → (continue {B = Payload × ℕ} r
              (λ result s. (ok (result, reveal_ttl_of s.db policy), s))
              w).1
            ≡ w
      inner (ok a) = refl
      inner (raise e) = refl

      go :
          (r : Outcome (Unit {0}))
          → (continue {B = Payload × ℕ} r
              (λ _. lift (project_bundle fields (entries bundle)) >>= λ result s.
                (ok (result, reveal_ttl_of s.db policy), s))
              w).1
            ≡ w
      go (ok u) = inner (project_bundle fields (entries bundle))
      go (raise e) = refl
  bundled c fields expected (some policy) _ w = refl

  -- The read of the secret store changes nothing but the store.
  read-Lasting :
      (k : Key) (c : Credential) (version : ℕ) (fields : VaultFields) (expected : String)
      → Keeps (Lasting k) (read_automation_bundle env c version fields expected)
  unfolding read_automation_bundle read_bundle on_vault
  read-Lasting k c version fields expected = record {
    at = λ w h. go w h (credential_backend env c w.db);
  }
    where
      after :
          (w : World V)
          → Lasting k w
          → (r : Outcome Value)
          → Lasting k
              (continue r
                (λ bundle s.
                  bundle_of env c fields expected (find_policy c.policy_id s.db) bundle s)
                w).1
      after w h (ok v) =
          subst (Lasting k) (sym (bundled c fields expected (find_policy c.policy_id w.db) v w)) h
      after w h (raise e) = h

      go :
          (w : World V)
          → Lasting k w
          → (backend : Option Backend)
          → Lasting k (read_bundle env c version fields expected backend w).1
      go w h none = h
      go w h (some backend) =
          after (record w { vault = ((env.backend backend).read c.path (some version) w.vault).1 })
            (record { seen = h.seen; kept = h.kept; others = h.others })
            ((env.backend backend).read c.path (some version) w.vault).0

  pub deliver-Lasting :
      (k : Key) (r : Receipt) → Keeps (Lasting k) (deliver env around user params r)
  unfolding deliver delivery
  deliver-Lasting k r = atomic-Lasting k env (delivery env around user params r) (
      Keeps-bind (prepare env around user params r) _
        (prepare-Keeps (Lasting k) (lock_wait-Lasting k) (write_db-Lasting k) r)
        λ ready.
          Keeps-bind (reading ready) _
            (read-Lasting k ready.1.graph.credential ready.1.version ready.1.fields
              ready.0.provider_identity.fingerprint)
            λ bundle.
              conclude-Keeps (Lasting k) (lock_wait-Lasting k) (write_db-Lasting k) ready.0 ready.1
                ready.2 bundle)
    where
      reading : Authority × Metadata × ℕ → Exec (World V) (Payload × ℕ)
      reading ready =
          read_automation_bundle env ready.1.graph.credential ready.1.version ready.1.fields
            ready.0.provider_identity.fingerprint
