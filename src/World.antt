-- ===== src/World.antt =====
-- The state that the services work on: the database as this connection sees it and as it is
-- committed, the secret store, the open material transaction and the callbacks of the commit; and
-- what the code is given by its surroundings.
use netbox_openbao.Prelude.{ℕ, String, Bool, Option, List, [], ◌∷◌, ◌++◌, if◌then◌else◌}
use netbox_openbao.Errors.{Exn}
use netbox_openbao.Exec.{Exec}
use netbox_openbao.Models.{Credential, User, Action, AccessLog, Db}
use netbox_openbao.Secrets.Extractors.{Crypto}
use netbox_openbao.Secrets.Registry.{JsonSchema}
use netbox_openbao.Backends.{Backend, SecretBackend}

-- `MaterialAttempt` of netbox_openbao/material_transactions.py
pub record MaterialAttempt : Type 0 where
  pub credential : Credential
  pub backend : Backend
  pub path : String
  pub user : Option User
  pub action : Action
  pub version : Option ℕ
  pub audit_id : Option ℕ

-- The dict `graph_ids` of sets, one field for each of the three kinds. A subject that was not
-- saved may have no engine yet, and its `None` is an element like any other.
pub record GraphIds : Type 0 where
  pub credential : List ℕ
  pub policy : List ℕ
  pub engine : List (Option ℕ)

-- `MaterialTransaction`
pub record MaterialTransaction : Type 0 where
  pub operation_id : String
  pub attempts : List MaterialAttempt
  pub deletions : List MaterialAttempt
  pub failed : Bool
  pub committed : Bool
  pub known_rollback : Bool
  pub graph_ids : GraphIds
  pub graph_frozen : Bool

-- What `transaction.on_commit` holds: the mark of the owner, the publication of the metadata of
-- one credential, the destruction of a deleted credential's material, and a callback of other
-- code, which may raise.
pub data Callback : Type 0 where
  mark_committed : Callback
  publish : ℕ → Callback
  destroy : Credential → Callback
  foreign : Option Exn → Callback

pub record World (V : Type 0) : Type 0 where
  -- what is committed, and so what a rollback restores
  pub base : Db
  -- what the statements of this connection see
  pub db : Db
  pub vault : V
  -- the context variable `_owner`
  pub owner : Option MaterialTransaction
  -- the object of the owner that ended last, as a caller that kept it sees it
  pub closed_owner : Option MaterialTransaction
  pub callbacks : List Callback
  pub in_atomic : Bool
  -- the connection was lost, or closed in a transaction
  pub connection_lost : Bool
  -- the credential object of the caller, once a service refreshed it
  pub held : Option Credential
  -- what other transactions commit at the next waits for row locks
  pub others : List (Db → Db)
  pub now : ℕ
  -- `uuid4()`
  pub next_operation : String

-- How a COMMIT ends: done; refused by a constraint; or not answered, with or without effect.
pub data Commit : Type 0 where
  done refused : Commit
  unanswered : (applied : Bool) → Commit

pub record Env (V : Type 0) : Type 0 where
  pub backend : Backend → SecretBackend V
  pub crypto : Crypto
  -- what Django checks of the fields of a credential, uniqueness included
  pub fields_valid : Db → Credential → Bool
  pub jsonschema : JsonSchema
  -- whether the database takes an insertion into the access log
  pub log_accepts : Db → AccessLog → Bool
  pub commit : Db → Commit
  -- `SITE_URL` joined with the URL of a credential, blank where there is none
  pub credential_url : Credential → String

module _ {V : Type 0} where
  -- A statement. Outside a transaction it is committed at once.
  unfoldable pub write_db : (Db → Db) → World V → World V
  write_db f w = record w { db = f w.db; base = if w.in_atomic then w.base else f w.base }

  -- An action of the secret store.
  unfoldable pub on_vault : {A : Type 0} → Exec V A → Exec (World V) A
  on_vault act w = let (r, v) = act w.vault in (r, record w { vault = v })

  -- `transaction.on_commit(callback)`: outside a transaction it would run at once; the code
  -- registers callbacks inside one only.
  unfoldable pub on_commit : List Callback → World V → World V
  on_commit cs w = record w { callbacks = w.callbacks ++ cs }

  -- A wait for row locks, during which another transaction may commit.
  unfoldable pub lock_wait : World V → World V
  lock_wait w = elim w.others [
    | [] ↦ w
    | f ∷ rest ↦ record w { db = f w.db; base = f w.base; others = rest }
  ]
