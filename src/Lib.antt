-- ===== src/Lib.antt =====
-- netbox-openbao: credential metadata lives in the database of NetBox, and the material in an
-- OpenBao or Vault server; a version pointer in the row says which version of the material is
-- served. This library models the path of the material through netbox_openbao/, that is what is
-- validated, written, staged, promoted, discarded, revealed and deleted, by whom, and what is
-- left when a step fails.
--
-- How the parts interact. A service of services.py (Services) checks the group gate of the policy
-- tier (enforce_policy_access), validates the payload against its type (secrets/registry.py,
-- Secrets.Registry), takes public attributes from it (secrets/extractors.py), locks the graph of
-- rows that it will change (synchronization.py, Synchronization), writes to the backend that
-- get_backend chooses (backends/, Backends), moves the version pointers and logs the access, all
-- inside a material transaction (material_transactions.py, MaterialTransactions), which owns the
-- commit and compensates the writes that did not come to stay. An execution of automation.py
-- (Automation) reads material once: it commits a receipt before it may read. The backends (Backends)
-- present the identities of models/auth.py (Models.AuthMaterials), which are stored encrypted, to the
-- server or to a broker. The administration of a server (administration/, Administration) takes
-- nothing from an answer, and sends nothing, that its validators have not passed.
--
-- State. `World` (World.antt) is what a service works on: the database twice, as this connection
-- sees it and as it is committed, the state of the secret store, the context variable `_owner`,
-- the callbacks of the commit, and what other transactions do while this one waits for row locks.
-- Code that mutates and may raise is an `Exec` (Exec.antt): a function of the state into an
-- outcome and the state as it was left, also where it raised. `Db` (Models.antt) has the tables
-- with the columns that the modelled code reads or writes. An object in memory is a value that is
-- passed on; where the source shares one object between a caller and a callee, the callee is
-- given the value as it was left, which Services.Store and Synchronization say where it matters.
--
-- Files.
--   Errors              backends/exceptions.py, and the exceptions of Django that matter
--   Json                the values that json.loads builds
--   Models, Columns     models/*.py: the rows, and save(update_fields=...)
--   Models.Credentials  full_clean, clean and save of models/credentials.py
--   Models.Paths        validate_path_prefix of models/settings.py, _path_for_prefix
--   Models.Assignments  clean of models/assignments.py
--   Models.AuthMaterials  models/auth.py: encryption, re-encryption and save of the identities
--   Automation          automation.py: the checks of a credential; Authority (what it is given),
--                       Metadata (_lock_metadata, _resolve_metadata, the identity), Delivery
--                       (_reserve, _deliver, resolve_automation), Capture
--                       (capture_reference_identity)
--   AssignableModels    registry.py, and assignable_model_labels of conf.py
--   Secrets             secrets/registry.py, secrets/extractors.py, secrets/identity.py,
--                       models/schemas.py
--   Backends            backends/__init__.py and backends/base.py; Session (what both share),
--                       Broker (backends/broker.py), OpenBao (backends/openbao.py, backends/vault.py)
--   Jobs                the scans and the probes of jobs.py
--   Administration      administration/: Values, Cluster and Snapshots (cluster.py), Contract
--                       (broker.py), Wrapping (finalization.py), Redaction (access.py),
--                       MountedPaths (engines.py)
--   World               the state, the environment, statements and locks
--   Services            services.py: Audit (log_access), Access (the group gate), Projection
--                       (custom metadata), Deletion, Store (store_credential, write_material),
--                       Staging (rotate, stage, promote, discard), Reveal
--   MaterialTransactions, Synchronization   the files of those names
--   Samples, Examples   an installation, and the theorems at concrete inputs
-- Beneath each, the modules named for what they prove.
--
-- Parameters. The environment `Env` holds what is not code of the repository: the backend objects
-- (a `SecretBackend` on any state of the server), the cryptography package, jsonschema, Django's
-- own validation of fields, how a COMMIT ends (done, refused, or not answered, with or without
-- effect) and whether the access log takes a row. Nothing is assumed of them beyond their types.
-- That a check-and-set write returns a younger version is a premise of the step that it makes
-- (Services.Staging.Pointers). `Surroundings` holds the authority of the RPC plugin and what NetBox
-- answers about users, objects and permissions; `Cipher` is Fernet, of which it is assumed, where a
-- theorem says so, that it opens what it sealed under the same key; `Wire` and `Hvac` are the HTTP
-- libraries with the service behind them, on any state; `str.lower` and the text of a float are
-- arguments.
--
-- Bounds. Every loop is a recursion on its list. print_number divides by ten at most n + 1 times,
-- which is more than a number has digits. The check of a value to be wrapped has 2001 rounds, one
-- more than the members that it counts before it refuses. Python's integers are unbounded, as ℕ is.
--
-- Not modelled: the temporary files that hold certificates, and time in the token cache, whose
-- entries keep the seconds that they were set for; the
-- guards on settings; the prune job; of the administration, the validators of
-- authentication, access and engine requests, the capability schema, the journeys and the audit;
-- views, forms, the REST interface, templates, migrations and scripts, which are clients of the
-- services or presentation. The access log is not part of what a rollback is compared on, since
-- recovery adds rows to it.
pub mod Prelude
pub mod Errors
pub mod Exec
pub mod Jobs
pub mod Json
pub mod Models
pub mod Secrets
pub mod Backends
pub mod World
pub mod Services
pub mod MaterialTransactions
pub mod Synchronization
pub mod AssignableModels
pub mod Automation
pub mod Administration
pub mod Samples
pub mod Examples
