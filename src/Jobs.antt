-- ===== src/Jobs.antt =====
-- The scans and the probes of netbox_openbao/jobs.py. Times are in seconds, as everywhere.
pub mod Scan
use netbox_openbao.Prelude.{
  ℕ, suc, ◌+◌, ◌*◌, ◌<>◌, String, Bool, true, false, Option, none, some, List, [], ◌∷◌, length,
  keep, update_where, leb, ltb, not, is_nil, join, print_number, opt_eq, ◌==◌, ◌&&◌, ◌||◌,
  if◌then◌else◌, truncate,
}
use netbox_openbao.Errors.{Exn, openbao, OpenBaoError, OpenBaoClass, not_found}
use netbox_openbao.Exec.{Exec, Outcome, ok, raise, ◌>>=◌}
use netbox_openbao.Json.{Value, int, pos, Fields, entries, truthy}
use netbox_openbao.Models.{
  Credential, Status, active, staged, rotating, expired, retired, compromised, Db, Engine,
}
use netbox_openbao.Backends.Session.{EngineStatus, Health}

abbrev pub is_retired : Status → Bool
is_retired retired = true
is_retired _ = false

-- `status__in=[STATUS_EXPIRED, STATUS_RETIRED]`
abbrev pub is_over : Status → Bool
is_over expired = true
is_over retired = true
is_over _ = false

-- A column against a bound; a null compares with nothing.
abbrev pub until : (ℕ → Bool) → Option ℕ → Bool
until p none = false
until p (some t) = p t

-- `ExpiryScanJob`: the query of the expired, and what it writes.
unfoldable pub past_window : ℕ → Credential → Bool
past_window now c = until (λ t. leb t now) c.valid_until && not (is_over c.status)

unfoldable pub mark_expired : ℕ → Db → Db
unfolding past_window
mark_expired now db = record db {
  credentials = update_where (past_window now) (λ c. record c { status = expired }) db.credentials;
}

-- `sorted(days, reverse=True)`
insert_descending : ℕ → List ℕ → List ℕ
insert_descending n [] = n ∷ []
insert_descending n (m ∷ rest) = if ltb n m then m ∷ insert_descending n rest else n ∷ m ∷ rest

unfoldable pub descending : List ℕ → List ℕ
unfolding insert_descending
descending [] = []
descending (n ∷ rest) = insert_descending n (descending rest)

unfoldable pub upcoming : ℕ → ℕ → Credential → Bool
upcoming now days c =
    until (λ t. ltb now t && leb t (now + 86400 * days)) c.valid_until && not (is_retired c.status)

unfoldable pub warnings : ℕ → Db → List ℕ → List String
unfolding upcoming print_number
warnings now db [] = []
warnings now db (days ∷ rest) =
    let count = length (keep (upcoming now days) db.credentials) in
    let others = warnings now db rest in
    if count == 0
    then others
    else (print_number count <> (" expiring within " <> (print_number days <> " day(s)"))) ∷ others

unfoldable pub summary : ℕ → List String → String
unfolding print_number join
summary count texts =
    let front = print_number count <> " expired" in
    if is_nil texts then front else front <> ("; " <> join ", " texts)

unfoldable pub expiry_scan : ℕ → List ℕ → Db → String × Db
unfolding past_window mark_expired descending warnings summary
expiry_scan now warning_days db =
    let count = length (keep (past_window now) db.credentials) in
    let after = if count == 0 then db else mark_expired now db in
    (summary count (warnings now after (descending warning_days)), after)

-- `RotationDueJob`
abbrev pub reference_time : Credential → ℕ
reference_time c = elim c.last_rotated [ none ↦ c.created | some t ↦ t ]

unfoldable pub due : ℕ → Credential → Bool
due now c =
    until (λ days. leb (reference_time c + 86400 * days) now) c.rotation_interval
    && not (is_over c.status)

unfoldable pub rotation_due : ℕ → Db → String
unfolding due print_number
rotation_due now db =
    print_number (length (keep (due now) db.credentials)) <> " credential(s) due for rotation."

-- `CredentialVerifyJob`: the counts of a run.
pub record Counts : Type 0 where
  pub verified : ℕ
  pub missing : ℕ
  pub errored : ℕ

-- What the job reads of the metadata of a path: `metadata.get('current_version')`, which is a number if it is
-- there and not 0.
pub record Stores (V : Type 0) : Type 0 where
  pub read_metadata : Credential → Db → V → Outcome (Option ℕ) × V

pub record State (V : Type 0) : Type 0 where
  pub db : Db
  pub service : V
  pub counts : Counts

abbrev pub version_or : Option ℕ → Option ℕ → Option ℕ
version_or none kept = kept
version_or (some n) kept = if n == 0 then kept else some n

unfoldable pub record_verified : ℕ → Credential → Option ℕ → Db → Db
record_verified now c version db = record db {
  credentials =
      update_where (λ row. opt_eq row.pk c.pk)
        (λ row. record row {
          kv_version = version_or version c.kv_version;
          last_verified = some now;
        })
        db.credentials;
}

module _ {V : Type 0} (stores : Stores V) where
  -- `except OpenBaoError`; anything else ends the run.
  unfoldable pub count_failure : OpenBaoClass → Counts → Counts
  count_failure not_found counts = record counts { missing = suc counts.missing }
  count_failure _ counts = record counts { errored = suc counts.errored }

  unfoldable pub verify_result : ℕ → Credential → Outcome (Option ℕ) → Exec (State V) (Unit {0})
  unfolding record_verified count_failure
  verify_result now c (ok version) s = (
    ok tt,
    record s {
      db = record_verified now c version s.db;
      counts = record s.counts { verified = suc s.counts.verified };
    },
  )
  verify_result now c (raise (openbao e)) s =
      (ok tt, record s { counts = count_failure e.class s.counts })
  verify_result now c (raise e) s = (raise e, s)

  unfoldable pub verify_one : ℕ → Credential → Exec (State V) (Unit {0})
  unfolding verify_result
  verify_one now c s =
      let (result, service) = stores.read_metadata c s.db s.service in
      verify_result now c result (record s { service = service })

  unfoldable pub verify_all : ℕ → List Credential → Exec (State V) (Unit {0})
  unfolding verify_one
  verify_all now [] s = (ok tt, s)
  verify_all now (c ∷ rest) s = (verify_one now c >>= λ _. verify_all now rest) s

-- `EngineHealthJob`: the columns of an engine that it writes.
pub record Observed : Type 0 where
  pub engine_id : ℕ
  pub status : EngineStatus
  pub status_message : String
  pub last_checked : ℕ

pub record HealthState (V : Type 0) : Type 0 where
  pub service : V
  pub observed : List Observed

unfoldable pub observe : ℕ → Engine → Health → List Observed → List Observed
unfolding truncate
observe now engine result rows =
    update_where (λ row. row.engine_id == engine.pk)
      (λ row. record row {
        status = result.status;
        status_message = truncate 500 result.message;
        last_checked = now;
      })
      rows

module _ {V : Type 0} (health : Engine → Exec V Health) where
  unfoldable pub observed_result : ℕ → Engine → Outcome Health → Exec (HealthState V) (Unit {0})
  unfolding observe
  observed_result now engine (ok result) s =
      (ok tt, record s { observed = observe now engine result s.observed })
  observed_result now engine (raise e) s = (raise e, s)

  unfoldable pub check_engine : ℕ → Engine → Exec (HealthState V) (Unit {0})
  unfolding observed_result
  check_engine now engine s =
      let (result, service) = health engine s.service in
      observed_result now engine result (record s { service = service })

  -- A probe that raises ends the run.
  unfoldable pub check_engines : ℕ → List Engine → Exec (HealthState V) (Unit {0})
  unfolding check_engine
  check_engines now [] s = (ok tt, s)
  check_engines now (engine ∷ rest) s = (check_engine now engine >>= λ _. check_engines now rest) s

  unfoldable pub engine_health : ℕ → List Engine → Exec (HealthState V) String
  unfolding check_engines print_number
  engine_health now engines s =
      (check_engines now engines >>= λ _.
      (λ t. (ok ("Checked " <> (print_number (length engines) <> " engine(s).")), t)))
        s
