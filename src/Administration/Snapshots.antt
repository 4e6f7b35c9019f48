-- ===== src/Administration/Snapshots.antt =====
-- The bounded streams of netbox_openbao/administration/cluster.py: the upload of a snapshot, which
-- reads no byte past its declared size, and the download, which is handed on in chunks.
pub mod Upload
pub mod Download
use netbox_openbao.Prelude.{
  ℕ, zero, suc, ◌+◌, ◌-◌, ◌*◌, String, Bool, true, false, Option, none, some, List, [], ◌∷◌, ◌++◌,
  not, ◌&&◌, ◌||◌, ltb, leb, ◌==◌, length, if◌then◌else◌,
}
use netbox_openbao.Errors.{Exn, value_error, runtime_error}
use netbox_openbao.Exec.{Outcome, ok, raise}
use netbox_openbao.Json.{ℤ, pos, negsuc}

-- Bytes, as numbers.
abbrev pub Bytes : Type 0
Bytes = List ℕ

-- 512 MiB
abbrev pub max_snapshot_bytes : ℕ
max_snapshot_bytes = 536870912

-- What the stream below gives: bytes, an object that is none, or an exception.
pub data Chunk : Type 0 where
  bytes : Bytes → Chunk
  not_bytes : Chunk
  raises : Exn → Chunk

-- `BoundedSnapshotReader`
pub record Reader (S : Type 0) : Type 0 where
  pub stream : S
  pub size : ℕ
  pub bytes_read : ℕ

-- `isinstance(size, bool) or not isinstance(size, int) or not 0 < size <= MAX_SNAPSHOT_BYTES`; the
-- sizes that are no numbers are left out.
unfoldable pub open_reader : {S : Type 0} → S → ℤ → Outcome (Reader S)
open_reader stream (pos size) =
    if ltb 0 size && leb size max_snapshot_bytes
    then ok (record { stream = stream; size = size; bytes_read = 0 })
    else raise (value_error "Snapshot size is outside the allowed range.")
open_reader stream (negsuc n) = raise (value_error "Snapshot size is outside the allowed range.")

-- The amount that is asked of the stream: `None`, a negative number and one past the end mean all
-- that remains.
unfoldable pub clamp : Option ℤ → (remaining : ℕ) → ℕ
clamp none remaining = remaining
clamp (some (negsuc n)) remaining = remaining
clamp (some (pos amount)) remaining = if ltb remaining amount then remaining else amount

module _ {S : Type 0} where
  -- What `read` does with a chunk.
  unfoldable pub take_chunk : ℕ → Chunk → Reader S → Outcome Bytes × Reader S
  take_chunk amount not_bytes r = (raise (value_error "Snapshot stream returned invalid data."), r)
  take_chunk amount (raises e) r = (raise e, r)
  take_chunk amount (bytes []) r =
      (raise (value_error "Snapshot stream ended before its declared size."), r)
  take_chunk amount (bytes (b ∷ rest)) r =
      if ltb amount (length (b ∷ rest))
      then (raise (value_error "Snapshot stream exceeded its requested chunk size."), r)
      else if ltb r.size (r.bytes_read + length (b ∷ rest))
      then (
        raise (value_error "Snapshot stream exceeded its declared size."),
        record r { bytes_read = r.bytes_read + length (b ∷ rest) },
      )
      else (ok (b ∷ rest), record r { bytes_read = r.bytes_read + length (b ∷ rest) })

  -- `BoundedSnapshotReader.read`; the stream below is a state of its own.
  unfoldable pub read : (ℕ → S → Chunk × S) → Option ℤ → Reader S → Outcome Bytes × Reader S
  unfolding take_chunk clamp
  read read_stream amount r =
      let remaining = r.size - r.bytes_read in
      let wanted = clamp amount remaining in
      if remaining == 0
      then (ok [], r)
      else if wanted == 0
      then (ok [], r)
      else let (chunk, stream) = read_stream wanted r.stream in
        take_chunk wanted chunk (record r { stream = stream })

-- `SnapshotDownload`, and whether the response below was closed.
pub record SnapshotDownload : Type 0 where
  pub declared_size : Option ℕ
  pub opened : Bool
  pub closed : Bool

-- What a caller that takes every chunk has in the end: the chunks that were yielded, in order, and
-- how the generator ended.
pub record Delivery : Type 0 where
  pub yielded : List Bytes
  pub ending : Outcome (Unit {0})

abbrev pub failing : String → Delivery
failing message = record { yielded = []; ending = raise (value_error message) }

abbrev pub other_size : Option ℕ → ℕ → Bool
other_size none total = false
other_size (some size) total = not (size == total)

abbrev pub yield_first : Bytes → Delivery → Delivery
yield_first [] d = d
yield_first (b ∷ rest) d = record d { yielded = (b ∷ rest) ∷ d.yielded }

-- The loop of `chunks`, over what the response streams.
unfoldable pub deliver : Option ℕ → ℕ → List Chunk → Delivery
deliver declared total [] =
    if other_size declared total
    then failing "Snapshot stream length did not match its declared size."
    else record { yielded = []; ending = ok tt }
deliver declared total (raises e ∷ rest) = record { yielded = []; ending = raise e }
deliver declared total (not_bytes ∷ rest) = failing "Snapshot stream returned invalid data."
deliver declared total (bytes chunk ∷ rest) =
    let later = deliver declared (total + length chunk) rest in
    if ltb max_snapshot_bytes (total + length chunk)
    then failing "Snapshot stream exceeded the allowed size."
    else yield_first chunk later

-- `chunks`, taken to its end.
unfoldable pub chunks : SnapshotDownload → List Chunk → Delivery × SnapshotDownload
unfolding deliver
chunks d stream =
    if d.opened
    then (
      record {
        yielded = [];
        ending = raise (runtime_error "Snapshot download streams are one-use.");
      },
      d,
    )
    else (deliver d.declared_size 0 stream, record d { opened = true; closed = true })
