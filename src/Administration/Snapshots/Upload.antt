-- ===== src/Administration/Snapshots/Upload.antt =====
-- The upload of a snapshot never passes its declared size, and an empty answer means the end.
use netbox_openbao.Prelude.{
  ℕ, ◌+◌, ◌-◌, ◌≤◌, Option, none, some, List, [], ◌∷◌, ◌≡◌, refl, arith, length, ◌∙◌,
}
use netbox_openbao.Exec.{ok}
use netbox_openbao.Json.{ℤ, pos, negsuc}
use netbox_openbao.Administration.Snapshots.{
  Bytes, Chunk, bytes, not_bytes, raises, Reader, open_reader, clamp, take_chunk, read,
  max_snapshot_bytes,
}
use netbox_openbao.Administration.Snapshots.Download.{total_length}

clamp-le : (amount : Option ℤ) (remaining : ℕ) → clamp amount remaining ≤ remaining
unfolding clamp
clamp-le none remaining = omega arith
clamp-le (some (negsuc n)) remaining = omega arith
clamp-le (some (pos n)) remaining = ground arith

module _ {S : Type 0} where
  -- One read that returned `out`: it adds those bytes to the count, at most what remained.
  abbrev Advances : Reader S → Bytes → Reader S → Type 0
  Advances r out r' =
      (r'.size ≡ r.size) × (r'.bytes_read ≡ r.bytes_read + length out) × (r'.bytes_read ≤ r'.size)

  take_chunk-empty :
      (amount : ℕ) (chunk : Chunk) (r r' : Reader S) → take_chunk amount chunk r ≡ (ok [], r') → ⊥
  unfolding take_chunk
  take_chunk-empty amount not_bytes r r' h = cc
  take_chunk-empty amount (raises e) r r' h = cc
  take_chunk-empty amount (bytes []) r r' h = cc
  take_chunk-empty amount (bytes (b ∷ rest)) r r' h = ground (arith, h)

  take_chunk-Advances :
      (amount : ℕ) (chunk : Chunk) (r r' : Reader S) (out : Bytes)
      → take_chunk amount chunk r ≡ (ok out, r')
      → amount + r.bytes_read ≤ r.size
      → Advances r out r'
  unfolding take_chunk
  take_chunk-Advances amount not_bytes r r' out h fits = cc
  take_chunk-Advances amount (raises e) r r' out h fits = cc
  take_chunk-Advances amount (bytes []) r r' out h fits = cc
  take_chunk-Advances amount (bytes (b ∷ rest)) r r' out h fits = ground (arith, h)

  read-Advances :
      (read_stream : ℕ → S → Chunk × S) (amount : Option ℤ) (r r' : Reader S) (out : Bytes)
      → read read_stream amount r ≡ (ok out, r')
      → r.bytes_read ≤ r.size
      → Advances r out r'
  unfolding read
  read-Advances read_stream amount r r' out h within =
      let w = clamp amount (r.size - r.bytes_read) in
      let c = read_stream w r.stream in
      ground (
        arith,
        h,
        clamp-le amount (r.size - r.bytes_read),
        take_chunk-Advances w c.0 (record r { stream = c.1 }) r' out,
      )

  read-empty :
      (read_stream : ℕ → S → Chunk × S) (r r' : Reader S)
      → read read_stream none r ≡ (ok [], r')
      → r.bytes_read ≤ r.size
      → r'.bytes_read ≡ r'.size
  unfolding read clamp take_chunk
  read-empty read_stream r r' h within =
      let c = read_stream (r.size - r.bytes_read) r.stream in
      ground (arith, h, take_chunk-empty (r.size - r.bytes_read) c.0 (record r { stream = c.1 }) r')

  -- Reads in a row that all returned, with the bytes of each.
  pub data Reads (read_stream : ℕ → S → Chunk × S) : Reader S → List Bytes → Reader S → Type 0 where
    stop : (r : Reader S) → Reads read_stream r [] r
    next :
        (amount : Option ℤ) (out : Bytes) (rest : List Bytes) (r r1 r2 : Reader S)
        → read read_stream amount r ≡ (ok out, r1)
        → Reads read_stream r1 rest r2
        → Reads read_stream r (out ∷ rest) r2

  Reads-count :
      (read_stream : ℕ → S → Chunk × S) (r r' : Reader S) (outs : List Bytes)
      → Reads read_stream r outs r'
      → r.bytes_read ≤ r.size
      → (r'.size ≡ r.size)
        × (r'.bytes_read ≡ r.bytes_read + total_length outs)
        × (r'.bytes_read ≤ r'.size)
  Reads-count read_stream r r' outs (stop s) within = (refl, omega arith, within)
  Reads-count read_stream r r' (o ∷ os) (next amount out rest s r1 r2 one more) within =
      let (size, count, fits) = read-Advances read_stream amount r r1 out one within in
      let (size', count', fits') = Reads-count read_stream r1 r' rest more fits in
      (size' ∙ size, omega (arith, count, count'), fits')

  -- From a reader that was opened with a size: however the stream below behaves and whatever amounts
  -- are asked for, reads that all return hand on at most that many bytes in all, and at most 512
  -- MiB; and a plain read that then answers with no bytes means that all of them were handed on.
  pub Reads-bounds :
      (read_stream : ℕ → S → Chunk × S) (stream : S) (size : ℕ) (r r' r'' : Reader S)
      (outs : List Bytes)
      → open_reader stream (pos size) ≡ ok r
      → Reads read_stream r outs r'
      → (total_length outs ≤ size)
        × (size ≤ max_snapshot_bytes)
        × (read read_stream none r' ≡ (ok [], r'') → total_length outs ≡ size)
  unfolding open_reader
  Reads-bounds read_stream stream size r r' r'' outs opened reads =
      let start : (r.size ≡ size) × (r.bytes_read ≡ 0) × (size ≤ max_snapshot_bytes) =
        ground (arith, opened) in
      let (same, count, fits) = Reads-count read_stream r r' outs reads (omega (arith, start)) in
      (
        omega (arith, start, same, count, fits),
        start.2,
        λ e. omega (
          arith,
          start,
          same,
          count,
          fits,
          read-empty read_stream r' r'' e fits,
          read-Advances read_stream none r' r'' [] e fits,
        ),
      )
