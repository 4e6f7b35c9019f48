-- ===== src/Administration/Snapshots/Download.antt =====
-- A download hands on at most the allowed size, and ends well only at its declared size.
use netbox_openbao.Prelude.{
  ℕ, ◌+◌, ◌≤◌, Bool, true, false, Option, none, some, List, [], ◌∷◌, ◌≡◌, refl, arith, length, ltb,
  if◌then◌else◌, Bool-cases, inl, inr, subst, sym, ◌∙◌,
}
use netbox_openbao.Exec.{ok}
use netbox_openbao.Administration.Snapshots.{
  Bytes, Chunk, bytes, not_bytes, raises, SnapshotDownload, Delivery, failing, other_size,
  yield_first, deliver, chunks, max_snapshot_bytes,
}

-- `sum(len(chunk) for chunk in chunks)`
abbrev pub total_length : List Bytes → ℕ
total_length [] = 0
total_length (chunk ∷ rest) = length chunk + total_length rest

total-yield_first :
    (chunk : Bytes) (d : Delivery)
    → total_length (yield_first chunk d).yielded ≡ length chunk + total_length d.yielded
total-yield_first [] d = omega arith
total-yield_first (b ∷ rest) d = refl

ending-yield_first : (chunk : Bytes) (d : Delivery) → (yield_first chunk d).ending ≡ d.ending
ending-yield_first [] d = refl
ending-yield_first (b ∷ rest) d = refl

-- The size that was declared, if one was, is the number of bytes.
abbrev pub Agrees : Option ℕ → ℕ → Type 0
Agrees none total = Unit
Agrees (some size) total = size ≡ total

other_size-Agrees :
    (declared : Option ℕ) (total : ℕ) → other_size declared total ≡ false → Agrees declared total
other_size-Agrees none total h = tt
other_size-Agrees (some size) total h = ground (arith, h)

-- What was counted so far and what is yielded from here on fit, and a good end agrees with the
-- declared size.
abbrev pub Fits : Option ℕ → ℕ → Delivery → Type 0
Fits declared total d =
    (total + total_length d.yielded ≤ max_snapshot_bytes)
    × (d.ending ≡ ok tt → Agrees declared (total + total_length d.yielded))

finish-Fits :
    (declared : Option ℕ) (total : ℕ) (b : Bool)
    → other_size declared total ≡ b
    → total ≤ max_snapshot_bytes
    → Fits declared total (
        if b
        then failing "Snapshot stream length did not match its declared size."
        else record { yielded = []; ending = ok tt })
finish-Fits declared total true h fits = (omega arith, λ e. cc)
finish-Fits declared total false h fits =
    let same : total ≡ total + 0 = omega arith in
    (omega arith, λ e. subst (Agrees declared) same (other_size-Agrees declared total h))

yield_first-Fits :
    (declared : Option ℕ) (total : ℕ) (chunk : Bytes) (d : Delivery)
    → Fits declared (total + length chunk) d
    → Fits declared total (yield_first chunk d)
yield_first-Fits declared total chunk d (fits, agrees) =
    let same : total + length chunk + total_length d.yielded
        ≡ total + total_length (yield_first chunk d).yielded =
      omega (arith, total-yield_first chunk d) in
    (
      omega (arith, fits, total-yield_first chunk d),
      λ e. subst (Agrees declared) same (agrees (sym (ending-yield_first chunk d) ∙ e)),
    )

chunk-Fits :
    (declared : Option ℕ) (total : ℕ) (chunk : Bytes) (later : Delivery) (b : Bool)
    → ltb max_snapshot_bytes (total + length chunk) ≡ b
    → total ≤ max_snapshot_bytes
    → (total + length chunk ≤ max_snapshot_bytes → Fits declared (total + length chunk) later)
    → Fits declared total (
        if b then failing "Snapshot stream exceeded the allowed size." else yield_first chunk later)
chunk-Fits declared total chunk later true h fits rest = (omega arith, λ e. cc)
chunk-Fits declared total chunk later false h fits rest =
    yield_first-Fits declared total chunk later (rest (ground (arith, h)))

deliver-Fits :
    (declared : Option ℕ) (total : ℕ) (stream : List Chunk)
    → total ≤ max_snapshot_bytes
    → Fits declared total (deliver declared total stream)
unfolding deliver
deliver-Fits declared total [] h = finish-Fits declared total _ refl h
deliver-Fits declared total (raises e ∷ rest) h = (omega arith, λ w. cc)
deliver-Fits declared total (not_bytes ∷ rest) h = (omega arith, λ w. cc)
deliver-Fits declared total (bytes chunk ∷ rest) h =
    chunk-Fits declared total chunk (deliver declared (total + length chunk) rest) _ refl h
      (deliver-Fits declared (total + length chunk) rest)

-- However the response streams, a download hands on at most 512 MiB in all; it ends without an
-- exception only if it was opened for the first time and, where a size was declared, handed on
-- exactly that many bytes; and a download that was opened once hands on nothing any more.
pub chunks-bounds :
    (d : SnapshotDownload) (stream : List Chunk)
    → let (delivery, after) = chunks d stream in
      (total_length delivery.yielded ≤ max_snapshot_bytes)
      × (delivery.ending ≡ ok tt
          → (d.opened ≡ false) × Agrees d.declared_size (total_length delivery.yielded))
      × ((again : List Chunk) → (chunks after again).0.yielded ≡ [])
unfolding chunks
chunks-bounds d stream =
    let (fits, agrees) = deliver-Fits d.declared_size 0 stream (omega arith) in
    let shown : 0 + total_length (deliver d.declared_size 0 stream).yielded
        ≡ total_length (deliver d.declared_size 0 stream).yielded =
      omega arith in
    elim (Bool-cases d.opened) [
      | inl opened ↦
          (ground (arith, opened), λ e. ground (arith, opened, e), λ again. ground (arith, opened))
      | inr fresh ↦ rw fresh (
          (
            omega (arith, fits),
            λ e. (refl, subst (Agrees d.declared_size) shown (agrees e)),
            λ again. refl,
          ))
    ]
