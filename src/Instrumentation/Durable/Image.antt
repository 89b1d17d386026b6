-- ===== src/Instrumentation/Durable/Image.antt =====
-- instrumentation/instrument_front_end.c: the log of a transaction as a copy of the blocks that it
-- names, and what it restores.
use mathlib.Core.List.{append_assoc}
use mangosteen_code.Common.{
  ℕ, ◌+◌, ◌≤◌, ◌<◌, ◌^◌, ◌≡◌, ◌≢◌, refl, ◌⊎◌, inl, inr, List, [], ◌∷◌, ◌++◌, map, arith,
}
use mangosteen_code.Memory.{Mem, write-read}
use mangosteen_code.RingBuffer.{payload_size}
use mangosteen_code.RingBuffer.Size.{LogRecord, redo, map_region, commit}
use mangosteen_code.BackEnd.Log.{apply_record, apply_log, IsBatches}
use mangosteen_code.Instrumentation.{FrontEnd, MemcpyEntry, memcpy_blocks}
use mangosteen_code.Instrumentation.Cover.{Covered, memcpy_blocks-Covered}
use mangosteen_code.Instrumentation.Session.{redo_record, logged, memcpy_log, transaction_log}

-- A log that holds, in blocks of `payload_size` bytes, what the memory `m` holds.
pub data IsImage (m : Mem) : List LogRecord → Type 0 where
  nothing : IsImage m []
  block : (a : ℕ) {l : List LogRecord} → IsImage m l → IsImage m (redo_record m a ∷ l)
  mark : {l : List LogRecord} → IsImage m l → IsImage m (commit ∷ l)

-- Some record of the log stores to the address.
unfoldable pub Stored : List LogRecord → ℕ → Type 0
Stored [] x = ⊥
Stored (redo a payload ∷ l) x = ((a ≤ x) × (x < a + payload_size)) ⊎ Stored l x
Stored (map_region t a size ∷ l) x = Stored l x
Stored (commit ∷ l) x = Stored l x

block-inside :
    (m n : Mem) (a x : ℕ)
    → ((a ≤ x) × (x < a + payload_size)) ⊎ (n x ≡ m x)
    → apply_record (redo_record m a) n x ≡ m x
unfolding apply_record
block-inside m n a x (inl h) = ground (arith, write-read n m a payload_size x)
block-inside m n a x (inr h) = ground (arith, write-read n m a payload_size x)

-- Applied to a memory that differs from `m` only where the log stores, an image of `m` makes it `m`.
pub image-restored :
    {m : Mem} {l : List LogRecord} (n : Mem) (x : ℕ)
    → IsImage m l
    → (Stored l x) ⊎ (n x ≡ m x)
    → apply_log l n x ≡ m x
unfolding apply_log Stored
image-restored n x nothing (inl h) = absurd h
image-restored n x nothing (inr h) = h
image-restored {m} n x (block a i) (inl (inl h)) =
    image-restored (apply_record (redo_record m a) n) x i (inr (block-inside m n a x (inl h)))
image-restored {m} n x (block a i) (inl (inr h)) =
    image-restored (apply_record (redo_record m a) n) x i (inl h)
image-restored {m} n x (block a i) (inr h) =
    image-restored (apply_record (redo_record m a) n) x i (inr (block-inside m n a x (inr h)))
image-restored n x (mark i) h = image-restored n x i h

blocks-IsImage :
    (m : Mem) (blocks : List ℕ) {l : List LogRecord}
    → IsImage m l
    → IsImage m (map (redo_record m) blocks ++ l)
blocks-IsImage m [] i = i
blocks-IsImage m (a ∷ blocks) i = block a (blocks-IsImage m blocks i)

memcpy_log-IsImage :
    (m : Mem) (es : List MemcpyEntry) {l : List LogRecord}
    → IsImage m l
    → IsImage m (memcpy_log m es ++ l)
unfolding memcpy_log
memcpy_log-IsImage m [] i = i
memcpy_log-IsImage m (e ∷ es) {l} i =
    rw (append_assoc (map (redo_record m) (memcpy_blocks e)) (commit ∷ memcpy_log m es) l)
      (blocks-IsImage m (memcpy_blocks e) (mark (memcpy_log-IsImage m es i)))

pub transaction_log-IsImage : (f : FrontEnd) → IsImage f.mem (transaction_log f)
unfolding transaction_log
transaction_log-IsImage f = memcpy_log-IsImage f.mem f.thread.memcpy_array (
    blocks-IsImage f.mem f.overflow_buffer
      (blocks-IsImage f.mem (logged f.thread.hash_set_entries) (mark nothing)))

-- Whole batches, at least one.
abbrev Ends : List LogRecord → Type 0
Ends l = IsBatches l × (l ≢ [])

blocks-Ends :
    (m : Mem) (blocks : List ℕ) (l : List LogRecord)
    → Ends l
    → Ends (map (redo_record m) blocks ++ l)
blocks-Ends m [] l h = h
blocks-Ends m (a ∷ blocks) l h =
    (redo-IsBatches (map (redo_record m) blocks ++ l) (blocks-Ends m blocks l h), λ e. cc)
  where
    redo-IsBatches : (r : List LogRecord) → Ends r → IsBatches (redo_record m a ∷ r)
    redo-IsBatches [] k = absurd (k.1 refl)
    redo-IsBatches (y ∷ r) k = k.0

memcpy_log-Ends :
    (m : Mem) (es : List MemcpyEntry) (l : List LogRecord) → Ends l → Ends (memcpy_log m es ++ l)
unfolding memcpy_log
memcpy_log-Ends m [] l h = h
memcpy_log-Ends m (e ∷ es) l h =
    rw (append_assoc (map (redo_record m) (memcpy_blocks e)) (commit ∷ memcpy_log m es) l) (
      blocks-Ends m (memcpy_blocks e) (commit ∷ (memcpy_log m es ++ l))
        ((memcpy_log-Ends m es l h).0, λ e. cc))

-- The log of a transaction is whole batches of redo records.
pub transaction_log-IsBatches : (f : FrontEnd) → IsBatches (transaction_log f)
unfolding transaction_log
transaction_log-IsBatches f =
    let m = f.mem in
    let hs = logged f.thread.hash_set_entries in
    let ended : Ends
        (map (redo_record m) f.overflow_buffer ++ (map (redo_record m) hs ++ (commit ∷ []))) =
      blocks-Ends m f.overflow_buffer (map (redo_record m) hs ++ (commit ∷ []))
        (blocks-Ends m hs (commit ∷ []) (record {}, λ e. cc)) in
    (memcpy_log-Ends m f.thread.memcpy_array _ ended).0

blocks-Stored :
    (m : Mem) (blocks : List ℕ) (l : List LogRecord) (x : ℕ)
    → (Covered blocks x) ⊎ (Stored l x)
    → Stored (map (redo_record m) blocks ++ l) x
unfolding Stored
blocks-Stored m [] l x (inl h) = absurd h
blocks-Stored m [] l x (inr h) = h
blocks-Stored m (a ∷ blocks) l x (inl (inl h)) = inl h
blocks-Stored m (a ∷ blocks) l x (inl (inr h)) = inr (blocks-Stored m blocks l x (inl h))
blocks-Stored m (a ∷ blocks) l x (inr h) = inr (blocks-Stored m blocks l x (inr h))

-- The address lies in a recorded range that is shorter than 2^31 bytes.
abbrev pub Copied : List MemcpyEntry → ℕ → Type 0
Copied [] x = ⊥
Copied (e ∷ es) x =
    ((e.finish < e.start + 2 ^ 31) × (e.finish < 2 ^ 64) × (e.start ≤ x) × (x < e.finish))
    ⊎ Copied es x

memcpy_log-Stored :
    (m : Mem) (es : List MemcpyEntry) (l : List LogRecord) (x : ℕ)
    → (Copied es x) ⊎ (Stored l x)
    → Stored (memcpy_log m es ++ l) x
unfolding memcpy_log Stored
memcpy_log-Stored m [] l x (inl h) = absurd h
memcpy_log-Stored m [] l x (inr h) = h
memcpy_log-Stored m (e ∷ es) l x h =
    rw (append_assoc (map (redo_record m) (memcpy_blocks e)) (commit ∷ memcpy_log m es) l) (
      blocks-Stored m (memcpy_blocks e) (commit ∷ (memcpy_log m es ++ l)) x (elim h [
        | inl (inl (short, fits, low, high)) ↦ inl (memcpy_blocks-Covered e x short fits low high)
        | inl (inr k) ↦ inr (memcpy_log-Stored m es l x (inl k))
        | inr k ↦ inr (memcpy_log-Stored m es l x (inr k))
      ]))

-- The front end knows that the byte at the address may have changed: the address is in a copied range
-- or in a block that the overflow buffer or the hash set names.
abbrev pub Tracked : FrontEnd → ℕ → Type 0
Tracked f x =
    (Copied f.thread.memcpy_array x)
    ⊎ (Covered f.overflow_buffer x)
    ⊎ (Covered (logged f.thread.hash_set_entries) x)

pub Tracked-Stored : (f : FrontEnd) (x : ℕ) → Tracked f x → Stored (transaction_log f) x
unfolding transaction_log
Tracked-Stored f x h =
    let m = f.mem in
    let hs = logged f.thread.hash_set_entries in
    let rest = map (redo_record m) hs ++ (commit ∷ []) in
    memcpy_log-Stored m f.thread.memcpy_array (map (redo_record m) f.overflow_buffer ++ rest) x
      (elim h [
        | inl k ↦ inl k
        | inr (inl k) ↦ inr (blocks-Stored m f.overflow_buffer rest x (inl k))
        | inr (inr k) ↦ inr (
            blocks-Stored m f.overflow_buffer rest x
              (inr (blocks-Stored m hs (commit ∷ []) x (inl k))))
      ])
