-- ===== src/Transaction/Length.antt =====
-- instrumentation/instrument_front_end.c: how many records a transaction logs.
use mangosteen_code.Common.{
  ℕ, zero, suc, ◌+◌, ◌-◌, ◌%◌, ◌/◌, ◌<◌, ◌^◌, ◌≤◌, ◌≡◌, refl, arith, length, List, [], ◌∷◌, ◌++◌,
  lt→ltb, ◌∙◌, ap,
}
use mangosteen_code.Memory.{Mem}
use mangosteen_code.Instrumentation.{
  FrontEnd, MemcpyEntry, memcpy_blocks, blocks_from, int_distance,
}
use mangosteen_code.Instrumentation.Session.{
  memcpy_log, transaction_log, length-memcpy, length-transaction,
}
use mangosteen_code.Transaction.Table.{length-logged}

length-blocks_from :
    (fuel from j distance : ℕ)
    → length (blocks_from fuel from j distance) ≤ (distance - j + 31) / 32
unfolding blocks_from
length-blocks_from zero from j distance = omega arith
length-blocks_from (suc fuel) from j distance =
    ground (arith, length-blocks_from fuel from (j + 32) distance)

pub length-memcpy_blocks :
    (start size : ℕ)
    → size < 2 ^ 31
    → start + size < 2 ^ 64
    → length (memcpy_blocks (record { start = start; finish = start + size })) ≤ size / 32 + 1
unfolding memcpy_blocks int_distance
length-memcpy_blocks start size short fits =
    let d : (start + size + 2 ^ 64 - start) % 2 ^ 32 ≡ size = omega arith in
    rw (d, lt→ltb size (2 ^ 31) short) (omega (arith, length-blocks_from size start 0 size))

-- The records of the copied ranges
unfoldable pub memcpy_records : List MemcpyEntry → ℕ
memcpy_records [] = 0
memcpy_records (e ∷ es) = length (memcpy_blocks e) + suc (memcpy_records es)

length-memcpy_log : (m : Mem) (es : List MemcpyEntry) → length (memcpy_log m es) ≡ memcpy_records es
unfolding memcpy_log memcpy_records
length-memcpy_log m [] = refl
length-memcpy_log m (e ∷ es) =
    length-memcpy m e es ∙ ap (λ n. length (memcpy_blocks e) + suc n) (length-memcpy_log m es)

pub memcpy_records-append :
    (es : List MemcpyEntry) (e : MemcpyEntry)
    → memcpy_records (es ++ (e ∷ [])) ≡ memcpy_records es + (length (memcpy_blocks e) + 1)
unfolding memcpy_records
memcpy_records-append [] e = omega arith
memcpy_records-append (d ∷ es) e = omega (arith, memcpy_records-append es e)

-- The log is as long as the copied ranges make it, with a record for each address in the overflow
-- buffer and for each slot at most, and the mark.
pub length-transaction_le :
    (f : FrontEnd)
    → length (transaction_log f)
      ≤ memcpy_records f.thread.memcpy_array
        + (length f.overflow_buffer + length f.thread.hash_set_entries + 1)
length-transaction_le f = omega (
  arith,
  length-transaction f,
  length-memcpy_log f.mem f.thread.memcpy_array,
  length-logged f.thread.hash_set_entries,
)
