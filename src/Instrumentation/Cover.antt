-- ===== src/Instrumentation/Cover.antt =====
-- instrumentation/instrument_front_end.c: which bytes of a copied range the loop of `instrument_stop`
-- logs.
use mangosteen_code.Common.{
  ℕ, zero, suc, ◌+◌, ◌-◌, ◌^◌, ◌%◌, ◌≤◌, ◌<◌, ◌≡◌, ◌⊎◌, inl, inr, List, [], ◌∷◌, arith, lt→ltb,
  dec_lt,
}
use mangosteen_code.RingBuffer.{payload_size}
use mangosteen_code.Instrumentation.{MemcpyEntry, blocks_from, memcpy_blocks, int_distance}

-- The byte at `x` lies in one of the blocks.
abbrev pub Covered : List ℕ → ℕ → Type 0
Covered [] x = ⊥
Covered (a ∷ blocks) x = ((a ≤ x) × (x < a + payload_size)) ⊎ Covered blocks x

blocks-Covered :
    (fuel from j distance x : ℕ)
    → from + j ≤ x
    → x < from + distance
    → distance ≤ j + fuel
    → Covered (blocks_from fuel from j distance) x
unfolding blocks_from
blocks-Covered zero from j distance x low high enough = absurd (omega arith)
blocks-Covered (suc fuel) from j distance x low high enough =
    rw (lt→ltb j distance (omega arith)) (elim (dec_lt x (from + j + payload_size)) [
      | yes here ↦ inl (low, here)
      | no past ↦
          inr (
            blocks-Covered fuel from (j + payload_size) distance x (omega arith) high (omega arith))
    ])

-- Every byte of a recorded range that is shorter than 2^31 bytes lies in a block that is logged.
pub memcpy_blocks-Covered :
    (e : MemcpyEntry) (x : ℕ)
    → e.finish < e.start + 2 ^ 31
    → e.finish < 2 ^ 64
    → e.start ≤ x
    → x < e.finish
    → Covered (memcpy_blocks e) x
unfolding memcpy_blocks int_distance
memcpy_blocks-Covered e x short fits low high =
    let d = (e.finish + 2 ^ 64 - e.start) % 2 ^ 32 in
    let is : d ≡ e.finish - e.start = omega arith in
    rw (lt→ltb d (2 ^ 31) (omega arith))
      (blocks-Covered d e.start 0 d x (omega arith) (omega arith) (omega arith))

-- A range of 2^31 bytes or more, up to 2^32, is recorded and none of it is logged: the distance is
-- negative as an `int`.
pub memcpy_blocks_long :
    (e : MemcpyEntry)
    → e.start + 2 ^ 31 ≤ e.finish
    → e.finish < e.start + 2 ^ 32
    → memcpy_blocks e ≡ []
unfolding memcpy_blocks int_distance blocks_from
memcpy_blocks_long e low high = ground arith
