-- ===== src/Tests/Session.antt =====
-- instrumentation/instrument_front_end.c on a transaction of one copy and one tracked block.
use mangosteen_code.Common.{
  ℕ, ◌≡◌, ◌⊎◌, inl, inr, refl, arith, [], ◌∷◌, some, update, length, ℕ_discrete,
}
use mangosteen_code.RingBuffer.{zero_ring, get_global_head_value, get_global_tail_value}
use mangosteen_code.RingBuffer.Fifo.{System, initial}
use mangosteen_code.RegionTable.{zero_table}
use mangosteen_code.BackEnd.{BackEnd}
use mangosteen_code.Instrumentation.{
  FrontEnd, MemcpyEntry, instrument_stop, memcpy_blocks, blocks_from, int_distance,
}
use mangosteen_code.Instrumentation.Cover.{memcpy_blocks_long}
use mangosteen_code.Instrumentation.Session.{
  HasRoom, transaction_log, memcpy_log, logged, Stopped, instrument_stop_session,
}
use mangosteen_code.Instrumentation.Durable.{Tracked}

-- The copied range is 128 to 168, and the hash set names the block at 2048.
abbrev copy : MemcpyEntry
copy = record { start = 128; finish = 168 }

abbrev changed : FrontEnd
changed = record {
  ring = zero_ring;
  thread = record {
    hash_set_entries = 0 ∷ 2048 ∷ 0 ∷ [];
    number_of_hash_set_entries = 1;
    combiner = 1;
    last_syscall = record { sysnum = 0; addr = 0; size = 0 };
    cursor = record { head = 0; tail = 0 };
    deferred_mmap_entries = [];
    memcpy_array = copy ∷ [];
  };
  overflow_buffer = [];
  mem = update (update (λ a. 0) 2050 9) 130 4;
  fc_writers = 1;
}

abbrev idle_ring : System
idle_ring = let s = initial 0 in record s { ring = zero_ring }

changed-HasRoom :
    HasRoom
      (record {
        head = get_global_head_value changed.ring;
        tail = get_global_tail_value changed.ring;
      })
      (length (transaction_log changed))
unfolding get_global_head_value get_global_tail_value transaction_log memcpy_log memcpy_blocks
    int_distance blocks_from logged
changed-HasRoom = record { head-lt = omega arith; tail-lt = omega arith; room = omega arith }

instrument_stop_session_example :
    (after : FrontEnd) × (t : System) × (instrument_stop changed ≡ some after)
    × Stopped changed (initial 0) after t
instrument_stop_session_example =
    instrument_stop_session changed (initial 0) refl refl changed-HasRoom

-- The back end's memory is what it was before the transaction.
abbrev back_end : BackEnd
back_end = record {
  ring = zero_ring;
  table = zero_table;
  globals = (initial 0).consumer;
  mem = λ a. 0;
  sequence_number = 0;
}

tracked : (x : ℕ) → (Tracked changed x) ⊎ (back_end.mem x ≡ changed.mem x)
unfolding logged
tracked x = elim (ℕ_discrete x 130) [
  | yes copied ↦ inl (inl (inl (omega arith, omega arith, omega arith, omega arith)))
  | no other ↦ elim (ℕ_discrete x 2050) [
    | yes stored ↦ inl (inr (inr (inl (omega arith, omega arith))))
    | no untouched ↦ inr (ground arith)
  ]
]

memcpy_blocks_long_example : memcpy_blocks (record { start = 4096; finish = 3000000000 }) ≡ []
memcpy_blocks_long_example =
    memcpy_blocks_long (record { start = 4096; finish = 3000000000 }) (omega arith) (omega arith)
