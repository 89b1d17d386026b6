-- ===== src/Tests/Transaction.antt =====
-- instrumentation/instrument_front_end.c and back-end/back_end.c on a transaction of a store over the end
-- of a block, a store through the stack pointer and a call of memcpy.
use mangosteen_code.Common.{
  ℕ, ◌+◌, ◌≡◌, inl, inr, refl, arith, List, [], ◌∷◌, true, false, ◌==◌, if◌then◌else◌, ◌≤◌, ◌<◌,
}
use mangosteen_code.RingBuffer.{
  RingBuffer, zero_ring, commit_dequeued_entries, get_global_head_value, get_global_tail_value,
}
use mangosteen_code.RingBuffer.Fifo.{System, Reach, IsFresh, initial, start, later, acknowledge}
use mangosteen_code.BackEnd.{BackEnd}
use mangosteen_code.Collector.Machine.{Regs}
use mangosteen_code.Instrumentation.{FrontEnd}
use mangosteen_code.Instrumentation.Session.{HasRoom}
use mangosteen_code.Transaction.{
  Action, store, copy, base_disp, no_memory_reference, event_bb_insert, Layout, table_slots,
  records_for, OnStack,
}
use mangosteen_code.Transaction.Survives.{Begun}
use mangosteen_code.Tests.Replay.{two_regions}

abbrev pub scratch : Regs
scratch = record {
  destination = 7;
  pointer = 7;
  range_end = 7;
  index = 7;
  value = 7;
  count_address = 7;
  counter = 7;
}

abbrev pub layout : Layout
layout = record { pointer = 100000; base = 200000; count = 50 }

abbrev pub words : ℕ → ℕ
words x = if x == 100000 then 50 else if x == 100008 then 200000 else if x == 105912 then 1 else 0

abbrev pub actions : List Action
actions =
    store (base_disp false) 2044 (1 ∷ 2 ∷ 3 ∷ 4 ∷ 5 ∷ 6 ∷ 7 ∷ 8 ∷ []) scratch 0 0
    ∷ store (base_disp true) 9000 (9 ∷ []) scratch 0 0
    ∷ copy 5000 2044 8
    ∷ []

-- A push writes the stack pointer and memory through it; a store writes memory.
event_bb_insert_test :
    event_bb_insert 0 (base_disp true ∷ no_memory_reference ∷ base_disp false ∷ []) ≡ 2 ∷ []
unfolding event_bb_insert
event_bb_insert_test = refl

-- The ring after the back end has committed the two regions
abbrev pub settled_ring : RingBuffer
settled_ring = record zero_ring {
  commit_metadata = record { number_of_regions = 2; ring_buffer_head = 0 };
}

abbrev pub front_end : FrontEnd
front_end = record {
  ring = settled_ring;
  thread = record {
    hash_set_entries = table_slots words 200000 1024;
    number_of_hash_set_entries = 0;
    combiner = 1;
    last_syscall = record { sysnum = 0; addr = 0; size = 0 };
    cursor = record { head = 0; tail = 0 };
    deferred_mmap_entries = [];
    memcpy_array = [];
  };
  overflow_buffer = [];
  mem = λ a. 0;
  fc_writers = 1;
}

-- The back end has two regions.
abbrev pub back_end : BackEnd
back_end = record {
  ring = settled_ring;
  table = two_regions;
  globals = (initial 0).consumer;
  mem = λ a. 0;
  sequence_number = 2;
}

abbrev pub first_state : System
first_state = let s = initial 0 in record s { ring = settled_ring }

pub first_state-Reach : (r : Reach first_state) × IsFresh r
unfolding commit_dequeued_entries
first_state-Reach = (later (start 0) (acknowledge 2), (record {}, record {}))

pub front_end-Begun : Begun layout words front_end
front_end-Begun = record {
  layout = record {
    low = omega arith;
    apart = λ i lt. omega arith;
    combiner_apart = omega arith;
    count_apart = omega arith;
    entries_apart = omega arith;
    combiner_outside = λ i lt. omega arith;
    count_outside = λ i lt. omega arith;
    entries_outside = λ i lt. omega arith;
    busy = λ e. omega arith;
    count_at = refl;
    table_at = refl;
  };
  empty = λ i lt. ground arith;
  word = omega arith;
  entries = refl;
  combiner = refl;
  no_memcpy = refl;
  no_overflow = refl;
}

pub front_end-HasRoom :
    HasRoom
      (record {
        head = get_global_head_value front_end.ring;
        tail = get_global_tail_value front_end.ring;
      })
      (records_for actions + 1025)
unfolding get_global_head_value get_global_tail_value records_for
front_end-HasRoom = record { head-lt = omega arith; tail-lt = omega arith; room = omega arith }

pub on_stack : (x : ℕ) → OnStack actions x → (9000 ≤ x) × (x < 9001)
on_stack x (inl k) = (let impossible = k.0 in absurd (cc))
on_stack x (inr (inl k)) = (k.1, omega (arith, k.2))
on_stack x (inr (inr k)) = absurd k
