-- ===== src/Tests/Ring.antt =====
-- ring_buffer/ring_buffer.c at concrete rings.
use mangosteen_code.Common.{
  ℕ, ◌+◌, ◌≤◌, ◌<◌, ◌≡◌, ◌≢◌, refl, List, [], ◌∷◌, ◌++◌, map, none, some, arith, update,
}
use mangosteen_code.Memory.{Mem, read}
use mangosteen_code.RingBuffer.{
  RingBuffer, Entry, MapEntry, Cursor, Globals, ring_buffer_size, payload_size, next_index, redo_of,
  commit_entry, zero_ring, zero_entry, store_map_entry, enqueue_redo_log_entry,
  commit_enqueued_entries, dequeue, get_global_head_value, get_global_tail_value,
}
use mangosteen_code.RingBuffer.Size.{
  LogRecord, redo, map_region, commit, decode, decode-store_map_entry,
}
use mangosteen_code.RingBuffer.Window.{slot, window}
use mangosteen_code.RingBuffer.Fifo.{
  System, writing, published, initial, load, append_redo, publish, take, Reach, start, later,
  IsFresh, sent-eq-received, received-prefix-visible, dequeue_progress, enqueue_progress,
}
use mangosteen_code.RingBuffer.Stale.{commit_overfills}
use mangosteen_code.RingBuffer.Layout.{file_too_short, offsets, pmem_file_size}

abbrev bytes : Mem
bytes = λ a. a

-- One block appended and published, and its first entry taken.
abbrev loaded : System
loaded = let s = initial 0 in record s { phase = writing }

abbrev ring_appended : RingBuffer
ring_appended = let r = loaded.ring in record r { buffer = update r.buffer 0 (redo_of bytes 64) }

abbrev appended : System
appended = record loaded {
  ring = ring_appended;
  producer = record { head = 0; tail = 1 };
  sent = redo 64 (read bytes 64 payload_size) ∷ [];
}

abbrev ring_published : RingBuffer
ring_published =
    let r = ring_appended in
    record r {
      buffer = update r.buffer 1 (let e = r.buffer 1 in record e { entry_type = commit_entry });
      remote_tail = 2;
      last_persisted_tail = 2;
    }

abbrev batch : List LogRecord
batch = redo 64 (read bytes 64 payload_size) ∷ commit ∷ []

abbrev one_batch : System
one_batch = record appended {
  ring = ring_published;
  phase = published;
  producer = record { head = 0; tail = 2 };
  sent = batch;
  visible = batch;
}

one_batch-Reach : (r : Reach one_batch) × IsFresh r
unfolding enqueue_redo_log_entry commit_enqueued_entries get_global_head_value get_global_tail_value
one_batch-Reach = (
  later (later (later (start 0) (load refl)) (append_redo bytes 64 (λ e. cc) refl))
      (publish (λ e. cc) refl),
  (((record {}, record {}), record {}), λ full. absurd (omega arith)),
)

abbrev taken : System
taken =
    let s = one_batch in
    let g = s.consumer in
    record s {
      consumer = record g { global_local_head = 1; global_local_tail = 2 };
      received = decode (ring_published.buffer 0) ∷ [];
    }

taken-Reach : (r : Reach taken) × IsFresh r
unfolding dequeue
taken-Reach = (later one_batch-Reach.0 (take refl), (one_batch-Reach.1, record {}))

sent-eq-received_example :
    (n : ℕ) × (from : ℕ) × (taken.sent
      ≡ taken.received ++ map decode (window taken.ring.buffer from n))
    × (taken.consumer.global_local_head ≡ slot from)
    × (n < ring_buffer_size)
sent-eq-received_example = sent-eq-received taken-Reach.0 taken-Reach.1

received-prefix-visible_example : (rest : List LogRecord) × (taken.visible ≡ taken.received ++ rest)
received-prefix-visible_example = received-prefix-visible taken-Reach.0 taken-Reach.1

dequeue_progress_example :
    (e : Entry) × (g : Globals) × (dequeue taken.ring taken.consumer ≡ some (e, g))
dequeue_progress_example = dequeue_progress taken-Reach.0 taken-Reach.1 (λ e. cc) (omega arith)

enqueue_progress_example : enqueue_redo_log_entry bytes one_batch.ring 96 one_batch.producer ≢ none
enqueue_progress_example =
    enqueue_progress one_batch-Reach.0 one_batch-Reach.1 refl (omega arith) bytes 96

-- Full by the head that the producer holds.
abbrev full : RingBuffer
full = record zero_ring { remote_head = 5; remote_tail = 65535; last_persisted_tail = 65535 }

abbrev at_end : Cursor
at_end = record { head = 0; tail = 65535 }

-- The consumer has taken five entries, the ring is full, and `last_persisted_head` is still 0.
abbrev behind : RingBuffer
behind = record zero_ring { remote_head = 5; remote_tail = 4; last_persisted_tail = 4 }

abbrev last_slot : Cursor
last_slot = record { head = 5; tail = 4 }

abbrev idle_consumer : Globals
idle_consumer = record {
  global_local_head = 5;
  global_local_tail = 5;
  number_of_mmaped_memory_regions = 0;
}

commit_overfills_example :
    (r : RingBuffer) × (c : Cursor) × (commit_enqueued_entries behind last_slot ≡ some (r, c))
    × (r.remote_tail ≡ r.remote_head)
    × (dequeue r idle_consumer ≡ none)
unfolding next_index
commit_overfills_example =
    commit_overfills behind last_slot idle_consumer refl refl (λ e. omega arith) refl refl

abbrev a_region : MapEntry
a_region = record { entry_type = 1; addr = 4096; size = 70000 }

decode-store_map_entry_example :
    decode (store_map_entry zero_entry a_region) ≡ map_region 1 4096 70000
decode-store_map_entry_example = decode-store_map_entry zero_entry a_region refl refl (omega arith)

file_too_short_example :
    ((offsets 65536).last_persisted_head + 8 ≤ pmem_file_size 65536)
    × ((offsets 65536).last_persisted_tail + 8 ≤ pmem_file_size 65536)
    × ((offsets 65536).remote_head + 8 ≤ pmem_file_size 65536)
    × (pmem_file_size 65536 ≤ (offsets 65536).remote_tail)
    × (pmem_file_size 65536 ≤ (offsets 65536).producer_addr)
    × (pmem_file_size 65536 ≤ (offsets 65536).commit_metadata)
file_too_short_example = file_too_short 65536
