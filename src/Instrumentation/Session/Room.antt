-- ===== src/Instrumentation/Session/Room.antt =====
-- ring_buffer/ring_buffer.c: while the producer's own head leaves room, its loops are not entered.
use mangosteen_code.Common.{ℕ, suc, ◌+◌, ◌-◌, ◌%◌, ◌<◌, ◌≤◌, ◌≡◌, ◌≢◌, refl, some, arith, update}
use mangosteen_code.Memory.{Mem}
use mangosteen_code.RingBuffer.{
  RingBuffer, Entry, Cursor, ring_buffer_size, next_index, redo_of, commit_entry,
  enqueue_redo_log_entry, commit_enqueued_entries,
}
use mangosteen_code.RingBuffer.Spin.{wait_for_space_free}

-- By the cursor's own head, `n` more entries fit: one slot stays free.
pub record HasRoom (c : Cursor) (n : ℕ) : Type 0 where
  pub head-lt : c.head < ring_buffer_size
  pub tail-lt : c.tail < ring_buffer_size
  pub room : (c.tail + ring_buffer_size - c.head) % ring_buffer_size + n < ring_buffer_size

pub room_clear : {c : Cursor} {n : ℕ} → HasRoom c (suc n) → next_index c.tail ≢ c.head
unfolding next_index
room_clear h = ground arith

room_next :
    {c : Cursor} {n : ℕ}
    → HasRoom c (suc n)
    → HasRoom (record { head = c.head; tail = next_index c.tail }) n
unfolding next_index
room_next h = record { head-lt = h.head-lt; tail-lt = ground arith; room = ground arith }

pub enqueue_room :
    (m : Mem) (r : RingBuffer) (a : ℕ) {c : Cursor} {n : ℕ}
    → HasRoom c (suc n)
    → (r' : RingBuffer) × (c' : Cursor) × (enqueue_redo_log_entry m r a c ≡ some (r', c'))
      × HasRoom c' n
      × (r'.remote_head ≡ r.remote_head)
unfolding enqueue_redo_log_entry
enqueue_room m r a {c} h = (
  record r { buffer = update r.buffer c.tail (redo_of m a) },
  record { head = c.head; tail = next_index c.tail },
  rw (wait_for_space_free r.remote_head (next_index c.tail) c.head (room_clear h)) refl,
  room_next h,
  refl,
)

abbrev committed : Entry → Entry
committed e = record e { entry_type = commit_entry }

pub commit_room :
    (r : RingBuffer) {c : Cursor} {n : ℕ}
    → HasRoom c (suc n)
    → (r' : RingBuffer) × (c' : Cursor) × (commit_enqueued_entries r c ≡ some (r', c'))
      × HasRoom c' n
      × (r'.remote_head ≡ r.remote_head)
      × (next_index c.tail ≢ c.head)
unfolding commit_enqueued_entries
commit_room r {c} h = (
  record r {
    buffer = update r.buffer c.tail (committed (r.buffer c.tail));
    remote_tail = next_index c.tail;
    last_persisted_tail = next_index c.tail;
  },
  record { head = c.head; tail = next_index c.tail },
  rw (wait_for_space_free r.last_persisted_head (next_index c.tail) c.head (room_clear h)) refl,
  room_next h,
  refl,
  room_clear h,
)

pub less_room : {c : Cursor} (n : ℕ) {k : ℕ} → n ≤ k → HasRoom c k → HasRoom c n
less_room n le h = record { head-lt = h.head-lt; tail-lt = h.tail-lt; room = omega arith }
