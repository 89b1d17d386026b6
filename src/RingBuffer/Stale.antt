-- ===== src/RingBuffer/Stale.antt =====
-- ring_buffer/ring_buffer.c, `ring_buffer_commit_enqueued_entries`: its loop reads
-- `last_persisted_head`, which a producer may have set back (`set_global_head_value`), where the
-- enqueue loops read `remote_head`.
use mangosteen_code.Common.{◌≡◌, ◌≢◌, refl, sym, ◌∙◌, some, none, arith, update}
use mangosteen_code.RingBuffer.{
  RingBuffer, Entry, commit_entry, Cursor, Globals, next_index, commit_enqueued_entries, dequeue,
}
use mangosteen_code.RingBuffer.Spin.{wait_for_space_moved}

abbrev committed : Entry → Entry
committed e = record e { entry_type = commit_entry }

-- The ring is full, and `last_persisted_head` is an older head: the commit takes the last free slot,
-- publishes a tail equal to the head, and a consumer that stands there takes the full ring for empty.
pub commit_overfills :
    (r : RingBuffer) (c : Cursor) (g : Globals)
    → next_index c.tail ≡ c.head
    → r.remote_head ≡ c.head
    → r.last_persisted_head ≢ c.head
    → g.global_local_head ≡ r.remote_head
    → g.global_local_tail ≡ r.remote_head
    → (r' : RingBuffer) × (c' : Cursor) × (commit_enqueued_entries r c ≡ some (r', c'))
      × (r'.remote_tail ≡ r'.remote_head)
      × (dequeue r' g ≡ none)
unfolding commit_enqueued_entries dequeue
commit_overfills r c g full fresh old at_head at_tail = (
  record r {
    buffer = update r.buffer c.tail (committed (r.buffer c.tail));
    remote_tail = next_index c.tail;
    last_persisted_tail = next_index c.tail;
  },
  record { head = r.last_persisted_head; tail = next_index c.tail },
  rw (wait_for_space_moved r.last_persisted_head (next_index c.tail) c.head full (ground arith))
      refl,
  full ∙ sym fresh,
  ground arith,
)
