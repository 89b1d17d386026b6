-- ===== src/RingBuffer/Deadlock.antt =====
-- ring_buffer/ring_buffer.c with its callers: a run to a commit that waits for the consumer while the
-- consumer waits for it. `ring_buffer_commit_enqueued_entries` waits on `last_persisted_head`, which
-- `set_global_head_value` has set back to the head that the producer began with.
use mangosteen_code.Common.{ℕ, ◌≡◌, [], ◌∷◌, update}
use mangosteen_code.Memory.{Mem, read}
use mangosteen_code.RingBuffer.{RingBuffer, payload_size, redo_of, commit_entry}
use mangosteen_code.RingBuffer.Size.{redo, commit, decode}
use mangosteen_code.RingBuffer.Fifo.{System, idle, writing, published, initial, marked}

module _ (mapped : ℕ) (m : Mem) (addr : ℕ) where
  abbrev appended : System
  appended =
      let s = initial mapped in
      let r = s.ring in
      record s {
        ring = record r { buffer = update r.buffer 0 (redo_of m addr) };
        phase = writing;
        producer = record { head = 0; tail = 1 };
        sent = redo addr (read m addr payload_size) ∷ [];
      }

  abbrev one_batch : System
  one_batch =
      let s = appended in
      let r = s.ring in
      let l = redo addr (read m addr payload_size) ∷ commit ∷ [] in
      record s {
        ring = record r {
          buffer = update r.buffer 1 (let e = r.buffer 1 in record e { entry_type = commit_entry });
          remote_tail = 2;
          last_persisted_tail = 2;
        };
        phase = published;
        producer = record { head = 0; tail = 2 };
        sent = l;
        visible = l;
      }

  abbrev taken : System
  taken =
      let s = one_batch in
      let g = s.consumer in
      record s {
        consumer = record g { global_local_head = 2; global_local_tail = 2 };
        received = decode (s.ring.buffer 0) ∷ decode (s.ring.buffer 1) ∷ [];
      }

  -- The consumer has acknowledged the batch, and the producer has stored its head over that.
  abbrev stored : System
  stored =
      let s = taken in
      let r = marked 0 s in
      record s { ring = record r { remote_head = 2; last_persisted_head = 0 }; phase = idle }

-- The second batch, up to the slot `t`: the producer and `last_persisted_head` hold the head 0, the
-- consumer stands at 2 and has seen all that is published.
record Filling (t : ℕ) (s : System) : Type 0 where
  phase : s.phase ≡ writing
  head : s.producer.head ≡ 0
  tail : s.producer.tail ≡ t
  stale : s.ring.last_persisted_head ≡ 0
  acknowledged : s.ring.remote_head ≡ 2
  last : s.ring.last_persisted_tail ≡ 2
  consumer_head : s.consumer.global_local_head ≡ 2
  consumer_tail : s.consumer.global_local_tail ≡ 2
  all : s.received ≡ s.visible
