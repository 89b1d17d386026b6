-- ===== src/RingBuffer/Fifo/Counters.antt =====
-- The system of one producer and one consumer, and its invariant: the indices are the slots of
-- positions in one order, and what was sent is what was received with what lies between.
use mangosteen_code.Common.{
  ℕ, ◌+◌, ◌%◌, ◌^◌, ◌≤◌, ◌<◌, ◌≡◌, ◌≢◌, refl, List, [], ◌∷◌, ◌++◌, map, some, arith, ◌⊎◌,
}
use mangosteen_code.Memory.{Mem, read}
use mangosteen_code.RingBuffer.{
  RingBuffer, Cursor, Globals, Entry, MapEntry, ring_buffer_size, payload_size, zero_ring,
  next_index, mmap_entry, transient_mmap_entry, enqueue_redo_log_entry, enqueue_mmap_entry,
  commit_enqueued_entries, dequeue, commit_dequeued_entries, get_global_head_value,
  get_global_tail_value, set_global_head_value, set_global_tail_value,
}
use mangosteen_code.RingBuffer.Size.{LogRecord, redo, map_region, commit, decode}
use mangosteen_code.RingBuffer.Window.{slot, window}

-- Where the producer stands: outside a session, with entries to publish, or just after publishing.
pub data Phase : Type 0 where
  idle writing published : Phase

pub record System : Type 0 where
  pub ring : RingBuffer
  pub phase : Phase
  pub producer : Cursor
  pub consumer : Globals
  pub sent : List LogRecord
  pub visible : List LogRecord
  pub received : List LogRecord

-- The ring just created, mapped at `mapped`.
abbrev pub initial : ℕ → System
initial mapped = record {
  ring = record zero_ring { producer_addr = mapped };
  phase = idle;
  producer = record { head = 0; tail = 0 };
  consumer = record {
    global_local_head = 0;
    global_local_tail = 0;
    number_of_mmaped_memory_regions = 0;
  };
  sent = [];
  visible = [];
  received = [];
}

abbrev pub IsMapEntry : MapEntry → Type 0
IsMapEntry e =
    ((e.entry_type ≡ mmap_entry) ⊎ (e.entry_type ≡ transient_mmap_entry)) × (e.size < 2 ^ 64)

-- The metadata that `commit_rb_batch` stores to the ring, with the number of the regions
abbrev pub marked : ℕ → System → RingBuffer
marked regions s =
    let r = s.ring in
    record r {
      commit_metadata = record {
        number_of_regions = regions % 2 ^ 32;
        ring_buffer_head = s.consumer.global_local_head % 2 ^ 32;
      };
    }

pub data Step (s : System) : System → Type 0 where
  load :
      s.phase ≡ idle
      → Step s (record s {
        phase = writing;
        producer = record {
          head = get_global_head_value s.ring;
          tail = get_global_tail_value s.ring;
        };
      })
  append_redo :
      (m : Mem) (addr : ℕ) {r : RingBuffer} {c : Cursor}
      → s.phase ≢ idle
      → enqueue_redo_log_entry m s.ring addr s.producer ≡ some (r, c)
      → Step s (record s {
        ring = r;
        phase = writing;
        producer = c;
        sent = s.sent ++ (redo addr (read m addr payload_size) ∷ []);
      })
  append_map :
      (e : MapEntry) {r : RingBuffer} {c : Cursor}
      → s.phase ≢ idle
      → IsMapEntry e
      → enqueue_mmap_entry s.ring e s.producer ≡ some (r, c)
      → Step s (record s {
        ring = r;
        phase = writing;
        producer = c;
        sent = s.sent ++ (map_region e.entry_type e.addr e.size ∷ []);
      })
  publish :
      {r : RingBuffer} {c : Cursor}
      → s.phase ≢ idle
      → commit_enqueued_entries s.ring s.producer ≡ some (r, c)
      → Step s (record s {
        ring = r;
        phase = published;
        producer = c;
        sent = s.sent ++ (commit ∷ []);
        visible = s.sent ++ (commit ∷ []);
      })
  store :
      s.phase ≡ published
      → Step s (record s {
        ring = set_global_tail_value s.producer.tail (set_global_head_value s.producer.head s.ring);
        phase = idle;
      })
  take :
      {e : Entry} {g : Globals}
      → dequeue s.ring s.consumer ≡ some (e, g)
      → Step s (record s { consumer = g; received = s.received ++ (decode e ∷ []) })
  acknowledge :
      (regions : ℕ)
      → Step s (record s { ring = commit_dequeued_entries (marked regions s) s.consumer })

-- A publication that finds the ring full by the producer's copy of the head finds in
-- `last_persisted_head` the head that the consumer last acknowledged, not an older one that `store` put
-- there.
abbrev pub Fresh : {s t : System} → Step s t → Type 0
Fresh (load i) = Unit
Fresh (append_redo m addr i run) = Unit
Fresh (append_map e i p run) = Unit
Fresh {s} (publish i run) =
    next_index s.producer.tail ≡ s.producer.head → s.ring.last_persisted_head ≡ s.ring.remote_head
Fresh (store i) = Unit
Fresh (take run) = Unit
Fresh (acknowledge regions) = Unit

-- The step is the producer's.
abbrev pub IsProducing : {s t : System} → Step s t → Type 0
IsProducing (load i) = Unit
IsProducing (append_redo m addr i run) = Unit
IsProducing (append_map e i p run) = Unit
IsProducing (publish i run) = Unit
IsProducing (store i) = Unit
IsProducing (take run) = ⊥
IsProducing (acknowledge regions) = ⊥

-- Positions: the heads that the producer knows (`ph`), that `last_persisted_head` (`lph`) and
-- `remote_head` (`rh`) hold, the consumer's head and tail, the published tail and the producer's.
pub record Counters : Type 0 where
  pub ph : ℕ
  pub lph : ℕ
  pub rh : ℕ
  pub c : ℕ
  pub ct : ℕ
  pub lpt : ℕ
  pub t : ℕ
  pub n : ℕ
  pub m : ℕ

-- `n` entries lie between the consumer and the producer, `m` of them published. A stale head is behind the consumer, and
-- the producer stays less than a round ahead of the head that it uses.
pub record Holds (s : System) (k : Counters) : Type 0 where
  pub producer_head : s.producer.head ≡ slot k.ph
  pub producer_tail : s.producer.tail ≡ slot k.t
  pub persisted_head : s.ring.last_persisted_head ≡ slot k.lph
  pub remote : s.ring.remote_head ≡ slot k.rh
  pub persisted_tail : s.ring.last_persisted_tail ≡ slot k.lpt
  pub remote_end : s.ring.remote_tail ≡ slot k.lpt
  pub consumer_head : s.consumer.global_local_head ≡ slot k.c
  pub consumer_tail : s.consumer.global_local_tail ≡ slot k.ct
  pub ph-le : k.ph ≤ k.rh
  pub lph-le : k.lph ≤ k.rh
  pub rh-le : k.rh ≤ k.c
  pub c-le : k.c ≤ k.ct
  pub ct-le : k.ct ≤ k.lpt
  pub lpt-le : k.lpt ≤ k.t
  pub fits : k.t < k.ph + ring_buffer_size
  pub fits_idle : s.phase ≡ idle → k.t < k.lph + ring_buffer_size
  pub all_published : s.phase ≢ writing → k.lpt ≡ k.t
  pub between : k.c + k.n ≡ k.t
  pub published_between : k.c + k.m ≡ k.lpt
  pub announced : s.visible ≡ s.received ++ map decode (window s.ring.buffer k.c k.m)
  pub content : s.sent ≡ s.received ++ map decode (window s.ring.buffer k.c k.n)

abbrev pub IsFifo : System → Type 0
IsFifo s = (k : Counters) × Holds s k

pub initial-IsFifo : (mapped : ℕ) → IsFifo (initial mapped)
unfolding slot window
initial-IsFifo mapped = (
  record { ph = 0; lph = 0; rh = 0; c = 0; ct = 0; lpt = 0; t = 0; n = 0; m = 0 },
  record {
    producer_head = refl;
    producer_tail = refl;
    persisted_head = refl;
    remote = refl;
    persisted_tail = refl;
    remote_end = refl;
    consumer_head = refl;
    consumer_tail = refl;
    ph-le = omega arith;
    lph-le = omega arith;
    rh-le = omega arith;
    c-le = omega arith;
    ct-le = omega arith;
    lpt-le = omega arith;
    fits = omega arith;
    fits_idle = λ _. omega arith;
    all_published = λ _. refl;
    between = refl;
    published_between = refl;
    announced = refl;
    content = refl;
  },
)
