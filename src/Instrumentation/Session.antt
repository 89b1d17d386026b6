-- ===== src/Instrumentation/Session.antt =====
-- instrumentation/instrument_front_end.c: `instrument_stop` as a session of the ring's producer.
mod Room
pub use Room.{HasRoom, less_room}
use mathlib.Core.List.{append_assoc, append-nil}
use Room.{enqueue_room, commit_room}
use mangosteen_code.Common.{
  ℕ, zero, suc, ◌+◌, ◌-◌, ◌%◌, ◌<◌, ◌≡◌, ◌≢◌, refl, sym, ap, ◌∙◌, List, [], ◌∷◌, ◌++◌, map, some,
  arith, length, length-append, length-map, ◌==◌, ltb, if◌then◌else◌, Bool-cases, inl, inr, true,
  false, ◌>>=◌, Option,
}
use mangosteen_code.Memory.{Mem, read}
use mangosteen_code.RingBuffer.{
  RingBuffer, Cursor, ring_buffer_size, payload_size, enqueue_redo_log_entry,
  commit_enqueued_entries, get_global_head_value, get_global_tail_value, set_global_head_value,
  set_global_tail_value,
}
use mangosteen_code.RingBuffer.Size.{LogRecord, redo, commit}
use mangosteen_code.RingBuffer.Fifo.{
  System, Phase, idle, writing, published, Step, Fresh, IsProducing, load, append_redo, publish,
  store,
}
use mangosteen_code.Instrumentation.{
  FrontEnd, PerThread, MemcpyEntry, memcpy_blocks, enqueue_all, enqueue_hash_set, stop_memcpys,
  collect_payload, instrument_stop,
}

-- Steps of the producer, whose publications are fresh
pub data Steps (s : System) : System → Type 0 where
  here : Steps s s
  next : {t u : System} → Steps s t → (st : Step t u) → Fresh st → IsProducing st → Steps s u

Steps-trans : {s t u : System} → Steps s t → Steps t u → Steps s u
Steps-trans a here = a
Steps-trans a (next b st fresh own) = next (Steps-trans a b) st fresh own

-- A block as the log holds it.
abbrev pub redo_record : Mem → ℕ → LogRecord
redo_record m a = redo a (read m a payload_size)

-- The slots of the hash set that are logged.
unfoldable pub logged : List ℕ → List ℕ
logged [] = []
logged (a ∷ slots) =
    if a == 0 then logged slots else if ltb 1000 a then a ∷ logged slots else logged slots

unfoldable pub memcpy_log : Mem → List MemcpyEntry → List LogRecord
memcpy_log m [] = []
memcpy_log m (e ∷ es) = map (redo_record m) (memcpy_blocks e) ++ (commit ∷ memcpy_log m es)

-- What a transaction logs: each range that was copied, as a batch, and then the overflow buffer and
-- the hash set, as one batch.
unfoldable pub transaction_log : FrontEnd → List LogRecord
transaction_log f =
    memcpy_log f.mem f.thread.memcpy_array
    ++ (map (redo_record f.mem) f.overflow_buffer
        ++ (map (redo_record f.mem) (logged f.thread.hash_set_entries) ++ (commit ∷ [])))

-- The producer went from `s` to `t`, sent `l`, and has room for `n` more records.
pub record Grown (s t : System) (l : List LogRecord) (n : ℕ) : Type 0 where
  pub steps : Steps s t
  pub sent : t.sent ≡ s.sent ++ l
  pub consumer : t.consumer ≡ s.consumer
  pub received : t.received ≡ s.received
  pub remote : t.ring.remote_head ≡ s.ring.remote_head
  pub busy : t.phase ≢ idle
  pub room : HasRoom t.producer n

Grown-trans :
    {s t u : System} {l l' : List LogRecord} {k n : ℕ}
    → Grown s t l k
    → Grown t u l' n
    → Grown s u (l ++ l') n
Grown-trans {s = s} {l = l} {l' = l'} a b = record {
  steps = Steps-trans a.steps b.steps;
  sent = b.sent ∙ ap (λ x. x ++ l') a.sent ∙ append_assoc s.sent l l';
  consumer = b.consumer ∙ a.consumer;
  received = b.received ∙ a.received;
  remote = b.remote ∙ a.remote;
  busy = b.busy;
  room = b.room;
}

Grown-none : (s : System) (n : ℕ) → s.phase ≢ idle → HasRoom s.producer n → Grown s s [] n
Grown-none s n busy room = record {
  steps = here;
  sent = sym (append-nil s.sent);
  consumer = refl;
  received = refl;
  remote = refl;
  busy = busy;
  room = room;
}

grow_redo :
    (m : Mem) (a n : ℕ) (s : System)
    → s.phase ≢ idle
    → HasRoom s.producer (suc n)
    → (t : System) × (enqueue_redo_log_entry m s.ring a s.producer ≡ some (t.ring, t.producer))
      × Grown s t (redo_record m a ∷ []) n
grow_redo m a n s busy room =
    let (r, c, ran, left, same) = enqueue_room m s.ring a room in
    (
      record s { ring = r; phase = writing; producer = c; sent = s.sent ++ (redo_record m a ∷ []) },
      ran,
      record {
        steps = next here (append_redo m a busy ran) (record {}) (record {});
        sent = refl;
        consumer = refl;
        received = refl;
        remote = same;
        busy = λ q. cc;
        room = left;
      },
    )

grow_all :
    (m : Mem) (blocks : List ℕ) (n : ℕ) (s : System)
    → s.phase ≢ idle
    → HasRoom s.producer (length blocks + n)
    → (t : System) × (enqueue_all m blocks s.ring s.producer ≡ some (t.ring, t.producer))
      × Grown s t (map (redo_record m) blocks) n
unfolding enqueue_all
grow_all m [] n s busy room = (s, refl, Grown-none s n busy (less_room n (omega arith) room))
grow_all m (a ∷ blocks) n s busy room =
    let (t, ran, g) = grow_redo m a (length blocks + n) s busy (less_room _ (omega arith) room) in
    let (u, rest, g') = grow_all m blocks n t g.busy g.room in (u, rw ran rest, Grown-trans g g')

grow_hash_set :
    (m : Mem) (slots : List ℕ) (n : ℕ) (s : System)
    → s.phase ≢ idle
    → HasRoom s.producer (length (logged slots) + n)
    → (t : System) × (enqueue_hash_set m slots s.ring s.producer ≡ some (t.ring, t.producer))
      × Grown s t (map (redo_record m) (logged slots)) n
unfolding enqueue_hash_set logged
grow_hash_set m [] n s busy room = (s, refl, Grown-none s n busy (less_room n (omega arith) room))
grow_hash_set m (a ∷ slots) n s busy room = elim (Bool-cases (a == 0)) [
  | inl free ↦ rw free (grow_hash_set m slots n s busy (rw free at room))
  | inr taken ↦ elim (Bool-cases (ltb 1000 a)) [
    | inl high ↦
        let (t, ran, g) =
          grow_redo m a (length (logged slots) + n) s busy
            (less_room _ (omega arith) (rw (taken, high) at room)) in
        let (u, rest, g') = grow_hash_set m slots n t g.busy g.room in
        rw (taken, high) (u, rw ran rest, Grown-trans g g')
    | inr low ↦ rw (taken, low) (grow_hash_set m slots n s busy (rw (taken, low) at room))
  ]
]

grow_publish :
    (n : ℕ) (s : System)
    → s.phase ≢ idle
    → HasRoom s.producer (suc n)
    → (t : System) × (commit_enqueued_entries s.ring s.producer ≡ some (t.ring, t.producer))
      × Grown s t (commit ∷ []) n
      × (t.phase ≡ published)
      × (t.visible ≡ t.sent)
grow_publish n s busy room =
    let (r, c, ran, left, same, clear) = commit_room s.ring room in
    (
      record s {
        ring = r;
        phase = published;
        producer = c;
        sent = s.sent ++ (commit ∷ []);
        visible = s.sent ++ (commit ∷ []);
      },
      ran,
      record {
        steps = next here (publish busy ran) (λ full. absurd (clear full)) (record {});
        sent = refl;
        consumer = refl;
        received = refl;
        remote = same;
        busy = λ q. cc;
        room = left;
      },
      refl,
      refl,
    )

pub length-memcpy :
    (m : Mem) (e : MemcpyEntry) (es : List MemcpyEntry)
    → length (memcpy_log m (e ∷ es)) ≡ length (memcpy_blocks e) + suc (length (memcpy_log m es))
unfolding memcpy_log
length-memcpy m e es =
    length-append (map (redo_record m) (memcpy_blocks e)) _
    ∙ ap (λ x. x + suc (length (memcpy_log m es))) (length-map (redo_record m) (memcpy_blocks e))

grow_memcpys :
    (m : Mem) (es : List MemcpyEntry) (n : ℕ) (s : System)
    → s.phase ≢ idle
    → HasRoom s.producer (length (memcpy_log m es) + n)
    → (t : System) × (stop_memcpys m es s.ring s.producer ≡ some (t.ring, t.producer))
      × Grown s t (memcpy_log m es) n
unfolding stop_memcpys memcpy_log
grow_memcpys m [] n s busy room = (s, refl, Grown-none s n busy (less_room n (omega arith) room))
grow_memcpys m (e ∷ es) n s busy room =
    let left = length (memcpy_log m es) + n in
    let (t, ran, g) =
      grow_all m (memcpy_blocks e) (suc left) s busy
        (less_room _ (omega (arith, length-memcpy m e es)) room) in
    let (u, ran', g', at, all) = grow_publish left t g.busy g.room in
    let (v, rest, g'') = grow_memcpys m es n u g'.busy g'.room in
    (v, rw ran (rw ran' rest), Grown-trans g (Grown-trans g' g''))

pub length-transaction :
    (f : FrontEnd)
    → length (transaction_log f)
      ≡ length (memcpy_log f.mem f.thread.memcpy_array)
        + (length f.overflow_buffer + (length (logged f.thread.hash_set_entries) + 1))
unfolding transaction_log
length-transaction f =
    let record_of = redo_record f.mem in
    let hs = logged f.thread.hash_set_entries in
    rw
      (
        length-append (memcpy_log f.mem f.thread.memcpy_array)
            (map record_of f.overflow_buffer ++ (map record_of hs ++ (commit ∷ []))),
        length-append (map record_of f.overflow_buffer) (map record_of hs ++ (commit ∷ [])),
        length-append (map record_of hs) (commit ∷ []),
        length-map record_of f.overflow_buffer,
        length-map record_of hs,
      )
      refl

-- The end of a transaction: the shared ring and the histories of the system, and what the front end
-- keeps for the next transaction.
pub record Stopped (f : FrontEnd) (s : System) (after : FrontEnd) (t : System) : Type 0 where
  pub steps : Steps s t
  pub quiet : t.phase ≡ idle
  pub shared : t.ring ≡ after.ring
  pub sent : t.sent ≡ s.sent ++ transaction_log f
  pub visible : t.visible ≡ t.sent
  pub consumer : t.consumer ≡ s.consumer
  pub received : t.received ≡ s.received
  pub remote : t.ring.remote_head ≡ s.ring.remote_head
  pub mem : after.mem ≡ f.mem
  pub no_overflow : after.overflow_buffer ≡ []
  pub no_memcpy : after.thread.memcpy_array ≡ []
  pub hash_set : after.thread.hash_set_entries ≡ map (λ _. 0) f.thread.hash_set_entries

abbrev loaded : RingBuffer → Cursor
loaded r = record { head = get_global_head_value r; tail = get_global_tail_value r }

-- The four parts of `instrument_stop` in a row.
stop_parts :
    (f : FrontEnd) (s a b c d : System)
    → s.phase ≡ idle
    → s.ring ≡ f.ring
    → stop_memcpys f.mem f.thread.memcpy_array s.ring (loaded s.ring) ≡ some (a.ring, a.producer)
    → enqueue_all f.mem f.overflow_buffer a.ring a.producer ≡ some (b.ring, b.producer)
    → enqueue_hash_set f.mem f.thread.hash_set_entries b.ring b.producer ≡ some (c.ring, c.producer)
    → commit_enqueued_entries c.ring c.producer ≡ some (d.ring, d.producer)
    → Grown (record s { phase = writing; producer = loaded s.ring }) d (transaction_log f) 0
    → d.phase ≡ published
    → d.visible ≡ d.sent
    → (after : FrontEnd) × (t : System) × (instrument_stop f ≡ some after) × Stopped f s after t
unfolding instrument_stop collect_payload set_global_head_value set_global_tail_value
stop_parts f s a b c d quiet same ran_a ran_b ran_c ran_d g at all =
    let th = f.thread in
    let ring =
      set_global_tail_value d.producer.tail (set_global_head_value d.producer.head d.ring) in
    let t : System = record d { ring = ring; phase = idle } in
    let after : FrontEnd = record f {
      ring = ring;
      thread = record th {
        combiner = 0;
        cursor = d.producer;
        hash_set_entries = map (λ _. 0) th.hash_set_entries;
        number_of_hash_set_entries = 0;
        memcpy_array = [];
      };
      overflow_buffer = [];
    } in
    (
      after,
      t,
      rw (sym same, ran_a, ran_b, ran_c, ran_d) refl,
      record {
        steps =
            next (Steps-trans (next here (load quiet) (record {}) (record {})) g.steps) (store at)
              (record {}) (record {});
        quiet = refl;
        shared = refl;
        sent = g.sent;
        visible = all;
        consumer = g.consumer;
        received = g.received;
        remote = g.remote;
        mem = refl;
        no_overflow = refl;
        no_memcpy = refl;
        hash_set = refl;
      },
    )

-- `instrument_stop` on a transaction that the ring has room for, by the shared head, ends, and is one
-- session of the producer: it sends the transaction's log, which is published whole when it returns.
-- The hash set, the recorded ranges and the overflow buffer are empty then.
pub instrument_stop_session :
    (f : FrontEnd) (s : System)
    → s.phase ≡ idle
    → s.ring ≡ f.ring
    → HasRoom
        (record { head = get_global_head_value f.ring; tail = get_global_tail_value f.ring })
        (length (transaction_log f))
    → (after : FrontEnd) × (t : System) × (instrument_stop f ≡ some after) × Stopped f s after t
unfolding transaction_log
instrument_stop_session f s quiet same room =
    let m = f.mem in
    let th = f.thread in
    let s0 : System = record s { phase = writing; producer = loaded s.ring } in
    let hs = logged th.hash_set_entries in
    let room' : HasRoom (loaded s.ring) (length (transaction_log f)) = rw same room in
    let (a, ran_a, ga) =
      grow_memcpys m th.memcpy_array (length f.overflow_buffer + (length hs + 1)) s0 (λ q. cc)
        (less_room _ (omega (arith, length-transaction f)) room') in
    let (b, ran_b, gb) = grow_all m f.overflow_buffer (length hs + 1) a ga.busy ga.room in
    let (c, ran_c, gc) = grow_hash_set m th.hash_set_entries 1 b gb.busy gb.room in
    let (d, ran_d, gd, at, all) = grow_publish 0 c gc.busy gc.room in
    stop_parts f s a b c d quiet same ran_a ran_b ran_c ran_d
      (Grown-trans ga (Grown-trans gb (Grown-trans gc gd))) at all
