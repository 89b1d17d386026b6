-- ===== src/Instrumentation/Durable.antt =====
-- instrumentation/instrument_front_end.c with back-end/back_end.c: what a transaction changed survives
-- a crash of the back end.
pub mod Image
pub use Image.{Tracked}
use Image.{transaction_log-IsImage, transaction_log-IsBatches, Tracked-Stored, image-restored}
use mathlib.Core.List.{append_cancel_left}
use mangosteen_code.Common.{
  ℕ, zero, suc, ◌+◌, ◌≤◌, ◌<◌, ◌≡◌, ◌≢◌, refl, sym, ap, ◌∙◌, ◌⊎◌, inl, inr, List, [], ◌++◌, map,
  some, none, length, arith, ◌>>=◌, >>=-eq-some,
}
use mangosteen_code.Memory.{Mem}
use mangosteen_code.RingBuffer.{
  Entry, RingBuffer, Cursor, get_global_head_value, get_global_tail_value, wait_for_space,
  spin_fuel, next_index, enqueue_redo_log_entry, enqueue_mmap_entry, commit_enqueued_entries,
  commit_dequeued_entries, set_global_head_value, set_global_tail_value,
}
use mangosteen_code.RingBuffer.Size.{LogRecord}
use mangosteen_code.RingBuffer.Window.{slot}
use mangosteen_code.RingBuffer.Fifo.{
  System, Phase, idle, writing, Reach, IsFresh, Reach-IsFifo, Step-IsFifo, IsFifo, length-window,
  Step, IsProducing, load, append_redo, append_map, publish, store, take, acknowledge,
}
use mangosteen_code.RegionTable.{Kernel, InRegion}
use mangosteen_code.BackEnd.{BackEnd, run_consumer, recover, reopen, process_entry}
use mangosteen_code.BackEnd.Log.{apply_log, IsBatches}
use mangosteen_code.BackEnd.Replay.{records, At, IsSettled}
use mangosteen_code.BackEnd.Crash.{Restart, Serves, crash_recovery}
use mangosteen_code.Instrumentation.{FrontEnd, instrument_stop}
use mangosteen_code.Instrumentation.Session.{
  Steps, here, next, HasRoom, transaction_log, Stopped, instrument_stop_session,
}

Steps-IsFifo : {s t : System} → Steps s t → IsFifo s → IsFifo t
Steps-IsFifo here f = f
Steps-IsFifo (next a st fresh own) f = Step-IsFifo st fresh (Steps-IsFifo a f)

-- No step of the producer stores to the metadata.
Step-metadata :
    {s t : System} (st : Step s t)
    → IsProducing st
    → t.ring.commit_metadata ≡ s.ring.commit_metadata
unfolding enqueue_redo_log_entry enqueue_mmap_entry commit_enqueued_entries commit_dequeued_entries
    set_global_head_value set_global_tail_value
Step-metadata (load i) own = refl
Step-metadata {s} (append_redo m addr i run) own =
    let (found, ran, out) =
      >>=-eq-some
        (wait_for_space spin_fuel s.ring.remote_head (next_index s.producer.tail) s.producer.head) _
        run in
    ground arith
Step-metadata {s} (append_map e i p run) own =
    let (found, ran, out) =
      >>=-eq-some
        (wait_for_space spin_fuel s.ring.remote_head (next_index s.producer.tail) s.producer.head) _
        run in
    ground arith
Step-metadata {s} (publish i run) own =
    let (found, ran, out) =
      >>=-eq-some
        (wait_for_space spin_fuel s.ring.last_persisted_head (next_index s.producer.tail)
          s.producer.head)
        _ run in
    ground arith
Step-metadata (store i) own = refl
Step-metadata (take run) own = absurd own
Step-metadata (acknowledge regions) own = absurd own

Steps-metadata : {s t : System} → Steps s t → t.ring.commit_metadata ≡ s.ring.commit_metadata
Steps-metadata here = refl
Steps-metadata (next a st fresh own) = Step-metadata st own ∙ Steps-metadata a

-- A transaction's end, as the back end finds it: the ring holds the log of the transaction.
record Waiting (f : FrontEnd) (b : BackEnd) : Type 0 where
  buf : ℕ → Entry
  last : ℕ
  p : ℕ
  at : At buf last p p b
  count : p + length (transaction_log f) ≡ last
  log : records buf p (length (transaction_log f)) ≡ transaction_log f

Stopped-Waiting :
    (f after : FrontEnd) (s t : System) (b : BackEnd)
    → IsFifo s
    → s.received ≡ s.sent
    → s.ring.remote_head ≡ s.consumer.global_local_head
    → Stopped f s after t
    → b.globals ≡ s.consumer
    → b.ring ≡ after.ring
    → Waiting f b
Stopped-Waiting f after s t b i empty acknowledged st same ring =
    let fifo : IsFifo t = Steps-IsFifo st.steps i in
    let k = fifo.0 in
    let h = fifo.1 in
    let buf = t.ring.buffer in
    let log : transaction_log f ≡ records buf k.c k.n =
      append_cancel_left s.sent (transaction_log f) (records buf k.c k.n)
        (sym st.sent ∙ h.content ∙ ap (λ l. l ++ records buf k.c k.n) (st.received ∙ empty)) in
    let size : length (transaction_log f) ≡ k.n = ap length log ∙ length-window buf k.c k.n in
    let quiet : t.phase ≢ writing = λ e. (let q = sym st.quiet ∙ e in cc) in
    record {
      buf = buf;
      last = k.lpt;
      p = k.c;
      at = record {
        buffer = ap (λ q. q.buffer) (ring ∙ sym st.shared);
        head = ap (λ g. g.global_local_head) (same ∙ sym st.consumer) ∙ h.consumer_head;
        known = k.ct;
        tail = ap (λ g. g.global_local_tail) (same ∙ sym st.consumer) ∙ h.consumer_tail;
        persisted = ap (λ q. q.last_persisted_tail) (ring ∙ sym st.shared) ∙ h.persisted_tail;
        remote =
            ap (λ q. q.remote_head) (ring ∙ sym st.shared)
            ∙ st.remote
            ∙ acknowledged
            ∙ ap (λ g. g.global_local_head) (sym st.consumer)
            ∙ h.consumer_head;
        published = ap (λ q. q.remote_tail) (ring ∙ sym st.shared) ∙ h.remote_end;
        q-le = omega arith;
        p-le = h.c-le;
        known-le = h.ct-le;
        fits = omega (arith, h.fits, h.lpt-le, h.ph-le, h.rh-le);
        low = k.lph;
        persisted_head = ap (λ q. q.last_persisted_head) (ring ∙ sym st.shared) ∙ h.persisted_head;
        low-le = omega (arith, h.lph-le, h.rh-le);
        fits_low = omega (arith, h.fits_idle st.quiet, h.lpt-le);
      };
      count = omega (arith, size, h.all_published quiet, h.between);
      log = rw size (sym log);
    }

-- A transaction's end, a crash after `j` entries and a restart leave in the regions what the log makes of
-- the back end's memory.
pub stop_recovers :
    (f : FrontEnd) (s : System) (b : BackEnd) (k : Kernel) (o : Restart) (fresh : Mem)
    (j fuel mapped regions : ℕ) (r : Reach s)
    → IsFresh r
    → s.phase ≡ idle
    → s.ring ≡ f.ring
    → s.received ≡ s.sent
    → s.ring.remote_head ≡ s.consumer.global_local_head
    → HasRoom
        (record { head = get_global_head_value f.ring; tail = get_global_tail_value f.ring })
        (length (transaction_log f))
    → b.globals ≡ s.consumer
    → Serves o b.table.entries regions
    → IsSettled regions (record b { ring = f.ring })
    → j ≤ length (transaction_log f)
    → length (transaction_log f) < fuel
    → (after : FrontEnd) × (crashed : BackEnd) × (recovered : BackEnd) × (instrument_stop f
        ≡ some after)
      × (run_consumer j k (record b { ring = after.ring }) ≡ some crashed)
      × ((reopen mapped o.past fresh crashed >>= recover fuel (o.os (o.held crashed.mem)))
          ≡ some recovered)
      × (process_entry (o.os (o.held crashed.mem)) recovered ≡ none)
      × (recovered.table.entries ≡ b.table.entries)
      × (recovered.table.number_of_entries ≡ regions)
      × ((i x : ℕ)
          → i < regions
          → InRegion (b.table.entries i) x
          → recovered.mem x ≡ apply_log (transaction_log f) b.mem x)
stop_recovers f s b k o fresh j fuel mapped regions r well quiet same empty acknowledged room
      globals v settled few enough =
    let (after, t, ran, st) = instrument_stop_session f s quiet same room in
    let b0 : BackEnd = record b { ring = after.ring } in
    let w =
      Stopped-Waiting f after s t b0 (Reach-IsFifo r well) empty acknowledged st globals refl in
    let metadata : after.ring.commit_metadata ≡ f.ring.commit_metadata =
      ap (λ q. q.commit_metadata) (sym st.shared)
      ∙ Steps-metadata st.steps
      ∙ ap (λ q. q.commit_metadata) same in
    let settled0 : IsSettled regions b0 = record {
      committed = ap (λ q. q.number_of_regions) metadata ∙ settled.committed;
      uncommitted = settled.uncommitted;
      listed = settled.listed;
    } in
    let (crashed, recovered, ran', done, ends, stuck, kept, number, mem) =
      crash_recovery k o fresh j (length (transaction_log f)) fuel mapped regions v settled0 w.at
        w.count (rw w.log (transaction_log-IsBatches f)) few enough in
    (
      after,
      crashed,
      recovered,
      ran,
      ran',
      done,
      stuck,
      kept,
      number,
      λ i x lt h. mem i x lt h ∙ ap (λ l. apply_log l b.mem x) w.log,
    )

-- At a tracked address, or one that did not change, the log makes the front end's memory.
pub log_restores :
    (f : FrontEnd) (b : BackEnd) (x : ℕ)
    → (Tracked f x) ⊎ (b.mem x ≡ f.mem x)
    → apply_log (transaction_log f) b.mem x ≡ f.mem x
log_restores f b x tracked =
    image-restored b.mem x (transaction_log-IsImage f)
      (elim tracked [ inl h ↦ inl (Tracked-Stored f x h) | inr h ↦ inr h ])

-- The back end has taken and acknowledged the whole log, the ring has room for the transaction's log,
-- and outside the tracked addresses the back end's memory is the front end's. Then `instrument_stop`
-- returns, and wherever the back end crashes after that, at any of the entries of the log, the
-- restarted back end returns from recovery with the front end's memory at every address of a region.
pub transaction_survives :
    (f : FrontEnd) (s : System) (b : BackEnd) (k : Kernel) (o : Restart) (fresh : Mem)
    (j fuel mapped regions : ℕ) (r : Reach s)
    → IsFresh r
    → s.phase ≡ idle
    → s.ring ≡ f.ring
    → s.received ≡ s.sent
    → s.ring.remote_head ≡ s.consumer.global_local_head
    → HasRoom
        (record { head = get_global_head_value f.ring; tail = get_global_tail_value f.ring })
        (length (transaction_log f))
    → b.globals ≡ s.consumer
    → ((x : ℕ) → (Tracked f x) ⊎ (b.mem x ≡ f.mem x))
    → Serves o b.table.entries regions
    → IsSettled regions (record b { ring = f.ring })
    → j ≤ length (transaction_log f)
    → length (transaction_log f) < fuel
    → (after : FrontEnd) × (crashed : BackEnd) × (recovered : BackEnd) × (instrument_stop f
        ≡ some after)
      × (run_consumer j k (record b { ring = after.ring }) ≡ some crashed)
      × ((reopen mapped o.past fresh crashed >>= recover fuel (o.os (o.held crashed.mem)))
          ≡ some recovered)
      × ((i x : ℕ) → i < regions → InRegion (b.table.entries i) x → recovered.mem x ≡ f.mem x)
transaction_survives f s b k o fresh j fuel mapped regions r well quiet same empty acknowledged room
      globals tracked v settled few enough =
    let (after, crashed, recovered, ran, ran', done, stuck, kept, number, mem) =
      stop_recovers f s b k o fresh j fuel mapped regions r well quiet same empty acknowledged room
        globals v settled few enough in
    (
      after,
      crashed,
      recovered,
      ran,
      ran',
      done,
      λ i x lt h. mem i x lt h ∙ log_restores f b x (tracked x),
    )
