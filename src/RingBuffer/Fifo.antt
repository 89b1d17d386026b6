-- ===== src/RingBuffer/Fifo.antt =====
-- ring_buffer/ring_buffer.c with its callers in instrumentation and back-end: one producer and one
-- consumer over a ring, interleaved call by call. A session of the producer reads the shared indices
-- (`get_global_head_value`, `get_global_tail_value`), appends and publishes as often as it likes, and
-- after a publication writes the indices back. `sent` and `received` are the histories.
mod Counters
mod Session
mod Append
mod Producer
mod Consumer
pub use Counters.*
use Session.{load-IsFifo, store-IsFifo}
use Producer.{append_redo-IsFifo, append_map-IsFifo, publish-IsFifo}
use Consumer.{take-IsFifo, acknowledge-IsFifo}
use mathlib.Core.List.{append-nil}
use mangosteen_code.Common.{
  ℕ, zero, suc, ◌+◌, ◌-◌, ◌≤◌, ◌<◌, ◌≡◌, ◌≢◌, ◌∙◌, ap, refl, sym, List, [], ◌∷◌, ◌++◌, map, some,
  none, inl, inr, arith, length, length-append, dec_lt, Bool-cases, ◌==◌, ==→eq, ==→ne,
}
use mangosteen_code.Memory.{Mem}
use mangosteen_code.RingBuffer.{
  RingBuffer, Cursor, Globals, Entry, ring_buffer_size, next_index, redo_of, enqueue_redo_log_entry,
  dequeue, wait_for_entry, wait_for_space, spin_fuel,
}
use mangosteen_code.RingBuffer.Size.{LogRecord, decode}
use mangosteen_code.RingBuffer.Spin.{
  wait_for_entry_free, wait_for_entry_moved, wait_for_space_free, wait_for_space_moved,
}
use mangosteen_code.RingBuffer.Window.{slot, window, slot_injective, next_index-slot}

pub data Reach : System → Type 0 where
  start : (mapped : ℕ) → Reach (initial mapped)
  later : {s t : System} → Reach s → Step s t → Reach t

-- Every publication of the run so far was fresh.
abbrev pub IsFresh : {s : System} → Reach s → Type 0
IsFresh (start mapped) = Unit
IsFresh (later r st) = IsFresh r × Fresh st

pub Step-IsFifo : {s t : System} (st : Step s t) → Fresh st → IsFifo s → IsFifo t
Step-IsFifo (load i) fresh f = load-IsFifo i f
Step-IsFifo (append_redo m addr i e) fresh f = append_redo-IsFifo m addr i e f
Step-IsFifo (append_map x i p e) fresh f = append_map-IsFifo x i p e f
Step-IsFifo (publish i e) fresh f = publish-IsFifo i fresh e f
Step-IsFifo (store i) fresh f = store-IsFifo i f
Step-IsFifo (take e) fresh f = take-IsFifo e f
Step-IsFifo (acknowledge regions) fresh f = acknowledge-IsFifo regions f

pub Reach-IsFifo : {s : System} (r : Reach s) → IsFresh r → IsFifo s
Reach-IsFifo (start mapped) fresh = initial-IsFifo mapped
Reach-IsFifo (later r st) fresh = Step-IsFifo st fresh.1 (Reach-IsFifo r fresh.0)

pub length-window : (b : ℕ → Entry) (from n : ℕ) → length (map decode (window b from n)) ≡ n
unfolding window
length-window b from zero = refl
length-window b from (suc n) = ap suc (length-window b (from + 1) n)

-- How many records lie between, by the histories.
in_flight : {s : System} → (f : IsFifo s) → length s.sent ≡ length s.received + f.0.n
in_flight {s} (k, h) =
    ap length h.content
    ∙ length-append s.received (map decode (window s.ring.buffer k.c k.n))
    ∙ ap (λ x. length s.received + x) (length-window s.ring.buffer k.c k.n)

-- In every state that a run reaches whose publications were fresh, the records sent are those received, in the same order and unchanged,
-- followed by fewer than `ring_buffer_size` records, which the slots from the consumer's head on hold.
pub sent-eq-received :
    {s : System} (r : Reach s)
    → IsFresh r
    → (n : ℕ) × (from : ℕ) × (s.sent ≡ s.received ++ map decode (window s.ring.buffer from n))
      × (s.consumer.global_local_head ≡ slot from)
      × (n < ring_buffer_size)
sent-eq-received r fresh =
    let (k, h) = Reach-IsFifo r fresh in (k.n, k.c, h.content, h.consumer_head, omega arith)

-- In a run whose publications were fresh, while the producer has nothing unpublished, a record that was sent and not received can be taken:
-- `dequeue` returns.
pub dequeue_progress :
    {s : System} (r : Reach s)
    → IsFresh r
    → s.phase ≢ writing
    → length s.received < length s.sent
    → (e : Entry) × (g : Globals) × (dequeue s.ring s.consumer ≡ some (e, g))
unfolding dequeue
dequeue_progress {s} r fresh quiet more =
    let f : IsFifo s = Reach-IsFifo r fresh in
    let k = f.0 in
    let h = f.1 in
    let some_left : k.c < k.lpt = omega (arith, in_flight f, h.all_published quiet) in
    let head = s.consumer.global_local_head in
    let tail = s.consumer.global_local_tail in
    let e = s.ring.buffer head in
    let g = λ (found : ℕ). record (s.consumer) {
      global_local_head = next_index head;
      global_local_tail = found;
    } in
    elim (dec_lt k.c k.ct) [
      | yes seen ↦ (
        e,
        g tail,
        rw
            (wait_for_entry_free s.ring.last_persisted_tail head tail
              (ground (arith, slot_injective k.c k.ct (omega arith) (omega arith))))
            refl,
      )
      | no empty ↦ (
        e,
        g s.ring.last_persisted_tail,
        rw
            (wait_for_entry_moved s.ring.last_persisted_tail head tail
              (h.consumer_head ∙ ap slot (omega arith) ∙ sym h.consumer_tail)
              (ground (arith, slot_injective k.c k.lpt (omega arith) (omega arith))))
            refl,
      )
    ]

-- In a run whose publications were fresh, once the consumer has acknowledged all that it took, an append finds room while fewer than
-- `ring_buffer_size - 1` records lie between: the loop of `enqueue_redo_log_entry` ends.
pub enqueue_progress :
    {s : System} (r : Reach s)
    → IsFresh r
    → s.ring.remote_head ≡ s.consumer.global_local_head
    → length s.sent + 1 < length s.received + ring_buffer_size
    → (m : Mem) (addr : ℕ) → enqueue_redo_log_entry m s.ring addr s.producer ≢ none
unfolding enqueue_redo_log_entry
enqueue_progress {s} r fresh acknowledged few m addr =
    let f : IsFifo s = Reach-IsFifo r fresh in
    let k = f.0 in
    let h = f.1 in
    let next = next_index s.producer.tail in
    let next_at : next ≡ slot (k.t + 1) = ap next_index h.producer_tail ∙ next_index-slot k.t in
    let room : k.t + 1 < k.c + ring_buffer_size = omega (arith, in_flight f) in
    let open_slot : next ≢ s.ring.remote_head =
      ground (arith, slot_injective k.c (k.t + 1) (omega arith) room) in
    elim (Bool-cases (next == s.producer.head)) [
      | inl full ↦
          rw
            (wait_for_space_moved s.ring.remote_head next s.producer.head (==→eq _ _ full)
              open_slot)
            (λ e. cc)
      | inr free ↦
          rw (wait_for_space_free s.ring.remote_head next s.producer.head (==→ne _ _ free))
            (λ e. cc)
    ]

-- In every state that a run reaches whose publications were fresh, what was received, followed by some more records, is what had been sent
-- when the producer last published: the consumer sees no record of an unpublished batch.
pub received-prefix-visible :
    {s : System} (r : Reach s)
    → IsFresh r
    → (rest : List LogRecord) × (s.visible ≡ s.received ++ rest)
received-prefix-visible {s} r fresh =
    let (k, h) = Reach-IsFifo r fresh in (map decode (window s.ring.buffer k.c k.m), h.announced)
