-- ===== src/RingBuffer/Fifo/Append.antt =====
-- ring_buffer/ring_buffer.c: an entry that is added behind the producer's tail keeps the invariant.
use mathlib.Core.List.{append_assoc, map-append}
use mangosteen_code.Common.{
  ℕ, suc, ◌+◌, ◌≤◌, ◌<◌, ◌≡◌, ◌≢◌, ◌⊎◌, ◌∙◌, inl, inr, refl, ap, List, [], ◌∷◌, ◌++◌, map, arith,
  update, update_self,
}
use mangosteen_code.RingBuffer.{RingBuffer, Cursor, Entry, ring_buffer_size, next_index}
use mangosteen_code.RingBuffer.Size.{LogRecord, decode}
use mangosteen_code.RingBuffer.Window.{slot, window, next_index-slot, window-suc, window-update}
use mangosteen_code.RingBuffer.Fifo.Counters.{System, Phase, idle, writing, Counters, Holds, IsFifo}

content-add :
    (b : ℕ → Entry) (e : Entry) (c n t : ℕ) (sent received : List LogRecord)
    → c + n ≡ t
    → t < c + ring_buffer_size
    → sent ≡ received ++ map decode (window b c n)
    → sent ++ (decode e ∷ []) ≡ received ++ map decode (window (update b (slot t) e) c (suc n))
content-add b e c n t sent received h room k = rw (window-suc (update b (slot t) e) c n t h) (
    rw (window-update b e c n t (omega arith) room)
      (rw (update_self b (slot t) e) (rw k (simp (map-append, append_assoc)))))

-- What an append does, whatever the entry: it found a head `found` that is not the next tail, by its
-- own copy or a fresh read, wrote the slot at the tail and moved the tail.
pub record Appended (s : System) (e : Entry) (r : RingBuffer) (c : Cursor) : Type 0 where
  pub found : ℕ
  pub clear : next_index s.producer.tail ≢ found
  pub which : (found ≡ s.producer.head) ⊎ (found ≡ s.ring.remote_head)
  pub head : c.head ≡ found
  pub tail : c.tail ≡ next_index s.producer.tail
  pub buffer : r.buffer ≡ update s.ring.buffer s.producer.tail e
  pub last_head : r.last_persisted_head ≡ s.ring.last_persisted_head
  pub remote_head : r.remote_head ≡ s.ring.remote_head

-- The head that an append found is the slot of a position between the old head and the consumer.
pub record Room (k : Counters) (found : ℕ) : Type 0 where
  pub at : ℕ
  pub slot_at : found ≡ slot at
  pub at-le : at ≤ k.rh
  pub room : k.t + 1 < at + ring_buffer_size

pub Room-at :
    {s : System} {k : Counters}
    → Holds s k
    → (found : ℕ) → next_index s.producer.tail ≢ found
    → (found ≡ s.producer.head) ⊎ (found ≡ s.ring.remote_head)
    → Room k found
unfolding slot
Room-at {s} {k} h found ne (inl old) = record {
  at = k.ph;
  slot_at = old ∙ h.producer_head;
  at-le = h.ph-le;
  room = ground (arith, next_index-slot k.t);
}
Room-at {s} {k} h found ne (inr fresh) = record {
  at = k.rh;
  slot_at = fresh ∙ h.remote;
  at-le = omega arith;
  room = ground (arith, next_index-slot k.t);
}

module _ {s : System} {e : Entry} {r : RingBuffer} {c : Cursor} {k : Counters} (h : Holds s k)
    (a : Appended s e r c) where
  at_slot : r.buffer ≡ update s.ring.buffer (slot k.t) e
  at_slot = a.buffer ∙ ap (λ i. update s.ring.buffer i e) h.producer_tail

  open (Room-at h a.found a.clear a.which) use {at, slot_at, at-le, room}

  pub appended-content :
      s.sent ++ (decode e ∷ []) ≡ s.received ++ map decode (window r.buffer k.c (suc k.n))
  appended-content =
      rw at_slot (
        content-add s.ring.buffer e k.c k.n k.t s.sent s.received h.between (omega arith) h.content)

  appended-visible : s.visible ≡ s.received ++ map decode (window r.buffer k.c k.m)
  appended-visible =
      rw (at_slot, window-update s.ring.buffer e k.c k.m k.t (omega arith) (omega arith))
        h.announced

  pub append-IsFifo :
      {p : Phase} {lpt : ℕ} (m : ℕ) {v : List LogRecord}
      → p ≢ idle
      → r.last_persisted_tail ≡ slot lpt
      → r.remote_tail ≡ slot lpt
      → k.lpt ≤ lpt
      → lpt ≤ k.t + 1
      → (p ≢ writing → lpt ≡ k.t + 1)
      → k.c + m ≡ lpt
      → v ≡ s.received ++ map decode (window r.buffer k.c m)
      → IsFifo (record s {
        ring = r;
        phase = p;
        producer = c;
        sent = s.sent ++ (decode e ∷ []);
        visible = v;
      })
  append-IsFifo {p} {lpt} m {v} busy at_lpt at_end low high all count shown = (
    record k { ph = at; lpt = lpt; t = k.t + 1; n = suc k.n; m = m },
    record {
      producer_head = a.head ∙ slot_at;
      producer_tail = a.tail ∙ ap next_index h.producer_tail ∙ next_index-slot k.t;
      persisted_head = a.last_head ∙ h.persisted_head;
      remote = a.remote_head ∙ h.remote;
      persisted_tail = at_lpt;
      remote_end = at_end;
      consumer_head = h.consumer_head;
      consumer_tail = h.consumer_tail;
      ph-le = at-le;
      lph-le = h.lph-le;
      rh-le = h.rh-le;
      c-le = h.c-le;
      ct-le = omega arith;
      lpt-le = high;
      fits = room;
      fits_idle = λ q. absurd (busy q);
      all_published = all;
      between = omega arith;
      published_between = count;
      announced = shown;
      content = appended-content;
    },
  )

  -- An append that publishes nothing.
  pub append_quietly-IsFifo :
      r.last_persisted_tail ≡ s.ring.last_persisted_tail
      → r.remote_tail ≡ s.ring.remote_tail
      → IsFifo
          (record s { ring = r; phase = writing; producer = c; sent = s.sent ++ (decode e ∷ []) })
  append_quietly-IsFifo same same_end =
      append-IsFifo k.m (λ q. cc) (same ∙ h.persisted_tail) (same_end ∙ h.remote_end) (omega arith)
        (omega arith) (λ q. absurd (q refl)) h.published_between appended-visible
