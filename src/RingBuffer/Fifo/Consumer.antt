-- ===== src/RingBuffer/Fifo/Consumer.antt =====
-- The consumer's steps keep the order of the positions and the content.
use mathlib.Core.List.{append_assoc}
use mangosteen_code.Common.{
  ℕ, suc, ◌+◌, ◌-◌, ◌≤◌, ◌<◌, ◌≡◌, ◌≢◌, ◌⊎◌, ◌∙◌, inl, inr, sym, ap, List, [], ◌∷◌, ◌++◌, map, some,
  arith, >>=-eq-some,
}
use mangosteen_code.RingBuffer.{
  RingBuffer, Globals, Entry, dequeue, commit_dequeued_entries, wait_for_entry, spin_fuel,
  next_index,
}
use mangosteen_code.RingBuffer.Size.{LogRecord, decode}
use mangosteen_code.RingBuffer.Spin.{wait_for_entry-some}
use mangosteen_code.RingBuffer.Window.{slot, window, next_index-slot}
use mangosteen_code.RingBuffer.Fifo.Counters.{marked, System, Counters, Holds, IsFifo}

pub acknowledge-IsFifo :
    {s : System} (regions : ℕ)
    → IsFifo s
    → IsFifo (record s { ring = commit_dequeued_entries (marked regions s) s.consumer })
unfolding commit_dequeued_entries
acknowledge-IsFifo {s} regions (k, h) = (
  record k { rh = k.c; lph = k.c },
  record {
    producer_head = h.producer_head;
    producer_tail = h.producer_tail;
    persisted_head = h.consumer_head;
    remote = h.consumer_head;
    persisted_tail = h.persisted_tail;
    remote_end = h.remote_end;
    consumer_head = h.consumer_head;
    consumer_tail = h.consumer_tail;
    ph-le = omega arith;
    lph-le = omega arith;
    rh-le = omega arith;
    c-le = h.c-le;
    ct-le = h.ct-le;
    lpt-le = h.lpt-le;
    fits = h.fits;
    fits_idle = λ _. omega arith;
    all_published = h.all_published;
    between = h.between;
    published_between = h.published_between;
    announced = h.announced;
    content = h.content;
  },
)

dequeue-some :
    (r : RingBuffer) (g : Globals) {e : Entry} {g' : Globals}
    → dequeue r g ≡ some (e, g')
    → (found : ℕ) × (g.global_local_head ≢ found)
      × ((found ≡ g.global_local_tail) ⊎ (found ≡ r.last_persisted_tail))
      × (e ≡ r.buffer g.global_local_head)
      × (g'.global_local_head ≡ next_index g.global_local_head)
      × (g'.global_local_tail ≡ found)
unfolding dequeue
dequeue-some r g h =
    let (found, ran, out) =
      >>=-eq-some
        (wait_for_entry spin_fuel r.last_persisted_tail g.global_local_head g.global_local_tail)
        (λ tail. some (
          r.buffer g.global_local_head,
          record g { global_local_head = next_index g.global_local_head; global_local_tail = tail },
        ))
        h in
    let (ne, which) =
      wait_for_entry-some r.last_persisted_tail g.global_local_head g.global_local_tail ran in
    (found, ne, which, ground arith, ground arith, ground arith)

content-take :
    (b : ℕ → Entry) (c n m : ℕ) (sent received : List LogRecord)
    → n ≡ suc m
    → sent ≡ received ++ map decode (window b c n)
    → sent ≡ (received ++ (decode (b (slot c)) ∷ [])) ++ map decode (window b (c + 1) m)
unfolding window
content-take b c n m sent received h e =
    rw h at e ∙ sym (append_assoc received (decode (b (slot c)) ∷ []) _)

-- The new tail is a position from the old one up to the published tail, past the consumer.
record Found (k : Counters) (found : ℕ) : Type 0 where
  at : ℕ
  slot_at : found ≡ slot at
  at_low : k.c < at
  at_high : at ≤ k.lpt

Found-at :
    {s : System} {k : Counters}
    → Holds s k
    → (found : ℕ) → s.consumer.global_local_head ≢ found
    → (found ≡ s.consumer.global_local_tail) ⊎ (found ≡ s.ring.last_persisted_tail)
    → Found k found
Found-at {s} {k} h found ne (inl old) = record {
  at = k.ct;
  slot_at = old ∙ h.consumer_tail;
  at_low = ground arith;
  at_high = h.ct-le;
}
Found-at {s} {k} h found ne (inr fresh) = record {
  at = k.lpt;
  slot_at = fresh ∙ h.persisted_tail;
  at_low = ground arith;
  at_high = omega arith;
}

pub take-IsFifo :
    {s : System} {e : Entry} {g : Globals}
    → dequeue s.ring s.consumer ≡ some (e, g)
    → IsFifo s
    → IsFifo (record s { consumer = g; received = s.received ++ (decode e ∷ []) })
take-IsFifo {s} {e} {g} run (k, h) =
    let (found, ne, which, taken, moved, seen) = dequeue-some s.ring s.consumer run in
    let f = Found-at h found ne which in
    let record { at = at; slot_at = slot_at; at_low = low; at_high = high } = f in
    (
      record k { c = k.c + 1; ct = at; n = k.n - 1; m = k.m - 1 },
      record {
        producer_head = h.producer_head;
        producer_tail = h.producer_tail;
        persisted_head = h.persisted_head;
        remote = h.remote;
        persisted_tail = h.persisted_tail;
        remote_end = h.remote_end;
        consumer_head = moved ∙ ap next_index h.consumer_head ∙ next_index-slot k.c;
        consumer_tail = seen ∙ slot_at;
        ph-le = h.ph-le;
        lph-le = h.lph-le;
        rh-le = omega arith;
        c-le = omega arith;
        ct-le = high;
        lpt-le = h.lpt-le;
        fits = h.fits;
        fits_idle = h.fits_idle;
        all_published = h.all_published;
        between = omega arith;
        published_between = omega arith;
        announced = pop k.m s.visible (omega arith) h.announced;
        content = pop k.n s.sent (omega arith) h.content;
      },
    )
  where
    pop :
        (n : ℕ) (all : List LogRecord)
        → n ≡ suc (n - 1)
        → all ≡ s.received ++ map decode (window s.ring.buffer k.c n)
        → all
          ≡ (s.received ++ (decode e ∷ [])) ++ map decode (window s.ring.buffer (k.c + 1) (n - 1))
    pop n all more q =
        rw ((dequeue-some s.ring s.consumer run).3 ∙ ap s.ring.buffer h.consumer_head)
          (content-take s.ring.buffer k.c n (n - 1) all s.received more q)
