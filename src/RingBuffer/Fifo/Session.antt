-- ===== src/RingBuffer/Fifo/Session.antt =====
-- ring_buffer/ring_buffer.c: the start and the end of a producer's session keep the invariant.
use mangosteen_code.Common.{◌≡◌, refl, arith}
use mangosteen_code.RingBuffer.{
  get_global_head_value, get_global_tail_value, set_global_head_value, set_global_tail_value,
}
use mangosteen_code.RingBuffer.Fifo.Counters.{System, idle, writing, published, IsFifo}

pub load-IsFifo :
    {s : System}
    → s.phase ≡ idle
    → IsFifo s
    → IsFifo (record s {
      phase = writing;
      producer = record {
        head = get_global_head_value s.ring;
        tail = get_global_tail_value s.ring;
      };
    })
unfolding get_global_head_value get_global_tail_value
load-IsFifo {s} i (k, h) = (
  record k { ph = k.lph; t = k.lpt },
  record {
    producer_head = h.persisted_head;
    producer_tail = h.persisted_tail;
    persisted_head = h.persisted_head;
    remote = h.remote;
    persisted_tail = h.persisted_tail;
    remote_end = h.remote_end;
    consumer_head = h.consumer_head;
    consumer_tail = h.consumer_tail;
    ph-le = h.lph-le;
    lph-le = h.lph-le;
    rh-le = h.rh-le;
    c-le = h.c-le;
    ct-le = h.ct-le;
    lpt-le = omega arith;
    fits = ground (arith, h.fits_idle i);
    fits_idle = λ q. cc;
    all_published = λ q. refl;
    between = ground (arith, h.all_published);
    published_between = h.published_between;
    announced = h.announced;
    content = h.content;
  },
)

pub store-IsFifo :
    {s : System}
    → s.phase ≡ published
    → IsFifo s
    → IsFifo (record s {
      ring = set_global_tail_value s.producer.tail (set_global_head_value s.producer.head s.ring);
      phase = idle;
    })
unfolding set_global_head_value set_global_tail_value
store-IsFifo {s} i (k, h) = (
  record k { lph = k.ph; lpt = k.t },
  record {
    producer_head = h.producer_head;
    producer_tail = h.producer_tail;
    persisted_head = h.producer_head;
    remote = h.remote;
    persisted_tail = h.producer_tail;
    remote_end = ground (arith, h.all_published);
    consumer_head = h.consumer_head;
    consumer_tail = h.consumer_tail;
    ph-le = h.ph-le;
    lph-le = h.ph-le;
    rh-le = h.rh-le;
    c-le = h.c-le;
    ct-le = omega arith;
    lpt-le = omega arith;
    fits = h.fits;
    fits_idle = λ _. h.fits;
    all_published = λ _. refl;
    between = h.between;
    published_between = ground (arith, h.all_published);
    announced = h.announced;
    content = h.content;
  },
)
