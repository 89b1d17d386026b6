-- ===== src/RingBuffer/Fifo/Producer.antt =====
-- ring_buffer/ring_buffer.c: the producer's calls that add an entry keep the invariant.
use mangosteen_code.Common.{
  ℕ, suc, ◌≡◌, ◌≢◌, ◌∙◌, ◌⊎◌, inl, inr, ℕ_discrete, refl, ap, [], ◌∷◌, ◌++◌, some, arith,
  >>=-eq-some,
}
use mangosteen_code.Memory.{Mem, read}
use mangosteen_code.RingBuffer.{
  RingBuffer, Cursor, Entry, MapEntry, payload_size, spin_fuel, next_index, wait_for_space, redo_of,
  store_map_entry, enqueue_redo_log_entry, enqueue_mmap_entry, commit_enqueued_entries,
  commit_entry,
}
use mangosteen_code.RingBuffer.Size.{redo, map_region, commit, decode, decode-store_map_entry}
use mangosteen_code.RingBuffer.Spin.{wait_for_space-some, wait_for_space_free}
use mangosteen_code.RingBuffer.Window.{next_index-slot}
use mangosteen_code.RingBuffer.Fifo.Counters.{System, idle, writing, published, IsFifo, IsMapEntry}
use mangosteen_code.RingBuffer.Fifo.Append.{
  Appended, appended-content, append-IsFifo, append_quietly-IsFifo,
}

redo-Appended :
    {s : System} (m : Mem) (addr : ℕ) {r : RingBuffer} {c : Cursor}
    → enqueue_redo_log_entry m s.ring addr s.producer ≡ some (r, c)
    → Appended s (redo_of m addr) r c
      × (r.last_persisted_tail ≡ s.ring.last_persisted_tail)
      × (r.remote_tail ≡ s.ring.remote_tail)
unfolding enqueue_redo_log_entry
redo-Appended {s} m addr run =
    let next = next_index s.producer.tail in
    let (found, ran, out) =
      >>=-eq-some (wait_for_space spin_fuel s.ring.remote_head next s.producer.head) _ run in
    let (ne, which) = wait_for_space-some s.ring.remote_head next s.producer.head ran in
    (
      record {
        found = found;
        clear = ne;
        which = which;
        head = ground arith;
        tail = ground arith;
        buffer = ground arith;
        last_head = ground arith;
        remote_head = ground arith;
      },
      ground arith,
      ground arith,
    )

pub append_redo-IsFifo :
    {s : System} (m : Mem) (addr : ℕ) {r : RingBuffer} {c : Cursor}
    → s.phase ≢ idle
    → enqueue_redo_log_entry m s.ring addr s.producer ≡ some (r, c)
    → IsFifo s
    → IsFifo (record s {
      ring = r;
      phase = writing;
      producer = c;
      sent = s.sent ++ (redo addr (read m addr payload_size) ∷ []);
    })
unfolding decode redo_of
append_redo-IsFifo {s} m addr i run (k, h) =
    let (a, same, same_end) = redo-Appended {s = s} m addr run in
    append_quietly-IsFifo h a same same_end

map-Appended :
    {s : System} (x : MapEntry) {r : RingBuffer} {c : Cursor}
    → enqueue_mmap_entry s.ring x s.producer ≡ some (r, c)
    → Appended s (store_map_entry (s.ring.buffer s.producer.tail) x) r c
      × (r.last_persisted_tail ≡ s.ring.last_persisted_tail)
      × (r.remote_tail ≡ s.ring.remote_tail)
unfolding enqueue_mmap_entry
map-Appended {s} x run =
    let next = next_index s.producer.tail in
    let (found, ran, out) =
      >>=-eq-some (wait_for_space spin_fuel s.ring.remote_head next s.producer.head) _ run in
    let (ne, which) = wait_for_space-some s.ring.remote_head next s.producer.head ran in
    (
      record {
        found = found;
        clear = ne;
        which = which;
        head = ground arith;
        tail = ground arith;
        buffer = ground arith;
        last_head = ground arith;
        remote_head = ground arith;
      },
      ground arith,
      ground arith,
    )

pub append_map-IsFifo :
    {s : System} (x : MapEntry) {r : RingBuffer} {c : Cursor}
    → s.phase ≢ idle
    → IsMapEntry x
    → enqueue_mmap_entry s.ring x s.producer ≡ some (r, c)
    → IsFifo s
    → IsFifo (record s {
      ring = r;
      phase = writing;
      producer = c;
      sent = s.sent ++ (map_region x.entry_type x.addr x.size ∷ []);
    })
append_map-IsFifo {s} x i p run (k, h) =
    let (a, same, same_end) = map-Appended {s = s} x run in
    rw
      (← decode-store_map_entry (s.ring.buffer s.producer.tail) x (ground arith) (ground arith) p.1)
      (append_quietly-IsFifo h a same same_end)

abbrev committed : Entry → Entry
committed e = record e { entry_type = commit_entry }

commit-Appended :
    {s : System} {r : RingBuffer} {c : Cursor}
    → (next_index s.producer.tail ≡ s.producer.head
        → s.ring.last_persisted_head ≡ s.ring.remote_head)
    → commit_enqueued_entries s.ring s.producer ≡ some (r, c)
    → Appended s (committed (s.ring.buffer s.producer.tail)) r c
      × (r.last_persisted_tail ≡ next_index s.producer.tail)
      × (r.remote_tail ≡ next_index s.producer.tail)
unfolding commit_enqueued_entries
commit-Appended {s} fresh run =
    let next = next_index s.producer.tail in
    let last = s.ring.last_persisted_head in
    let (found, ran, out) =
      >>=-eq-some (wait_for_space spin_fuel last next s.producer.head) _ run in
    let (ne, which) = wait_for_space-some last next s.producer.head ran in
    let which' : (found ≡ s.producer.head) ⊎ (found ≡ s.ring.remote_head) =
      elim (ℕ_discrete next s.producer.head) [
        | yes full ↦ elim which [ inl same ↦ inl same | inr moved ↦ inr (moved ∙ fresh full) ]
        | no clear ↦ inl (let free = wait_for_space_free last next s.producer.head clear in cc)
      ] in
    (
      record {
        found = found;
        clear = ne;
        which = which';
        head = ground arith;
        tail = ground arith;
        buffer = ground arith;
        last_head = ground arith;
        remote_head = ground arith;
      },
      ground arith,
      ground arith,
    )

pub publish-IsFifo :
    {s : System} {r : RingBuffer} {c : Cursor}
    → s.phase ≢ idle
    → (next_index s.producer.tail ≡ s.producer.head
        → s.ring.last_persisted_head ≡ s.ring.remote_head)
    → commit_enqueued_entries s.ring s.producer ≡ some (r, c)
    → IsFifo s
    → IsFifo (record s {
      ring = r;
      phase = published;
      producer = c;
      sent = s.sent ++ (commit ∷ []);
      visible = s.sent ++ (commit ∷ []);
    })
unfolding decode
publish-IsFifo {s} i fresh run (k, h) =
    let (a, same, same_end) = commit-Appended {s = s} fresh run in
    append-IsFifo h a (suc k.n) (λ q. cc)
      (same ∙ ap next_index h.producer_tail ∙ next_index-slot k.t)
      (same_end ∙ ap next_index h.producer_tail ∙ next_index-slot k.t) (omega arith) (omega arith)
      (λ _. refl) (omega arith) (appended-content h a)
