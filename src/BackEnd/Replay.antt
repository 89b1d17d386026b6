-- ===== src/BackEnd/Replay.antt =====
-- back-end/back_end.c: `process_entry` on redo and commit entries, and the loop of recovery.
use mangosteen_code.Common.{
  ℕ, zero, suc, ◌+◌, ◌≤◌, ◌<◌, ◌^◌, ◌≡◌, ◌≢◌, refl, sym, ap, ◌⊎◌, ◌∙◌, inl, inr, List, ◌∷◌, map,
  some, none, arith, dec_lt, ◌==◌, eq→==, ne→==, Bool-cases, ==→eq,
}
use mangosteen_code.Memory.{write}
use mangosteen_code.RingBuffer.{
  Entry, Globals, ring_buffer_size, spin_fuel, next_index, dequeue, redo_entry, commit_entry,
  map_size, commit_dequeued_entries,
}
use mangosteen_code.RingBuffer.Size.{LogRecord, redo, map_region, commit, decode}
use mangosteen_code.RingBuffer.Spin.{
  wait_for_entry_free, wait_for_entry_moved, wait_for_entry_stuck,
}
use mangosteen_code.RingBuffer.Window.{slot, window, slot_injective, next_index-slot}
use mangosteen_code.RegionTable.{Kernel, commit_table}
use mangosteen_code.BackEnd.{BackEnd, apply_entry, process_entry, commit_rb_batch, replay}
use mangosteen_code.BackEnd.Log.{apply_record, apply_log, IsBatches}

-- The records of `n` slots from the position `p` on.
abbrev pub records : (ℕ → Entry) → ℕ → ℕ → List LogRecord
records buf p n = map decode (window buf p n)

-- The back end stands at the position `p` of a log that ends at `last`; `remote_head` is at `q`. Its
-- own copy of the tail, at `known`, may be behind, and so may `last_persisted_head`, at `low`.
pub record At (buf : ℕ → Entry) (last q p : ℕ) (b : BackEnd) : Type 0 where
  pub buffer : b.ring.buffer ≡ buf
  pub head : b.globals.global_local_head ≡ slot p
  pub known : ℕ
  pub tail : b.globals.global_local_tail ≡ slot known
  pub persisted : b.ring.last_persisted_tail ≡ slot last
  pub remote : b.ring.remote_head ≡ slot q
  pub published : b.ring.remote_tail ≡ slot last
  pub q-le : q ≤ p
  pub p-le : p ≤ known
  pub known-le : known ≤ last
  pub fits : last < q + ring_buffer_size
  pub low : ℕ
  pub persisted_head : b.ring.last_persisted_head ≡ slot low
  pub low-le : low ≤ p
  pub fits_low : last < low + ring_buffer_size

-- The table and the metadata of the ring agree on the number of regions.
pub record IsSettled (n : ℕ) (b : BackEnd) : Type 0 where
  pub committed : b.ring.commit_metadata.number_of_regions ≡ n
  pub uncommitted : b.table.uncommited_number_of_entries ≡ n
  pub listed : b.table.number_of_entries ≡ n

-- The regions are the same, and the table and the ring still agree on their number.
abbrev pub Keeps : BackEnd → BackEnd → Type 0
Keeps b b' =
    (b'.table.entries ≡ b.table.entries) × ((n : ℕ) → n < 2 ^ 32 → IsSettled n b → IsSettled n b')

pub Keeps-refl : (b : BackEnd) → Keeps b b
Keeps-refl b = (refl, λ n low h. h)

pub Keeps-trans : {b c d : BackEnd} → Keeps b c → Keeps c d → Keeps b d
Keeps-trans x y = (y.0 ∙ x.0, λ n low h. y.1 n low (x.1 n low h))

commit_rb_batch-Keeps : (b : BackEnd) → Keeps b (commit_rb_batch b)
unfolding commit_rb_batch commit_dequeued_entries commit_table
commit_rb_batch-Keeps b = (
  refl,
  λ n low h. record {
    committed = omega (arith, h.uncommitted);
    uncommitted = h.uncommitted;
    listed = h.uncommitted;
  },
)

-- The three kinds of entry, by the type that `process_entry` tests.
pub kinds :
    (e : Entry)
    → ((e.entry_type ≡ redo_entry) × (decode e ≡ redo e.addr e.payload))
      ⊎ ((e.entry_type ≡ commit_entry) × (decode e ≡ commit))
      ⊎ (decode e ≡ map_region e.entry_type e.addr (map_size e))
unfolding decode
kinds e = elim (Bool-cases (e.entry_type == redo_entry)) [
  | inl r ↦ inl (==→eq _ _ r, rw r)
  | inr r ↦ elim (Bool-cases (e.entry_type == commit_entry)) [
    | inl c ↦ inr (inl (==→eq _ _ c, rw (r, c)))
    | inr c ↦ inr (inr (rw (r, c)))
  ]
]

module _ {buf : ℕ → Entry} {last q p : ℕ} {b : BackEnd} (k : Kernel) (a : At buf last q p b)
    (more : p < last) where
  abbrev entry : Entry
  entry = b.ring.buffer b.globals.global_local_head

  abbrev moved : ℕ → Globals
  moved found =
      let g = b.globals in
      record g { global_local_head = next_index g.global_local_head; global_local_tail = found }

  dequeue_at :
      (found known : ℕ) × (dequeue b.ring b.globals ≡ some (entry, moved found))
      × (found ≡ slot known)
      × (p + 1 ≤ known)
      × (known ≤ last)
  unfolding dequeue
  dequeue_at =
      let head = b.globals.global_local_head in
      let tail = b.globals.global_local_tail in
      elim (dec_lt p a.known) [
        | yes seen ↦ (
          tail,
          a.known,
          rw
              (wait_for_entry_free b.ring.last_persisted_tail head tail (
                ground
                  (arith, a.head, a.tail, slot_injective p a.known (omega arith) (omega arith))))
              refl,
          a.tail,
          omega arith,
          a.known-le,
        )
        | no empty ↦ (
          b.ring.last_persisted_tail,
          last,
          rw
              (wait_for_entry_moved b.ring.last_persisted_tail head tail
                (a.head ∙ ap slot (omega arith) ∙ sym a.tail)
                (ground
                  (arith, a.head, a.persisted, slot_injective p last (omega arith) (omega arith))))
              refl,
          a.persisted,
          omega arith,
          omega arith,
        )
      ]

  entry_at : entry ≡ buf (slot p)
  entry_at = ground (arith, a.buffer, a.head)

  -- A redo entry is stored to memory, and nothing is acknowledged.
  pub redo_step :
      (e : Entry)
      → e ≡ buf (slot p)
      → e.entry_type ≡ redo_entry
      → (b' : BackEnd) × (process_entry k b ≡ some b')
        × At buf last q (p + 1) b'
        × (b'.mem ≡ write b.mem e.addr e.payload)
        × Keeps b b'
  unfolding process_entry apply_entry
  redo_step e same kind =
      let (found, known, taken, seen, after_p, high) = dequeue_at in
      (
        record b { globals = moved found; mem = write b.mem e.addr e.payload },
        rw taken (rw (entry_at ∙ sym same) (ground arith)),
        record {
          buffer = a.buffer;
          head = ap next_index a.head ∙ next_index-slot p;
          known = known;
          tail = seen;
          persisted = a.persisted;
          remote = a.remote;
          published = a.published;
          q-le = omega (arith, a.q-le);
          p-le = after_p;
          known-le = high;
          fits = a.fits;
          low = a.low;
          persisted_head = a.persisted_head;
          low-le = omega (arith, a.low-le);
          fits_low = a.fits_low;
        },
        refl,
        (
          refl,
          λ m low h. record {
            committed = h.committed;
            uncommitted = h.uncommitted;
            listed = h.listed;
          },
        ),
      )

  -- A commit entry acknowledges what came before it and itself.
  pub commit_step :
      (e : Entry)
      → e ≡ buf (slot p)
      → e.entry_type ≡ commit_entry
      → (b' : BackEnd) × (process_entry k b ≡ some b')
        × At buf last (p + 1) (p + 1) b'
        × (b'.mem ≡ b.mem)
        × Keeps b b'
  unfolding process_entry apply_entry commit_rb_batch
  commit_step e same kind =
      let (found, known, taken, seen, after_p, high) = dequeue_at in
      (
        commit_rb_batch (record b { globals = moved found }),
        rw taken (rw (entry_at ∙ sym same) (ground arith)),
        record {
          buffer = a.buffer;
          head = ap next_index a.head ∙ next_index-slot p;
          known = known;
          tail = seen;
          persisted = a.persisted;
          remote = ap next_index a.head ∙ next_index-slot p;
          published = a.published;
          q-le = omega arith;
          p-le = after_p;
          known-le = high;
          fits = omega (arith, a.q-le, a.fits);
          low = p + 1;
          persisted_head = ap next_index a.head ∙ next_index-slot p;
          low-le = omega arith;
          fits_low = omega (arith, a.low-le, a.fits_low);
        },
        refl,
        Keeps-trans
            (
              refl,
              λ m low h. record {
                committed = h.committed;
                uncommitted = h.uncommitted;
                listed = h.listed;
              },
            )
            (commit_rb_batch-Keeps (record b { globals = moved found })),
      )

-- One step of the loop: the records that are left, memory, and whether `remote_head` moved.
pub record Advanced (buf : ℕ → Entry) (last q p n : ℕ) (k : Kernel) (b : BackEnd) : Type 0 where
  pub after : BackEnd
  pub ran : process_entry k b ≡ some after
  pub mem : after.mem ≡ apply_record (decode (buf (slot p))) b.mem
  pub regions : Keeps b after
  pub rest : IsBatches (records buf (p + 1) n)
  pub at : ((n ≢ 0) × At buf last q (p + 1) after) ⊎ At buf last (p + 1) (p + 1) after

IsBatches-redo :
    (buf : ℕ → Entry) (addr : ℕ) (payload : List ℕ) (p n : ℕ)
    → IsBatches (redo addr payload ∷ records buf p n)
    → (n ≢ 0) × IsBatches (records buf p n)
unfolding window
IsBatches-redo buf addr payload p zero h = absurd h
IsBatches-redo buf addr payload p (suc n) h = (omega arith, h)

pub advance :
    {buf : ℕ → Entry} {last q p n : ℕ} {b : BackEnd} (k : Kernel)
    → At buf last q p b
    → p + suc n ≡ last
    → IsBatches (records buf p (suc n))
    → Advanced buf last q p n k b
unfolding window apply_record
advance {buf} {last} {q} {p} {n} {b} k a count log =
    let e = buf (slot p) in
    let more : p < last = omega arith in
    elim (kinds e) [
      | inl (kind, is_redo) ↦
          let (after, ran, at, mem, regions) = redo_step k a more e refl kind in
          let (left, rest) = IsBatches-redo buf e.addr e.payload (p + 1) n (rw is_redo at log) in
          record {
            after = after;
            ran = ran;
            regions = regions;
            mem = mem ∙ rw is_redo refl;
            rest = rest;
            at = inl (left, at);
          }
      | inr (inl (kind, is_commit)) ↦
          let (after, ran, at, mem, regions) = commit_step k a more e refl kind in
          record {
            after = after;
            ran = ran;
            regions = regions;
            mem = mem ∙ rw is_commit refl;
            rest = rw is_commit at log;
            at = inr at;
          }
      | inr (inr is_map) ↦ absurd (rw is_map at log)
    ]

replay_step :
    (fuel : ℕ) (k : Kernel) (b : BackEnd) {after b' : BackEnd}
    → b.ring.remote_head ≢ b.ring.remote_tail
    → process_entry k b ≡ some after
    → replay fuel k after ≡ some b'
    → replay (suc fuel) k b ≡ some b'
unfolding replay
replay_step fuel k b left ran rest = rw (ne→== _ _ left, ran) rest

-- The loop of recovery ends at the end of the log.
pub replay_ends :
    (n fuel : ℕ) {buf : ℕ → Entry} {last q p : ℕ} {b : BackEnd} (k : Kernel)
    → At buf last q p b
    → p + n ≡ last
    → (n ≡ 0 → q ≡ last)
    → IsBatches (records buf p n)
    → n < fuel
    → (b' : BackEnd) × (replay fuel k b ≡ some b')
      × At buf last last last b'
      × Keeps b b'
      × (b'.mem ≡ apply_log (records buf p n) b.mem)
unfolding replay window apply_log
replay_ends n zero k a count caught log few = absurd (omega arith)
replay_ends zero (suc fuel) {buf} {last} {q} {p} {b} k a count caught log few =
    let same : b.ring.remote_head ≡ b.ring.remote_tail =
      a.remote ∙ ap slot (caught refl) ∙ sym a.published in
    (
      b,
      rw (eq→== _ _ same) refl,
      (let p_last : p ≡ last = omega arith in
          let q_last : q ≡ last = caught refl in rw (p_last, q_last) at a),
      Keeps-refl b,
      refl,
    )
replay_ends (suc n) (suc fuel) {buf} {last} {q} {p} {b} k a count caught log few =
    let s = advance k a count log in
    let left : b.ring.remote_head ≢ b.ring.remote_tail =
      ground (arith, a.remote, a.published, slot_injective q last (omega arith) a.fits) in
    elim s.at [
      | inl (busy, at) ↦
          let (b', done, at_end, regions, mem) =
            replay_ends n fuel k at (omega arith) (λ z. absurd (busy z)) s.rest (omega arith) in
          (
            b',
            replay_step fuel k b left s.ran done,
            at_end,
            Keeps-trans s.regions regions,
            mem ∙ ap (apply_log (records buf (p + 1) n)) s.mem,
          )
      | inr at ↦
          let (b', done, at_end, regions, mem) =
            replay_ends n fuel k at (omega arith) (λ z. omega arith) s.rest (omega arith) in
          (
            b',
            replay_step fuel k b left s.ran done,
            at_end,
            Keeps-trans s.regions regions,
            mem ∙ ap (apply_log (records buf (p + 1) n)) s.mem,
          )
    ]

-- From a position in a log of whole batches the loop ends with the log acknowledged and applied; more
-- fuel than records is enough.
pub replay_from :
    (n fuel : ℕ) {buf : ℕ → Entry} {last q p : ℕ} {b : BackEnd} (k : Kernel)
    → At buf last q p b
    → p + n ≡ last
    → (n ≡ 0 → q ≡ last)
    → IsBatches (records buf p n)
    → n < fuel
    → (b' : BackEnd) × (replay fuel k b ≡ some b')
      × (b'.ring.remote_head ≡ b'.ring.remote_tail)
      × (b'.mem ≡ apply_log (records buf p n) b.mem)
replay_from n fuel k a count caught log few =
    let (b', done, at_end, regions, mem) = replay_ends n fuel k a count caught log few in
    (b', done, at_end.remote ∙ sym at_end.published, mem)

-- At the end of the log `process_entry` waits for an entry for ever.
pub At-idle :
    {buf : ℕ → Entry} {last : ℕ} {b : BackEnd} (k : Kernel)
    → At buf last last last b
    → process_entry k b ≡ none
unfolding process_entry dequeue
At-idle {last = last} {b = b} k a =
    let known : a.known ≡ last = omega (arith, a.p-le, a.known-le) in
    rw
      (wait_for_entry_stuck spin_fuel b.ring.last_persisted_tail b.globals.global_local_head
        b.globals.global_local_tail (a.head ∙ ap slot (sym known) ∙ sym a.tail)
        (a.head ∙ sym a.persisted))
      refl

-- While an entry is left the wait of `run_consumer` ends.
pub not_waiting :
    {buf : ℕ → Entry} {last q p : ℕ} {b : BackEnd}
    → At buf last q p b
    → p < last
    → b.ring.last_persisted_tail ≢ b.ring.last_persisted_head
not_waiting {last = last} a more = ground (
  arith,
  a.persisted,
  a.persisted_head,
  a.low-le,
  a.fits_low,
  slot_injective a.low last (omega (arith, a.low-le)) a.fits_low,
)
