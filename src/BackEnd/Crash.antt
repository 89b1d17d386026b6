-- ===== src/BackEnd/Crash.antt =====
-- back-end/back_end.c: a crash at any entry of the log, and the recovery from it.
use mangosteen_code.Common.{
  ℕ, zero, suc, ◌+◌, ◌-◌, ◌≤◌, ◌<◌, ◌^◌, ◌≡◌, refl, sym, ap, ◌∙◌, inl, inr, ◌∷◌, ◌++◌, some, none,
  arith, false, ◌>>=◌, ne→==,
}
use mangosteen_code.Memory.{Mem}
use mangosteen_code.RingBuffer.{Entry, RingBuffer}
use mangosteen_code.RingBuffer.Size.{decode}
use mangosteen_code.RingBuffer.Window.{slot, window}
use mangosteen_code.RegionTable.{Kernel, RegionTable, RegionTableEntry, InRegion, Files}
use mangosteen_code.RegionTable.Remap.{MapsFiles, SharesFiles, remap_lem}
use mangosteen_code.BackEnd.{BackEnd, process_entry, run_consumer, recover, reopen, mapped_again}
use mangosteen_code.BackEnd.Log.{
  apply_record, apply_log, apply_log_twice, apply_log_agree, IsBatches,
}
use mangosteen_code.BackEnd.Replay.{
  records, At, IsSettled, Keeps, Keeps-refl, Keeps-trans, advance, replay_ends, At-idle,
  not_waiting,
}

window-split :
    (buf : ℕ → Entry) (q i p n m : ℕ)
    → q + i ≡ p
    → i + suc n ≡ m
    → records buf q m ≡ records buf q i ++ (decode (buf (slot p)) ∷ records buf (p + 1) n)
unfolding window
window-split buf q zero p n m at count = ground arith
window-split buf q (suc i) p n zero at count = absurd (omega arith)
window-split buf q (suc i) p n (suc m) at count =
    ap (λ l. decode (buf (slot q)) ∷ l)
      (window-split buf (q + 1) i p n m (omega arith) (omega arith))

-- A record between `remote_head` and the end of the log changes nothing when it is applied early.
already_applied :
    (buf : ℕ → Entry) (q p n m : ℕ) (mem : Mem) (x : ℕ)
    → q ≤ p
    → q + m ≡ p + suc n
    → apply_log (records buf q m) (apply_record (decode (buf (slot p))) mem) x
      ≡ apply_log (records buf q m) mem x
already_applied buf q p n m mem x low count =
    rw (window-split buf q (p - q) p n m (omega arith) (omega arith)) (
      apply_log_twice (records buf q (p - q)) (decode (buf (slot p))) (records buf (p + 1) n) mem x)

-- Wherever the back end stands, the rest of the log, and the log from `remote_head` on, both lead
-- from its memory to the same bytes.
record Leads (buf : ℕ → Entry) (last : ℕ) (goal : Mem) (q p n : ℕ) (b : BackEnd) : Type 0 where
  at : At buf last q p b
  left : p + n ≡ last
  rest_leads : (x : ℕ) → apply_log (records buf p n) b.mem x ≡ goal x
  rest : IsBatches (records buf p n)
  m : ℕ
  unacknowledged : q + m ≡ last
  all_leads : (x : ℕ) → apply_log (records buf q m) b.mem x ≡ goal x
  all : IsBatches (records buf q m)

Leads-advance :
    {buf : ℕ → Entry} {last q p n : ℕ} {goal : Mem} {b : BackEnd} (k : Kernel)
    → Leads buf last goal q p (suc n) b
    → (after : BackEnd) × (q' : ℕ) × (process_entry k b ≡ some after)
      × (q ≤ q')
      × Keeps b after
      × Leads buf last goal q' (p + 1) n after
unfolding window apply_log
Leads-advance {buf} {last} {q} {p} {n} {goal} {b} k l =
    let s = advance k l.at l.left l.rest in
    let r = decode (buf (slot p)) in
    let now : (x : ℕ) → apply_log (records buf (p + 1) n) s.after.mem x ≡ goal x =
      λ x. ap (λ m. apply_log (records buf (p + 1) n) m x) s.mem ∙ l.rest_leads x in
    elim s.at [
      | inl (busy, at) ↦ (
        s.after,
        q,
        s.ran,
        omega (arith, l.at.q-le),
        s.regions,
        record {
          at = at;
          left = omega (arith, l.left);
          rest_leads = now;
          rest = s.rest;
          m = l.m;
          unacknowledged = l.unacknowledged;
          all_leads = λ x.
              ap (λ m. apply_log (records buf q l.m) m x) s.mem
              ∙ already_applied buf q p n l.m b.mem x l.at.q-le (omega arith)
              ∙ l.all_leads x;
          all = l.all;
        },
      )
      | inr at ↦ (
        s.after,
        p + 1,
        s.ran,
        omega (arith, l.at.q-le),
        s.regions,
        record {
          at = at;
          left = omega (arith, l.left);
          rest_leads = now;
          rest = s.rest;
          m = n;
          unacknowledged = omega (arith, l.left);
          all_leads = now;
          all = s.rest;
        },
      )
    ]

Leads-run :
    (j n : ℕ) {buf : ℕ → Entry} {last q p : ℕ} {goal : Mem} {b : BackEnd} (k : Kernel)
    → j ≤ n
    → Leads buf last goal q p n b
    → (after : BackEnd) × (q' : ℕ) × (p' : ℕ) × (n' : ℕ) × (run_consumer j k b ≡ some after)
      × (q ≤ q')
      × Keeps b after
      × Leads buf last goal q' p' n' after
unfolding run_consumer
Leads-run zero n {q = q} {p = p} {b = b} k few l = (b, q, p, n, refl, omega arith, Keeps-refl b, l)
Leads-run (suc j) zero k few l = absurd (omega arith)
Leads-run (suc j) (suc n) k few l =
    let (next, q', ran, up, regions, l') = Leads-advance k l in
    let (after, q'', p', n', done, fewer, regions', l'') = Leads-run j n k (omega arith) l' in
    (
      after,
      q'',
      p',
      n',
      rw (ne→== _ _ (not_waiting l.at (omega (arith, l.left)))) (rw ran done),
      omega arith,
      Keeps-trans regions regions',
      l'',
    )

-- The bytes of the ring that lie past the end of its file are there again after the crash.
abbrev pub KeepsPastEnd : (RingBuffer → RingBuffer) → Type 0
KeepsPastEnd past =
    (r : RingBuffer)
    → ((past r).remote_tail ≡ r.remote_tail)
      × ((past r).commit_metadata.number_of_regions ≡ r.commit_metadata.number_of_regions)

-- The operating system of a restart: what it maps, what the files hold, and what is past the ring's end
pub record Restart : Type 0 where
  pub os : Files → Kernel
  pub held : Mem → Files
  pub past : RingBuffer → RingBuffer

-- It maps files, the regions of the table are shared with them, and it keeps the ring.
pub record Serves (o : Restart) (entries : ℕ → RegionTableEntry) (n : ℕ) : Type 0 where
  pub maps : MapsFiles o.os entries n
  pub shares : SharesFiles o.held entries n
  pub keeps : KeepsPastEnd o.past
  pub low : n < 2 ^ 32

-- `reopen` puts the new process at `remote_head`, and `recover` replays what is left from there, over
-- the regions that it mapped.
recover_rest :
    {buf : ℕ → Entry} {last q p : ℕ} {b : BackEnd} (o : Restart) (fresh : Mem) (m fuel mapped n : ℕ)
    → Serves o b.table.entries n
    → IsSettled n b
    → At buf last q p b
    → q + m ≡ last
    → IsBatches (records buf q m)
    → m < fuel
    → (recovered : BackEnd) × ((reopen mapped o.past fresh b >>= recover fuel (o.os (o.held b.mem)))
        ≡ some recovered)
      × At buf last last last recovered
      × (recovered.table.entries ≡ b.table.entries)
      × (recovered.table.number_of_entries ≡ n)
      × ((i x : ℕ)
          → i < n
          → InRegion (b.table.entries i) x
          → recovered.mem x ≡ apply_log (records buf q m) b.mem x)
unfolding reopen recover mapped_again
recover_rest {buf} {last} {q} {p} {b} o fresh m fuel mapped n v settled a count log enough =
    let k = o.os (o.held b.mem) in
    let r = mapped_again o.past b.ring in
    let tail = (v.keeps b.ring).0 in
    let same = (v.keeps b.ring).1 ∙ settled.committed in
    let b' = b.table in
    let t : RegionTable = record b' {
      number_of_entries = r.commit_metadata.number_of_regions;
      number_of_new_entries = 0;
      needs_sync = false;
    } in
    let (mem, mapping, shows) = remap_lem o.os o.held b.mem t n v.maps v.shares fresh same in
    let again : BackEnd = record {
      ring = record r { last_persisted_head = r.remote_head; last_persisted_tail = r.remote_tail };
      table = t;
      globals = record {
        global_local_head = r.remote_head;
        global_local_tail = r.remote_tail;
        number_of_mmaped_memory_regions = r.commit_metadata.number_of_regions;
      };
      mem = mem;
      sequence_number = 0;
    } in
    let at : At buf last q q again = record {
      buffer = a.buffer;
      head = a.remote;
      known = last;
      tail = tail ∙ a.published;
      persisted = tail ∙ a.published;
      remote = a.remote;
      published = tail ∙ a.published;
      q-le = omega arith;
      p-le = omega (arith, a.q-le, a.p-le, a.known-le);
      known-le = omega arith;
      fits = a.fits;
      low = q;
      persisted_head = a.remote;
      low-le = omega arith;
      fits_low = a.fits;
    } in
    let (recovered, done, at_end, kept, log_applied) =
      replay_ends m fuel k at count (λ z. omega arith) log enough in
    let end_settled : IsSettled n recovered =
      kept.1 n v.low
        (record { committed = same; uncommitted = settled.uncommitted; listed = same }) in
    (
      recovered,
      rw mapping done,
      at_end,
      kept.0,
      end_settled.listed,
      λ i x lt h.
          ap (λ f. f x) log_applied
          ∙ apply_log_agree (records buf q m) mem b.mem x (shows i x lt h),
    )

-- The log that the ring holds is whole batches of redo records, and the back end is at its start, with
-- `regions` regions, which are shared with their files. Wherever it crashes, after `j` of the `n` entries,
-- a new process, whatever its memory holds, on a system that maps the regions and shows the bytes of the ring
-- that lie past the end of its file as they were, replays the log to its end: the ring is empty,
-- `process_entry` waits for a new entry, the table names the regions that it named, and at every address
-- of a region memory is what the whole log makes of the memory before.
pub crash_recovery :
    {buf : ℕ → Entry} {last p : ℕ} {b : BackEnd} (k : Kernel) (o : Restart) (fresh : Mem)
    (j n fuel mapped regions : ℕ)
    → Serves o b.table.entries regions
    → IsSettled regions b
    → At buf last p p b
    → p + n ≡ last
    → IsBatches (records buf p n)
    → j ≤ n
    → n < fuel
    → (crashed : BackEnd) × (recovered : BackEnd) × (run_consumer j k b ≡ some crashed)
      × ((reopen mapped o.past fresh crashed >>= recover fuel (o.os (o.held crashed.mem)))
          ≡ some recovered)
      × (recovered.ring.remote_head ≡ recovered.ring.remote_tail)
      × (process_entry (o.os (o.held crashed.mem)) recovered ≡ none)
      × (recovered.table.entries ≡ b.table.entries)
      × (recovered.table.number_of_entries ≡ regions)
      × ((i x : ℕ)
          → i < regions
          → InRegion (b.table.entries i) x
          → recovered.mem x ≡ apply_log (records buf p n) b.mem x)
crash_recovery {buf} {last} {p} {b} k o fresh j n fuel mapped regions v settled a count log few
      enough =
    let l : Leads buf last (apply_log (records buf p n) b.mem) p p n b = record {
      at = a;
      left = count;
      rest_leads = λ x. refl;
      rest = log;
      m = n;
      unacknowledged = count;
      all_leads = λ x. refl;
      all = log;
    } in
    let (crashed, q', p', n', ran, further, kept, l') = Leads-run j n k few l in
    let v' : Serves o crashed.table.entries regions = rw (kept.0) v in
    let (recovered, done, at_end, same, number, mem) =
      recover_rest o fresh l'.m fuel mapped regions v' (kept.1 regions v.low settled) l'.at
        l'.unacknowledged l'.all (omega (arith, l'.unacknowledged)) in
    (
      crashed,
      recovered,
      ran,
      done,
      at_end.remote ∙ sym at_end.published,
      At-idle (o.os (o.held crashed.mem)) at_end,
      same ∙ kept.0,
      number,
      λ i x lt h. mem i x lt (rw (kept.0) h) ∙ l'.all_leads x,
    )
