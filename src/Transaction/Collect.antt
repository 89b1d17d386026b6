-- ===== src/Transaction/Collect.antt =====
-- instrumentation/redo_entry_collector.c with instrument_front_end.c: while the application runs, each
-- byte that changed is in a copied range or in a block of the hash set.
use mangosteen_code.Common.{
  ℕ, suc, ◌+◌, ◌*◌, ◌/◌, ◌%◌, ◌<◌, ◌^◌, ◌≤◌, ◌≡◌, refl, sym, ◌∙◌, ◌⊎◌, inl, inr, arith, length,
  Bool-cases, some, List, [], ◌∷◌, ◌++◌, length-append, dec_lt, lt→ltb, eq→==,
}
use mangosteen_code.Memory.{Mem, read, write, write_outside, length-read}
use mangosteen_code.HashSet.{HashSet}
use mangosteen_code.HashSet.Slots.{IsHashSet, Member}
use mangosteen_code.HashSet.Room.{HasRoom}
use mangosteen_code.Collector.Machine.{Regs}
use mangosteen_code.Collector.Table.{IsTable}
use mangosteen_code.Collector.Entry.{begun}
use mangosteen_code.Collector.Store.{EndsWith, store-EndsWith}
use mangosteen_code.Collector.Cover.{Collected, insert_blocks-Collected}
use mangosteen_code.Instrumentation.{
  FrontEnd, MemcpyEntry, wrap_pre, sign_extend, max_num_of_memcpy,
}
use mangosteen_code.Instrumentation.Durable.Image.{Copied}
use mangosteen_code.Transaction.{
  Action, store, copy, instruments, Layout, IsLayout, Executes, done, instrumented, skipped, copied,
  enter_code, after_store, table_slots, effect, Fits, slots_for, copies, records_for, OnStack,
}
use mangosteen_code.Transaction.Table.{rebased, less_room, insert_blocks-HasRoom}
use mangosteen_code.Transaction.Length.{memcpy_records, memcpy_records-append, length-memcpy_blocks}

-- The state of a transaction that began with the memory `before`: the table is that of `s`, and a byte
-- that is tracked by neither a copied range nor a block of the set, and that no store through the stack
-- pointer excuses, is as it was.
pub record Collecting (l : Layout) (before : Mem) (excused : ℕ → Type 0) (words : ℕ → ℕ)
    (f : FrontEnd) (s : HashSet) : Type 0 where
  pub layout : IsLayout l words
  pub table : IsTable l.base l.count words words s
  pub set : IsHashSet s
  pub entries : f.thread.hash_set_entries ≡ table_slots words l.base 1024
  pub combiner : f.thread.combiner ≡ 1
  pub tracked :
      (x : ℕ)
      → (Copied f.thread.memcpy_array x)
        ⊎ ((1024 ≤ x) × Member s (x / 32 * 32))
        ⊎ (excused x)
        ⊎ (before x ≡ f.mem x)

-- The words of the thread's record stay.
IsLayout-kept :
    (l : Layout) (words words' : ℕ → ℕ) (s : HashSet)
    → IsLayout l words
    → IsTable l.base l.count words words' s
    → IsLayout l words'
IsLayout-kept l words words' s h t = record {
  low = h.low;
  apart = h.apart;
  combiner_apart = h.combiner_apart;
  count_apart = h.count_apart;
  entries_apart = h.entries_apart;
  combiner_outside = h.combiner_outside;
  count_outside = h.count_outside;
  entries_outside = h.entries_outside;
  busy = λ z. h.busy (sym (t.elsewhere _ h.combiner_apart h.combiner_outside) ∙ z);
  count_at = t.elsewhere _ h.count_apart h.count_outside ∙ h.count_at;
  table_at = t.elsewhere _ h.entries_apart h.entries_outside ∙ h.table_at;
}

-- The code before a store, with room for the blocks of later stores left
record StoreRuns (l : Layout) (words : ℕ → ℕ) (address w n : ℕ) (regs : Regs) (left right : ℕ)
    (s : HashSet) : Type 0 where
  s' : HashSet
  ends : EndsWith w address l.base l.count words (begun w (enter_code l regs) words left right 0) s'
  collected : Collected s (address / 32 * 32) (address + w) s'
  room : HasRoom n s'

store_runs :
    (l : Layout) (words : ℕ → ℕ) (address w n : ℕ) (regs : Regs) (left right : ℕ) (s : HashSet)
    → IsLayout l words
    → IsTable l.base l.count words words s
    → IsHashSet s
    → HasRoom (w / 32 + 2 + n) s
    → 1024 ≤ address
    → address + w + 32 < 2 ^ 63
    → StoreRuns l words address w n regs left right s
store_runs l words address w n regs left right s h t set room above inside =
    let k = w / 32 + 2 in
    let first = address / 32 * 32 in
    let (s', ran, collected) =
      insert_blocks-Collected k s first (address + w) set (less_room k (omega arith) room)
        (omega arith) (omega arith) (omega arith) in
    record {
      s' = s';
      ends =
          store-EndsWith w address l.base l.count (suc k) (enter_code l regs) words left right s s'
            h.low h.apart inside h.busy h.count_at h.table_at t ran;
      collected = collected;
      room = insert_blocks-HasRoom k n s first (address + w) s' room (omega arith) ran;
    }

write-or_same :
    (m : Mem) (a x : ℕ) (bytes : List ℕ)
    → ((a ≤ x) × (x < a + length bytes)) ⊎ (write m a bytes x ≡ m x)
write-or_same m a x bytes = elim (dec_lt x a) [
  | yes below ↦ inr (write_outside m a x bytes (inl below))
  | no h ↦ elim (dec_lt x (a + length bytes)) [
    | yes inside ↦ inl (omega arith, inside)
    | no above ↦ inr (write_outside m a x bytes (inr (omega arith)))
  ]
]

store-Collecting :
    (l : Layout) (before : Mem) (excused : ℕ → Type 0) (words words' : ℕ → ℕ) (f : FrontEnd)
    (s s' : HashSet) (address : ℕ) (bytes : List ℕ)
    → 1024 ≤ address
    → Collecting l before excused words f s
    → IsTable l.base l.count words words' s'
    → Collected s (address / 32 * 32) (address + length bytes) s'
    → Collecting l before excused words' (after_store l words' f address bytes) s'
unfolding after_store
store-Collecting l before excused words words' f s s' address bytes above h t more = record {
  layout = IsLayout-kept l words words' s' h.layout t;
  table = rebased t;
  set = more.set;
  entries = refl;
  combiner = h.combiner;
  tracked = λ x. elim (write-or_same f.mem address x bytes) [
    | inl inside ↦
        inr (inl (omega (arith, inside.0), more.stored x (omega (arith, inside.0)) inside.1))
    | inr same ↦ elim (h.tracked x) [
      | inl k ↦ inl k
      | inr (inl k) ↦ inr (inl (k.0, more.kept (x / 32 * 32) (omega (arith, k.0)) k.1))
      | inr (inr (inl k)) ↦ inr (inr (inl k))
      | inr (inr (inr k)) ↦ inr (inr (inr (k ∙ sym same)))
    ]
  ];
}

skip-Collecting :
    (l : Layout) (before : Mem) (excused : ℕ → Type 0) (words : ℕ → ℕ) (f : FrontEnd) (s : HashSet)
    (address : ℕ) (bytes : List ℕ)
    → ((x : ℕ) → address ≤ x → x < address + length bytes → excused x)
    → Collecting l before excused words f s
    → Collecting l before excused words (record f { mem = write f.mem address bytes }) s
skip-Collecting l before excused words f s address bytes stack h = record {
  layout = h.layout;
  table = h.table;
  set = h.set;
  entries = h.entries;
  combiner = h.combiner;
  tracked = λ x. elim (write-or_same f.mem address x bytes) [
    | inl inside ↦ inr (inr (inl (stack x inside.0 inside.1)))
    | inr same ↦ elim (h.tracked x) [
      | inl k ↦ inl k
      | inr (inl k) ↦ inr (inl k)
      | inr (inr (inl k)) ↦ inr (inr (inl k))
      | inr (inr (inr k)) ↦ inr (inr (inr (k ∙ sym same)))
    ]
  ];
}

Copied-left : (es fs : List MemcpyEntry) (x : ℕ) → Copied es x → Copied (es ++ fs) x
Copied-left [] fs x h = absurd h
Copied-left (e ∷ es) fs x (inl h) = inl h
Copied-left (e ∷ es) fs x (inr h) = inr (Copied-left es fs x h)

Copied-last :
    (es : List MemcpyEntry) (e : MemcpyEntry) (x : ℕ)
    → e.finish < e.start + 2 ^ 31
    → e.finish < 2 ^ 64
    → e.start ≤ x
    → x < e.finish
    → Copied (es ++ (e ∷ [])) x
Copied-last [] e x short fits lo hi = inl (short, fits, lo, hi)
Copied-last (d ∷ es) e x short fits lo hi = inr (Copied-last es e x short fits lo hi)

abbrev after_copy : FrontEnd → ℕ → ℕ → ℕ → FrontEnd
after_copy f dst src size =
    let t = f.thread in
    record f {
      thread = record t {
        memcpy_array = t.memcpy_array ++ (record { start = dst; finish = dst + size } ∷ []);
      };
      mem = write f.mem dst (read f.mem src size);
    }

copy-runs :
    (f : FrontEnd) (dst src size : ℕ)
    → f.thread.combiner ≡ 1
    → length f.thread.memcpy_array < max_num_of_memcpy
    → size < 2 ^ 31
    → dst + size < 2 ^ 64
    → wrap_pre f dst src size ≡ some (after_copy f dst src size, 0)
unfolding wrap_pre sign_extend
copy-runs f dst src size busy few short fits =
    let small : size % 2 ^ 32 ≡ size = omega arith in
    let inside : (dst + size) % 2 ^ 64 ≡ dst + size = omega arith in
    rw (eq→== _ _ busy, small, lt→ltb size (2 ^ 31) short, inside, lt→ltb _ _ few) refl

copy-Collecting :
    (l : Layout) (before : Mem) (excused : ℕ → Type 0) (words : ℕ → ℕ) (f : FrontEnd) (s : HashSet)
    (dst src size : ℕ)
    → size < 2 ^ 31
    → dst + size < 2 ^ 64
    → Collecting l before excused words f s
    → Collecting l before excused words (after_copy f dst src size) s
copy-Collecting l before excused words f s dst src size short fits h =
    let es = f.thread.memcpy_array in
    let e : MemcpyEntry = record { start = dst; finish = dst + size } in
    let bytes = read f.mem src size in
    record {
      layout = h.layout;
      table = h.table;
      set = h.set;
      entries = h.entries;
      combiner = h.combiner;
      tracked = λ x. elim (write-or_same f.mem dst x bytes) [
        | inl inside ↦ inl (
            Copied-last es e x (omega arith) fits inside.0
              (omega (arith, inside.1, length-read f.mem src size)))
        | inr same ↦ elim (h.tracked x) [
          | inl k ↦ inl (Copied-left es (e ∷ []) x k)
          | inr (inl k) ↦ inr (inl k)
          | inr (inr (inl k)) ↦ inr (inr (inl k))
          | inr (inr (inr k)) ↦ inr (inr (inr (k ∙ sym same)))
        ]
      ];
    }

-- The end of the actions
pub record Collects (l : Layout) (before : Mem) (excused : ℕ → Type 0) (words : ℕ → ℕ)
    (f : FrontEnd) (acts : List Action) : Type 0 where
  pub words' : ℕ → ℕ
  pub f' : FrontEnd
  pub s' : HashSet
  pub runs : Executes l words f acts words' f'
  pub collecting : Collecting l before excused words' f' s'
  pub mem : f'.mem ≡ effect acts f.mem
  pub ring : f'.ring ≡ f.ring
  pub records :
      memcpy_records f'.thread.memcpy_array
      ≤ memcpy_records f.thread.memcpy_array + records_for acts
  pub overflow : f'.overflow_buffer ≡ f.overflow_buffer

pub actions-Collects :
    (l : Layout) (before : Mem) (excused : ℕ → Type 0) (words : ℕ → ℕ) (f : FrontEnd) (s : HashSet)
    (acts : List Action)
    → Fits acts
    → HasRoom (slots_for acts) s
    → length f.thread.memcpy_array + copies acts ≤ max_num_of_memcpy
    → ((x : ℕ) → OnStack acts x → excused x)
    → Collecting l before excused words f s
    → Collects l before excused words f acts
unfolding slots_for copies effect after_store records_for
actions-Collects l before excused words f s [] fits room few stack h = record {
  words' = words;
  f' = f;
  s' = s;
  runs = done;
  collecting = h;
  mem = refl;
  ring = refl;
  records = omega arith;
  overflow = refl;
}
actions-Collects l before excused words f s (store dst a bytes regs left right ∷ rest) fits room few
      stack h =
    elim (Bool-cases (instruments dst)) [
      | inl yes_it_is ↦
          let one =
            store_runs l words a (length bytes) (slots_for rest) regs left right s h.layout h.table
              h.set (rw yes_it_is at room) fits.0 fits.1 in
          let words' = one.ends.mem in
          let last =
            actions-Collects l before excused words' (after_store l words' f a bytes) one.s' rest
              fits.2 one.room few (λ x k. stack x (inr k))
              (store-Collecting l before excused words words' f s one.s' a bytes fits.0 h
                one.ends.table one.collected) in
          record {
            words' = last.words';
            f' = last.f';
            s' = last.s';
            runs = instrumented yes_it_is one.ends.runs last.runs;
            collecting = last.collecting;
            mem = last.mem;
            ring = last.ring;
            records = last.records;
            overflow = last.overflow;
          }
      | inr not_it ↦
          let last =
            actions-Collects l before excused words (record f { mem = write f.mem a bytes }) s rest
              fits.2 (rw not_it at room) few (λ x k. stack x (inr k))
              (skip-Collecting l before excused words f s a bytes
                (λ x lo hi. stack x (inl (not_it, lo, hi))) h) in
          record {
            words' = last.words';
            f' = last.f';
            s' = last.s';
            runs = skipped not_it last.runs;
            collecting = last.collecting;
            mem = last.mem;
            ring = last.ring;
            records = last.records;
            overflow = last.overflow;
          }
    ]
actions-Collects l before excused words f s (copy dst src size ∷ rest) fits room few stack h =
    let g = after_copy f dst src size in
    let range : MemcpyEntry = record { start = dst; finish = dst + size } in
    let ran = copy-runs f dst src size h.combiner (omega arith) fits.0 fits.1 in
    let last =
      actions-Collects l before excused words g s rest fits.2 room
        (omega (arith, length-append f.thread.memcpy_array (range ∷ []))) stack
        (copy-Collecting l before excused words f s dst src size fits.0 fits.1 h) in
    record {
      words' = last.words';
      f' = last.f';
      s' = last.s';
      runs = copied ran last.runs;
      collecting = last.collecting;
      mem = last.mem;
      ring = last.ring;
      records = omega (
        arith,
        last.records,
        memcpy_records-append f.thread.memcpy_array range,
        length-memcpy_blocks dst size fits.0 fits.1,
      );
      overflow = last.overflow;
    }
