-- ===== src/Tests/Space.antt =====
-- instrumentation/instrument_front_end.c on a small system: a memory, files as bytes by offset, and at most
-- one mapping that `mmap` placed, at 2^40.
use mangosteen_code.Common.{
  Bool-cases, ltb→lt, inr, sym, ◌⊎◌, ℕ, ◌+◌, ◌-◌, ◌%◌, ◌^◌, ◌<◌, ◌≡◌, inl, inr, [], ◌∷◌, get_or,
  some, none, Option, true, false, refl, sym, ap, arith, if◌then◌else◌, ltb, leb, ◌&&◌, ◌==◌, eq→==,
  update, update_self, update_ne,
}
use mathlib.Core.Option.{some-injective}
use mangosteen_code.Memory.{Mem, write}
use mangosteen_code.RegionTable.{
  Kernel, zero_table, create_pmem_file, add_region_record, commit_table,
}
use mangosteen_code.AddressSpace.{
  Os, Dr, MemInfo, Space, Scanned, scan, visit, should_replace, synchronize_address_space,
  replace_all, replace_region, read_write,
}
use mangosteen_code.AddressSpace.Shows.{View, Keeps, Behaves, Succeeds}
use mangosteen_code.AddressSpace.Scan.{Answers, scan_ends}
use mangosteen_code.AddressSpace.Region.{Ready}
use mangosteen_code.AddressSpace.Sync.{InRegions}
use mangosteen_code.AddressSpace.Restart.{Synchronized, synchronize_lem}

record Sys : Type 0 where
  mem : Mem
  files : ℕ → Mem
  scratch : ℕ

abbrev place : ℕ
place = 2 ^ 40

abbrev os : Os Sys
os = record {
  memory = λ s. s.mem;
  copy = λ d bs s.
      if d == place
      then record s { files = update s.files s.scratch (λ i. get_or bs i 0) }
      else record s { mem = write s.mem d bs };
  map_anywhere = λ f n s. some (place, record s { scratch = f });
  map_fixed = λ f a n p s.
      some
        (record s { mem = λ x. if leb a x && ltb x (a + n) then s.files f (x - a) else s.mem x });
  unmap = λ d n s. s;
}

abbrev view : View Sys
view = record {
  holds = λ s f i. s.files f i;
  used = λ s x. x < place;
  idle = λ s f. Unit;
  sole = λ s d f n. (d ≡ place) × (s.scratch ≡ f);
}

unchanged : (f : ℕ) (s s' : Sys) → s'.files ≡ s.files → Keeps view f s s'
unchanged f s s' e = record {
  other_files = λ g i ne. ap (λ (h : ℕ → Mem). h g i) e;
  still_used = λ x u. u;
  still_idle = λ g ne u. u;
}

os-Behaves : Behaves os view
os-Behaves = record {
  anywhere = λ f n s d s' e.
      let both = some-injective _ _ e in
      let at : place ≡ d = ap (λ (p : ℕ × Sys). p.0) both in
      let is : record s { scratch = f } ≡ s' = ap (λ (p : ℕ × Sys). p.1) both in
      (
        rw (← is) (unchanged f s (record s { scratch = f }) refl),
        λ u. (sym at, rw (← is) refl),
        λ x u. (inl (omega (arith, at)), rw (← is) refl),
      );
  copied = λ d f n bs s sole is.
      rw (eq→== d place sole.0, sole.1)
        (
          record {
            other_files =
                λ g i ne. ap (λ (h : Mem). h i) (update_ne s.files f g (λ i. get_or bs i 0) ne);
            still_used = λ x u. u;
            still_idle = λ g ne u. u;
          },
          λ i lt. ap (λ (h : Mem). h i) (update_self s.files f (λ i. get_or bs i 0)),
          λ x out. refl,
        );
  unmapped = λ d n f s. (unchanged f s s refl, λ i. refl, λ x out. refl);
  fixed = λ f a n p s s' e.
      let is = some-injective _ _ e in
      rw (← is) (
        unchanged f s _ refl,
        λ i. refl,
        λ i lt. let at : a + i - a ≡ i = omega arith in ground (arith, ap (s.files f) at),
        λ x out. ground arith,
      );
}

abbrev kernel : Kernel
kernel = record {
  truncates = λ f n. true;
  map_file = λ f a n m. some m;
  map_anonymous = λ a n m. some m;
}

kernel-Succeeds : Succeeds kernel os
kernel-Succeeds = record {
  truncates = λ f n. refl;
  map_anywhere = λ f n s. (_, refl);
  map_fixed = λ f a n p s. (_, refl);
}

-- Addresses from 4096 on, two of them, can be written; those before cannot.
abbrev plain : MemInfo
plain = record {
  base_pc = 0;
  size = 4096;
  prot = record read_write { can_write = false };
  is_free = false;
}

abbrev heap : MemInfo
heap = record { base_pc = 4096; size = 2; prot = read_write; is_free = false }

abbrev dr : Dr
dr = record {
  memory_is_dr_internal = λ a. false;
  memory_is_in_client = λ a. false;
  query_memory = λ pc. if ltb pc 4096 then some plain else if ltb pc 4098 then some heap else none;
}

abbrev started : Space Sys
started = record {
  system = record { mem = λ x. x % 256; files = λ f i. 0; scratch = 0 };
  table = record zero_table { current_table_size = 4 };
  sequence_number = 0;
}

abbrev scanned : Scanned
scanned = record { to_replace = heap ∷ []; table = started.table }

scans : scan 3 dr true 0 (record { to_replace = []; table = started.table }) ≡ some scanned
unfolding scan visit should_replace
scans = refl

answered :
    (pc : ℕ) (info : MemInfo)
    → dr.query_memory pc ≡ some info
    → ((info ≡ plain) × (pc < 4096)) ⊎ ((info ≡ heap) × (pc < 4098))
answered pc info e = elim (Bool-cases (ltb pc 4096)) [
  | inl low ↦ inl (sym (some-injective _ _ (rw low at e)), ltb→lt _ _ low)
  | inr high ↦ elim (Bool-cases (ltb pc 4098)) [
    | inl within ↦ inr (sym (some-injective _ _ (rw (high, within) at e)), ltb→lt _ _ within)
    | inr past ↦ absurd (ground (arith, e))
  ]
]

dr-Answers : Answers dr
unfolding should_replace
dr-Answers = record {
  forward = λ pc info e. elim (answered pc info e) [
    | inl (is, low) ↦ rw is (low, omega arith)
    | inr (is, low) ↦ rw is (low, omega arith)
  ];
  asserted = λ pc info e. elim (answered pc info e) [
    | inl (is, low) ↦ rw is (λ z. ground (arith, z))
    | inr (is, low) ↦ rw is (λ z. ground (arith, z))
  ];
}

scan_ends_example :
    (s' : Scanned) × (scan (2 ^ 64) dr true 0 (record { to_replace = []; table = started.table })
      ≡ some s')
scan_ends_example =
    scan_ends (2 ^ 64) dr 0 (record { to_replace = []; table = started.table }) dr-Answers
      (omega arith) (omega arith)

started-Ready : Ready os view 0 started
started-Ready = record { numbered = refl; counted = refl; free = λ g above. _ }

in_use : (x : ℕ) → InRegions scanned.to_replace x → view.used started.system x
in_use x (inl here) = omega arith
in_use x (inr there) = absurd there

synchronize_lem_example :
    (st' : Space Sys) × (synchronize_address_space 3 dr kernel os started true ≡ some st')
    × Synchronized os view scanned.to_replace started st'
synchronize_lem_example =
    synchronize_lem kernel os view os-Behaves kernel-Succeeds 3 dr started scanned scans
      started-Ready (omega arith) in_use

-- What is left after the synchronization
abbrev value_or : Option (Space Sys) → Space Sys
value_or none = started
value_or (some s) = s

abbrev synchronized : Space Sys
unfolding synchronize_address_space scan visit should_replace replace_all replace_region
    create_pmem_file add_region_record commit_table
synchronized = value_or (synchronize_address_space 3 dr kernel os started true)

abbrev restarted : Sys
unfolding synchronized
restarted = record synchronized.system { mem = λ x. 0 }
