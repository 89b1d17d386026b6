-- ===== src/Tests/Replay.antt =====
-- back-end/back_end.c on a log of one batch.
use mangosteen_code.Common.{
  ℕ, ◌+◌, ◌-◌, ◌<◌, ◌≤◌, ◌≡◌, ◌⊎◌, refl, arith, some, none, true, update, ◌>>=◌, leb, ltb, ◌&&◌,
  if◌then◌else◌,
}
use mangosteen_code.RingBuffer.{Entry, zero_ring, zero_entry, redo_of, commit_entry}
use mangosteen_code.RingBuffer.Size.{decode}
use mangosteen_code.RingBuffer.Window.{slot, window}
use mangosteen_code.RegionTable.{Kernel, Files, RegionTable, InRegion, zero_table}
use mangosteen_code.RegionTable.Remap.{MapsFiles}
use mangosteen_code.Memory.{Mem}
use mangosteen_code.BackEnd.{BackEnd, run_consumer, recover, reopen, replay, process_entry}
use mangosteen_code.BackEnd.Log.{apply_log}
use mangosteen_code.BackEnd.Replay.{records, At, replay_from}
use mangosteen_code.BackEnd.Crash.{Restart, Serves, crash_recovery}

-- A mapping shows the bytes that are there.
abbrev pub keeping : Kernel
keeping = record {
  truncates = λ file size. true;
  map_file = λ file addr size m. some m;
  map_anonymous = λ addr size m. some m;
}

-- The regions are 4096 bytes at 0 and at 8192, in the files 0 and 1.
abbrev pub two_regions : RegionTable
two_regions = record zero_table {
  current_table_size = 65536;
  number_of_entries = 2;
  uncommited_number_of_entries = 2;
  entries =
      update
        (update zero_table.entries 0
          (record { address = 0; file_index = 0; mmap_size = 4096; entry_commit_index = 1 }))
        1 (record { address = 8192; file_index = 1; mmap_size = 4096; entry_commit_index = 1 });
}

-- Memory with a file's bytes in a region
abbrev shown : (bytes : ℕ → ℕ) (start size : ℕ) (m : Mem) → Mem
shown bytes start size m x = if leb start x && ltb x (start + size) then bytes (x - start) else m x

-- A mapping shows the bytes of the file.
abbrev pub mapping : Files → Kernel
mapping files = record keeping {
  map_file = λ file addr size m. some (shown (files file) addr size m);
}

-- What the files hold: each the bytes of its region
abbrev pub held : Mem → Files
held stored file o = stored ((two_regions.entries file).address + o)

abbrev pub restart : Restart
restart = record { os = mapping; held = held; past = λ r. r }

shown_inside :
    (bytes : ℕ → ℕ) (start size : ℕ) (m : Mem) (o : ℕ)
    → o < size
    → shown bytes start size m (start + o) ≡ bytes o
shown_inside bytes start size m o small =
    let at : start + o - start ≡ o = omega arith in rw at (ground arith)

shown_outside :
    (bytes : ℕ → ℕ) (start size : ℕ) (m : Mem) (x : ℕ)
    → (x < start) ⊎ (start + size ≤ x)
    → shown bytes start size m x ≡ m x
shown_outside bytes start size m x out = ground arith

pub mapping-MapsFiles : MapsFiles mapping two_regions.entries 2
mapping-MapsFiles files i m lt =
    let e = two_regions.entries i in
    (
      shown (files i) e.address e.mmap_size m,
      refl,
      shown_inside (files i) e.address e.mmap_size m,
      shown_outside (files i) e.address e.mmap_size m,
    )

pub restart-Serves : Serves restart two_regions.entries 2
restart-Serves = record {
  maps = mapping-MapsFiles;
  shares = λ stored i o lt inside. refl;
  keeps = λ r. (refl, refl);
  low = omega arith;
}

-- A block at 64, and its commit.
abbrev slots : ℕ → Entry
slots =
    update (update (λ i. zero_entry) 0 (redo_of (λ a. a) 64)) 1
      (record zero_entry { entry_type = commit_entry })

abbrev waiting : BackEnd
waiting = record {
  ring = record zero_ring {
    buffer = slots;
    remote_tail = 2;
    last_persisted_tail = 2;
    commit_metadata = record { number_of_regions = 2; ring_buffer_head = 0 };
  };
  table = two_regions;
  globals = record {
    global_local_head = 0;
    global_local_tail = 0;
    number_of_mmaped_memory_regions = 0;
  };
  mem = λ a. 7;
  sequence_number = 0;
}

waiting-At : At slots 2 0 0 waiting
unfolding slot
waiting-At = record {
  buffer = refl;
  head = refl;
  known = 0;
  tail = refl;
  persisted = refl;
  remote = refl;
  published = refl;
  q-le = omega arith;
  p-le = omega arith;
  known-le = omega arith;
  fits = omega arith;
  low = 0;
  persisted_head = refl;
  low-le = omega arith;
  fits_low = omega arith;
}

-- A crash between the block and its commit.
crash_recovery_example :
    (crashed : BackEnd) × (recovered : BackEnd) × (run_consumer 1 keeping waiting ≡ some crashed)
    × ((reopen 4096 (λ r. r) (λ a. 99) crashed >>= recover 3 (mapping (held crashed.mem)))
        ≡ some recovered)
    × (recovered.ring.remote_head ≡ recovered.ring.remote_tail)
    × (process_entry (mapping (held crashed.mem)) recovered ≡ none)
    × (recovered.table.entries ≡ waiting.table.entries)
    × (recovered.table.number_of_entries ≡ 2)
    × ((i x : ℕ)
        → i < 2
        → InRegion (two_regions.entries i) x
        → recovered.mem x ≡ apply_log (records slots 0 2) waiting.mem x)
unfolding window decode slot redo_of
crash_recovery_example =
    crash_recovery keeping restart (λ a. 99) 1 2 3 4096 2 restart-Serves
      (record { committed = refl; uncommitted = refl; listed = refl }) waiting-At refl (record {})
      (omega arith) (omega arith)

replay_from_example :
    (after : BackEnd) × (replay 3 keeping waiting ≡ some after)
    × (after.ring.remote_head ≡ after.ring.remote_tail)
    × (after.mem ≡ apply_log (records slots 0 2) waiting.mem)
unfolding window decode slot redo_of
replay_from_example =
    replay_from 2 3 keeping waiting-At refl (λ e. omega arith) (record {}) (omega arith)
