-- ===== src/Tests/Restart.antt =====
-- front-end/front_end.c and back-end/back_end.c: launches of two workers.
use mangosteen_code.Common.{ℕ, ◌+◌, ◌≡◌, ◌<◌, inl, refl, arith, ap, true, false, some, none, update}
use mangosteen_code.Memory.{Mem, write}
use mangosteen_code.RingBuffer.{
  zero_ring, zero_entry, redo_of, commit_entry, dequeue, wait_for_entry, next_index,
  commit_dequeued_entries,
}
use mangosteen_code.RegionTable.{zero_table, RegionTable, remap, restore_from, commit_table}
use mangosteen_code.BackEnd.{BackEnd, recover, process_entry, replay, apply_entry, commit_rb_batch}
use mangosteen_code.Launch
use mangosteen_code.Launch.{
  World, Semaphores, FrontOs, launched, joining, serving, absent, WorkerPc,
}
use mangosteen_code.Launch.Restore.{MapsFixed, Shares}
use mangosteen_code.Launch.Recovery.{IsRestored, NoPost}
use mangosteen_code.Launch.Progress.{AllServe, recovery_progress}
use mangosteen_code.Launch.Safety.{serving-IsRestored, joining_clean}
use mangosteen_code.Tests.Replay.{keeping, held}

-- One region of 4096 bytes at 0, in file 0.
abbrev table : RegionTable
table = record zero_table {
  number_of_entries = 1;
  uncommited_number_of_entries = 1;
  entries =
      update zero_table.entries 0
        (record { address = 0; file_index = 0; mmap_size = 4096; entry_commit_index = 1 });
}

-- File 0 is mapped at 0.
abbrev os : FrontOs
os = record { map_fixed = λ file addr size m. some m; file_byte = λ stored file o. stored o }

os-MapsFixed : MapsFixed os
os-MapsFixed file addr size m = (m, refl, λ x out. refl)

os-SharesEntries :
    (stored : Mem) (i o : ℕ)
    → o < (table.entries i).mmap_size
    → os.file_byte stored i o ≡ stored ((table.entries i).address + o)
os-SharesEntries stored i o lt =
    let whole : o ≡ (table.entries i).address + o = ground arith in ap stored whole

abbrev no_semaphores : Semaphores
no_semaphores = record { name = none; value = λ h. 0; next = 0 }

abbrev shared_os : FrontOs
shared_os = record { map_fixed = λ file addr size m. some m; file_byte = held }

-- A launch that finds a block at 64 and its commit in the log
abbrev found : BackEnd
found = record {
  ring = record zero_ring {
    buffer =
        update (update (λ i. zero_entry) 0 (redo_of (λ a. a) 64)) 1
          (record zero_entry { entry_type = commit_entry });
    remote_tail = 2;
    last_persisted_tail = 2;
    commit_metadata = record { number_of_regions = 1; ring_buffer_head = 0 };
  };
  table = table;
  globals = record {
    global_local_head = 0;
    global_local_tail = 2;
    number_of_mmaped_memory_regions = 1;
  };
  mem = λ a. 7;
  sequence_number = 0;
}

abbrev replayed : BackEnd
replayed =
    let r = found.ring in
    let g = found.globals in
    record found {
      ring = record r {
        remote_head = 2;
        last_persisted_head = 2;
        commit_metadata = record { number_of_regions = 1; ring_buffer_head = 2 };
      };
      globals = record g { global_local_head = 2 };
      mem = write (λ a. 7) 64 (redo_of (λ a. a) 64).payload;
    }

found-replayed : recover 3 keeping found ≡ some replayed
unfolding recover remap restore_from replay process_entry dequeue wait_for_entry next_index
    apply_entry commit_rb_batch commit_dequeued_entries commit_table redo_of
found-replayed = refl

replayed_idle : process_entry keeping replayed ≡ none
unfolding process_entry dequeue wait_for_entry
replayed_idle = refl

replayed-Shares : Shares os replayed.table
replayed-Shares stored i o lt inside = os-SharesEntries stored i o inside

recovery_progress_example :
    (w : World) × Launch.Reach false true 2 keeping os
      (launched no_semaphores found (λ a. 0) (λ i. 0) (λ i. false))
      w
    × (w.front_at ≡ joining)
    × AllServe 2 w.worker
recovery_progress_example =
    recovery_progress 2 3 keeping os found replayed no_semaphores (λ a. 0) (λ i. 0) (λ i. false)
      os-MapsFixed replayed-Shares found-replayed

-- A run to the end
whole_run :
    (w : World) × Launch.Reach false true 2 keeping os
      (launched no_semaphores found (λ a. 0) (λ i. 0) (λ i. false))
      w
    × (w.front_at ≡ joining)
    × AllServe 2 w.worker
whole_run =
    recovery_progress 2 3 keeping os found replayed no_semaphores (λ a. 0) (λ i. 0) (λ i. false)
      os-MapsFixed replayed-Shares found-replayed

serving-IsRestored_example :
    (whole_run.0.is_recovering 1 ≡ true)
    × (whole_run.0.back ≡ replayed)
    × IsRestored replayed whole_run.0.memory
serving-IsRestored_example =
    serving-IsRestored true 2 3 keeping os found replayed no_semaphores (λ a. 0) (λ i. 0)
      (λ i. false) os-MapsFixed replayed-Shares found-replayed replayed_idle (inl refl) whole_run.0
      1 whole_run.1 whole_run.3.0

joining_clean_example :
    NoPost whole_run.0.sems × (whole_run.0.back ≡ replayed) × IsRestored replayed whole_run.0.memory
joining_clean_example =
    joining_clean true 2 3 keeping os found replayed no_semaphores (λ a. 0) (λ i. 0) (λ i. false)
      os-MapsFixed replayed-Shares found-replayed replayed_idle (inl refl) whole_run.0 whole_run.1
      whole_run.2
