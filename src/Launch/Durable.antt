-- ===== src/Launch/Durable.antt =====
-- The whole path: a transaction of the front end, a crash, and the launch that recovers from it.
use mangosteen_code.Common.{ℕ, ◌<◌, ◌≡◌, Bool, true, false, some, none}
use mangosteen_code.Memory.{Mem}
use mangosteen_code.RingBuffer.{RingBuffer}
use mangosteen_code.RingBuffer.Fifo.{Reach}
use mangosteen_code.RegionTable.{Kernel, InRegion}
use mangosteen_code.BackEnd.{BackEnd, recover, process_entry}
use mangosteen_code.Launch
use mangosteen_code.Launch.{World, Semaphores, FrontOs, launched, joining}
use mangosteen_code.Launch.Restore.{MapsFixed, Shares}
use mangosteen_code.Launch.Recovery.{NoPost}
use mangosteen_code.Launch.Safety.{joining_clean}
use mangosteen_code.Launch.Progress.{AllServe, recovery_progress}

-- A launch after a crash, from what the crash left to the event loops of all workers, with the memory
-- that it shows
record Restarted (n : ℕ) (k : Kernel) (os : FrontOs) (sems : Semaphores) (memory : Mem)
    (ready : ℕ → ℕ) (flags : ℕ → Bool) (opened goal : BackEnd) : Type 0 where
  w : World
  reach : Launch.Reach false true n k os (launched sems opened memory ready flags) w
  at : w.front_at ≡ joining
  serve : AllServe n w.worker
  clean : NoPost w.sems
  shows :
      (i x : ℕ)
      → i < goal.table.number_of_entries
      → InRegion (goal.table.entries i) x
      → w.memory x ≡ goal.mem x

restarted :
    (n fuel : ℕ) (k : Kernel) (os : FrontOs) (sems : Semaphores) (memory : Mem) (ready : ℕ → ℕ)
    (flags : ℕ → Bool) (opened goal : BackEnd)
    → MapsFixed os
    → Shares os goal.table
    → recover fuel k opened ≡ some goal
    → process_entry k goal ≡ none
    → NoPost sems
    → Restarted n k os sems memory ready flags opened goal
restarted n fuel k os sems memory ready flags opened goal maps shares' recovers stuck clean =
    let (w, reach, at, serve) =
      recovery_progress n fuel k os opened goal sems memory ready flags maps shares' recovers in
    let (clean', same, shown) =
      joining_clean true n fuel k os opened goal sems memory ready flags maps shares' recovers stuck
        clean w reach at in
    record { w = w; reach = reach; at = at; serve = serve; clean = clean'; shows = shown }
