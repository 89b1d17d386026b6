-- ===== src/Tests/Requests.antt =====
-- flat_combining/flat_combining.c: thread 1 reads while thread 0, with an update, has won the flag.
use mangosteen_code.Common.{ℕ, ◌≡◌, refl, arith, true, false, update, []}
use mangosteen_code.SpinLock
use mangosteen_code.SpinLock.{Lock, marked, reading, scanning, mark, admit}
use mangosteen_code.Combiner
use mangosteen_code.Combiner.{
  Tasks, looping, testing, trying, collecting, submit, not_started, not_done, ready_to_execute,
}
use mangosteen_code.Combiner.Durable.{executes}
use mangosteen_code.Dispatch.{System, Reach, start, later, reads, works, locks, first}
use mangosteen_code.Dispatch.Reads.{reading-logged}

-- Thread 1 enters before thread 0 comes with its task.
abbrev entered : System
entered = record first {
  readers = update (λ i. false) 1 true;
  at_lock = update (update (λ i. SpinLock.Pc.outside) 1 marked) 1 reading;
}

entered-Reach : Reach 2 entered
entered-Reach =
    later (later start (reads 1 (omega arith) refl refl mark refl))
      (reads 1 (omega arith) refl refl (admit refl) refl)

abbrev submitted : System
submitted =
    let t = first.tasks in
    record entered {
      tasks = record t {
        ready = update t.ready 0 ready_to_execute;
        submitted = update t.submitted 0 1;
      };
      pc = update (update (update (λ i. Combiner.Pc.outside) 0 looping) 0 testing) 0 trying;
    }

submitted-Reach : Reach 2 submitted
submitted-Reach =
    later
      (later (later entered-Reach (works 0 (omega arith) (λ e. refl) submit refl refl))
        (works 0 (omega arith) (λ e. absurd (cc)) (not_started (λ e. omega arith)) refl refl))
      (works 0 (omega arith) (λ e. absurd (cc)) (not_done (λ e. omega arith)) refl refl)

abbrev won : System
won =
    let t = submitted.tasks in
    record submitted {
      tasks = record t { writers = 1 };
      pc = update submitted.pc 0 (collecting 0 []);
      at_lock = update submitted.at_lock 0 (scanning 0);
    }

reading-logged_example :
    ((w : ℕ) → executes (won.pc w) ≡ false) × ((i : ℕ) → won.tasks.logged i ≡ won.tasks.executed i)
reading-logged_example =
    reading-logged (later submitted-Reach (locks 0 (omega arith) refl refl refl)) 1 (omega arith)
      refl
