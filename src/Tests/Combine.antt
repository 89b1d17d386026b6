-- ===== src/Tests/Combine.antt =====
-- flat_combining/flat_combining.c, `exec_rw_flat_combining`, with two threads: thread 0 submits a task,
-- becomes the combiner and executes it.
use mangosteen_code.Common.{ℕ, ◌<◌, ◌≤◌, ◌≡◌, refl, arith, update, [], ◌∷◌, length, All}
use mangosteen_code.Combiner.{
  Tasks, Pc, outside, looping, testing, trying, collecting, checking, executing, finishing,
  releasing, submit, not_started, not_done, lock_writer, collect, skip, scanned, drained, execute,
  executed_all, finish, clear, write_unlock, System, pick, initial, Reach, start, later,
  ready_to_execute, started, done, no_task,
}
use mangosteen_code.Combiner.Invariant.{pending, count}
use mangosteen_code.Combiner.Logged.{logged_before_return}
use mangosteen_code.Combiner.Batch.{batch_bounded}

abbrev next : System → Tasks → Pc → System
next s t p = record { tasks = t; pc = update s.pc 0 p }

abbrev submitted : System
submitted =
    let t = initial.tasks in
    next initial
      (record t { ready = update t.ready 0 ready_to_execute; submitted = update t.submitted 0 1 })
      looping

submitted-Reach : Reach 2 submitted
submitted-Reach = later start (pick 0 (omega arith) submit)

abbrev locked : System
locked =
    let t = submitted.tasks in
    next (next (next submitted t testing) t trying) (record t { writers = 1 }) (collecting 0 [])

locked-Reach : Reach 2 locked
locked-Reach =
    later
      (later (later submitted-Reach (pick 0 (omega arith) (not_started (λ e. omega arith))))
        (pick 0 (omega arith) (not_done (λ e. omega arith))))
      (pick 0 (omega arith) (lock_writer refl))

abbrev collected : System
collected =
    let t = locked.tasks in
    let t' = record t { ready = update t.ready 0 started } in
    next
      (next (next (next locked t' (collecting 1 (0 ∷ []))) t' (collecting 2 (0 ∷ []))) t'
        (checking (0 ∷ [])))
      t' (executing (0 ∷ []) (0 ∷ []))

collected-Reach : Reach 2 collected
collected-Reach =
    later
      (later
        (later (later locked-Reach (pick 0 (omega arith) (collect (omega arith) refl)))
          (pick 0 (omega arith) (skip (omega arith) (λ e. omega arith))))
        (pick 0 (omega arith) (scanned refl)))
      (pick 0 (omega arith) drained)

abbrev returned : System
returned =
    let t = collected.tasks in
    let e = record t { executed = update t.executed 0 1 } in
    let l = record e { logged = e.executed } in
    let f = record l { ready = update l.ready 0 done } in
    let g = record f { ready = update f.ready 0 no_task } in
    next
      (next
        (next (next (next collected e (executing [] (0 ∷ []))) l (finishing (0 ∷ []))) f
          (finishing []))
        g releasing)
      (record g { writers = 0 }) outside

returned-Reach : Reach 2 returned
returned-Reach =
    later
      (later
        (later
          (later (later collected-Reach (pick 0 (omega arith) execute))
            (pick 0 (omega arith) executed_all))
          (pick 0 (omega arith) finish))
        (pick 0 (omega arith) clear))
      (pick 0 (omega arith) write_unlock)

logged_before_return_example :
    (returned.tasks.executed 0 ≡ returned.tasks.submitted 0)
    × (returned.tasks.logged 0 ≡ returned.tasks.submitted 0)
logged_before_return_example = logged_before_return returned-Reach 0 refl

batch_bounded_example :
    (length (pending (collected.pc 0)) ≤ 2)
    × All (λ x. x < 2) (pending (collected.pc 0))
    × ((j : ℕ) → count j (pending (collected.pc 0)) ≤ 1)
batch_bounded_example = batch_bounded collected-Reach 0 refl
