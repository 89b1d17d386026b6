-- ===== src/Combiner/Durable.antt =====
-- flat_combining/flat_combining.c, `exec_rw_flat_combining`: while no thread executes tasks, all that was
-- executed is in the log.
use mangosteen_code.Common.{
  ℕ, ◌≡◌, refl, Bool, true, false, ℕ_discrete, update_self, update_ne, ◌∙◌, sym, ap,
}
use mangosteen_code.Combiner.{
  Tasks, Pc, executing, Move, submit, see_started, not_started, wait, woken, see_done, not_done,
  leave, lock_busy, lock_writer, collect, skip, scanned, readers_left, drained, execute,
  executed_all, finish, clear, write_unlock, System, pick, Reach, start, later,
}

-- The combiner between the drained readers' set and `instrument_stop`
abbrev pub executes : Pc → Bool
executes (executing left batch) = true
executes _ = false

Move-durable :
    {n me : ℕ} {t t' : Tasks} {p p' : Pc}
    → Move n me t p t' p'
    → executes p' ≡ false
    → (executes p ≡ false → (j : ℕ) → t.logged j ≡ t.executed j)
    → (j : ℕ) → t'.logged j ≡ t'.executed j
Move-durable submit quiet h j = h refl j
Move-durable (see_started e) quiet h j = h refl j
Move-durable (not_started e) quiet h j = h refl j
Move-durable (wait e) quiet h j = h refl j
Move-durable (woken e) quiet h j = h refl j
Move-durable (see_done e) quiet h j = h refl j
Move-durable (not_done e) quiet h j = h refl j
Move-durable leave quiet h j = h refl j
Move-durable (lock_busy e) quiet h j = h refl j
Move-durable (lock_writer e) quiet h j = h refl j
Move-durable (collect e r) quiet h j = h refl j
Move-durable (skip e r) quiet h j = h refl j
Move-durable (scanned e) quiet h j = h refl j
Move-durable readers_left quiet h j = h refl j
Move-durable drained quiet h j = absurd (cc)
Move-durable execute quiet h j = absurd (cc)
Move-durable executed_all quiet h j = refl
Move-durable finish quiet h j = h refl j
Move-durable clear quiet h j = h refl j
Move-durable write_unlock quiet h j = h refl j

-- While no thread executes tasks, every execution is in the log.
pub logged_all :
    {n : ℕ} {s : System}
    → Reach n s
    → ((w : ℕ) → executes (s.pc w) ≡ false)
    → (j : ℕ) → s.tasks.logged j ≡ s.tasks.executed j
logged_all start quiet = λ j. refl
logged_all (later {s} r (pick me {p = p} lt mv)) quiet =
    Move-durable mv (ap executes (sym (update_self s.pc me p)) ∙ quiet me) (λ before.
      logged_all r (λ w. elim (ℕ_discrete w me) [
        | yes same ↦ ap (λ v. executes (s.pc v)) same ∙ before
        | no other ↦ ap executes (sym (update_ne s.pc me w p other)) ∙ quiet w
      ]))
