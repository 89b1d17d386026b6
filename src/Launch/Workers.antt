-- ===== src/Launch/Workers.antt =====
-- flat_combining/flat_combining.c and front-end/front_end.c: the workers of a launch that recovers.
use mangosteen_code.Common.{
  ℕ, ◌+◌, ◌<◌, ◌≡◌, ◌≢◌, refl, sym, ◌∙◌, Bool, true, Option, arith, update, update_self, update_ne,
  ℕ_discrete,
}
use mangosteen_code.Memory.{Mem}
use mangosteen_code.BackEnd.{BackEnd}
use mangosteen_code.Launch.{
  FrontPc, front_entering, front_opened, restoring, restored, front_posting, starting, flagging,
  releasing, starting_new, joining, WorkerPc, absent, polling, serving, none_ready,
  ready_to_intialise,
}
use mangosteen_code.Launch.Recovery.{IsRestored, waits, FrontStands, Quiet}

pub Quiet-created :
    (worker : ℕ → WorkerPc) (ready : ℕ → ℕ) (i : ℕ)
    → Quiet worker ready
    → Quiet (update worker i polling) (update ready i none_ready)
Quiet-created worker ready i h j here = elim (ℕ_discrete j i) [
  | yes same ↦ rw same (update_self ready i none_ready)
  | no other ↦
      update_ne ready i j none_ready other
      ∙ h j (λ z. here (update_ne worker i j polling other ∙ z))
]

pub created_bounded :
    (worker : ℕ → WorkerPc) (n i : ℕ) (pc : WorkerPc)
    → i < n
    → ((j : ℕ) → worker j ≢ absent → j < n)
    → (j : ℕ) → update worker i pc j ≢ absent
    → j < n
created_bounded worker n i pc lt h j here = elim (ℕ_discrete j i) [
  | yes same ↦ omega arith
  | no other ↦ h j (λ z. here (update_ne worker i j pc other ∙ z))
]

pub created_not_serving :
    (worker : ℕ → WorkerPc) (i j : ℕ) → update worker i polling j ≡ serving → worker j ≡ serving
created_not_serving worker i j e = elim (ℕ_discrete j i) [
  | yes same ↦
      let polls : update worker i polling j ≡ polling = rw same (update_self worker i polling) in
      absurd (cc)
  | no other ↦ sym (update_ne worker i j polling other) ∙ e
]

pub flag_kept : (flags : ℕ → Bool) (i j : ℕ) → flags j ≡ true → update flags i true j ≡ true
flag_kept flags i j e = elim (ℕ_discrete j i) [
  | yes same ↦ rw same (update_self flags i true)
  | no other ↦ update_ne flags i j true other ∙ e
]

pub flagged_next :
    (flags : ℕ → Bool) (i : ℕ)
    → ((j : ℕ) → j < i → flags j ≡ true)
    → (j : ℕ) → j < i + 1
    → update flags i true j ≡ true
flagged_next flags i h j lt = elim (ℕ_discrete j i) [
  | yes same ↦ rw same (update_self flags i true)
  | no other ↦ flag_kept flags i j (h j (omega arith))
]

pub polls_absent : {pc : WorkerPc} → pc ≡ absent → pc ≢ polling
polls_absent gone polls = (cc)

pub serves_absent : {pc : WorkerPc} → pc ≡ absent → pc ≢ serving
serves_absent gone serves = (cc)

-- Who is released: the front end is past the flags.
pub released :
    (goal : BackEnd) (name : Option ℕ) (worker : ℕ → WorkerPc) (ready : ℕ → ℕ) (flags : ℕ → Bool)
    (m : Mem) (pc : FrontPc) (i : ℕ)
    → FrontStands goal name worker ready flags m pc
    → worker i ≡ polling
    → ready i ≡ ready_to_intialise
    → (flags i ≡ true) × (waits pc ≡ 1) × IsRestored goal m
released goal name worker ready flags m front_entering i h p r = absurd (polls_absent (h i) p)
released goal name worker ready flags m (front_opened s) i h p r = absurd (polls_absent (h.1 i) p)
released goal name worker ready flags m restoring i h p r = absurd (polls_absent (h i) p)
released goal name worker ready flags m restored i h p r = absurd (polls_absent (h.0 i) p)
released goal name worker ready flags m (front_posting s) i h p r = absurd h
released goal name worker ready flags m (starting j) i h p r =
    absurd (omega (arith, h.0 i (λ z. (cc))))
released goal name worker ready flags m (flagging j) i h p r =
    absurd (omega (arith, h.0 i (λ z. (cc))))
released goal name worker ready flags m (releasing j) i h p r = (h.0 i (λ z. (cc)), refl, h.1)
released goal name worker ready flags m (starting_new s j) i h p r = absurd h
released goal name worker ready flags m joining i h p r = (h.0 i (λ z. (cc)), refl, h.1)

-- A worker that goes on to serve was there already.
pub serving_here :
    (worker : ℕ → WorkerPc) (i j : ℕ)
    → worker i ≡ polling
    → update worker i serving j ≢ absent
    → worker j ≢ absent
serving_here worker i j polls here gone = elim (ℕ_discrete j i) [
  | yes same ↦ polls_absent (rw same at gone) polls
  | no other ↦ here (update_ne worker i j serving other ∙ gone)
]

pub front_serving :
    (goal : BackEnd) (name : Option ℕ) (worker : ℕ → WorkerPc) (ready : ℕ → ℕ) (flags : ℕ → Bool)
    (m : Mem) (pc : FrontPc) (i : ℕ)
    → worker i ≡ polling
    → FrontStands goal name worker ready flags m pc
    → FrontStands goal name (update worker i serving) ready flags m pc
front_serving goal name worker ready flags m front_entering i p h = absurd (polls_absent (h i) p)
front_serving goal name worker ready flags m (front_opened s) i p h =
    absurd (polls_absent (h.1 i) p)
front_serving goal name worker ready flags m restoring i p h = absurd (polls_absent (h i) p)
front_serving goal name worker ready flags m restored i p h = absurd (polls_absent (h.0 i) p)
front_serving goal name worker ready flags m (front_posting s) i p h = h
front_serving goal name worker ready flags m (starting j) i p h =
    (λ l here. h.0 l (serving_here worker i l p here), h.1)
front_serving goal name worker ready flags m (flagging j) i p h =
    (λ l here. h.0 l (serving_here worker i l p here), h.1, h.2)
front_serving goal name worker ready flags m (releasing j) i p h =
    (λ l here. h.0 l (serving_here worker i l p here), h.1)
front_serving goal name worker ready flags m (starting_new s j) i p h = h
front_serving goal name worker ready flags m joining i p h =
    (λ l here. h.0 l (serving_here worker i l p here), h.1)
