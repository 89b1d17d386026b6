-- ===== src/Connection/Write.antt =====
-- flat_combining/flat_combining.c, `do_event` on a client that is written to: the response over any
-- number of partial sends.
use mathlib.Core.List.{append_assoc}
use mangosteen_code.Common.{
  ℕ, zero, suc, ◌+◌, ◌-◌, ◌≤◌, ◌<◌, ◌≡◌, refl, sym, ap, ◌∙◌, List, [], ◌∷◌, ◌++◌, some, arith,
  length, take, drop, ◌⊎◌, Bool-cases, inl, inr, >>=-eq-some, true, false, ==→eq, ==→ne, ◌==◌,
}
use mangosteen_code.Connection.{
  Client, reading, writing, ended, Sent, took, blocked, broken, nothing, Written, write_loop,
  after_writing, do_write, event_in, do_event, Received,
}

-- `send` takes between one and all of the bytes that it is offered.
abbrev pub Fits : ℕ → List Sent → Type 0
Fits left [] = Unit
Fits left (took n ∷ script) = (0 < n) × (n ≤ left) × Fits (left - n) script
Fits left (_ ∷ script) = Unit

take-drop {ℓ} : {A : Type ℓ} (n : ℕ) (xs : List A) → take n xs ++ drop n xs ≡ xs
take-drop zero xs = refl
take-drop (suc n) [] = refl
take-drop (suc n) (x ∷ xs) = ap (λ l. x ∷ l) (take-drop n xs)

drop-none {ℓ} : {A : Type ℓ} (n : ℕ) → drop {A = A} n [] ≡ []
drop-none zero = refl
drop-none (suc n) = refl

drop-drop {ℓ} : {A : Type ℓ} (n k : ℕ) (xs : List A) → drop n (drop k xs) ≡ drop (k + n) xs
drop-drop n zero xs = let q : n ≡ 0 + n = omega arith in ap (λ z. drop z xs) q
drop-drop n (suc k) [] = drop-none n ∙ sym (drop-none (suc k + n))
drop-drop n (suc k) (x ∷ xs) =
    let q : suc (k + n) ≡ suc k + n = omega arith in drop-drop n k xs ∙ ap (λ z. drop z (x ∷ xs)) q

-- The bytes of a response that are still to be sent.
abbrev pub unsent : Client → List ℕ
unsent c = drop (c.response_len - c.left) c.response

write_loop-output :
    (script : List Sent) (response : List ℕ) (len left : ℕ) {w : Written}
    → left ≤ len
    → Fits left script
    → write_loop script response len left ≡ some w
    → (w.output ++ drop (len - w.still_left) response ≡ drop (len - left) response)
      × (w.still_left ≤ left)
unfolding write_loop
write_loop-output script response len zero {w} le fits e =
    let p : record { still_left = 0; lost = false; output = [] } ≡ w = cc in
    rw (← p) (refl, omega arith)
write_loop-output [] response len (suc left) le fits e = absurd (ground arith)
write_loop-output (took n ∷ script) response len (suc left) {w} le fits e =
    let (v, ran, last) = >>=-eq-some (write_loop script response len (suc left - n)) _ e in
    let p : record v { output = take n (drop (len - suc left) response) ++ v.output } ≡ w = cc in
    let (same, less) =
      write_loop-output script response len (suc left - n) (omega arith) fits.2 ran in
    rw (← p) (
      append_assoc (take n (drop (len - suc left) response)) v.output
            (drop (len - v.still_left) response)
          ∙ ap (λ l. take n (drop (len - suc left) response) ++ l)
              (same
                ∙ ap (λ z. drop z response) (omega (arith, fits.1))
                ∙ sym (drop-drop n (len - suc left) response))
          ∙ take-drop n (drop (len - suc left) response),
      omega arith,
    )
write_loop-output (blocked ∷ script) response len (suc left) {w} le fits e =
    let p : record { still_left = suc left; lost = false; output = [] } ≡ w = cc in
    rw (← p) (refl, omega arith)
write_loop-output (broken ∷ script) response len (suc left) {w} le fits e =
    let p : record { still_left = suc left; lost = true; output = [] } ≡ w = cc in
    rw (← p) (refl, omega arith)
write_loop-output (nothing ∷ script) response len (suc left) {w} le fits e =
    let p : record { still_left = suc left; lost = true; output = [] } ≡ w = cc in
    rw (← p) (refl, omega arith)

drop-length {ℓ} : {A : Type ℓ} (xs : List A) → drop (length xs) xs ≡ []
drop-length [] = refl
drop-length (x ∷ xs) = drop-length xs

-- What an event leaves to be sent, by the client's new state.
pub record Progress (c c' : Client) (output : List ℕ) : Type 0 where
  pub rest : List ℕ
  pub split : output ++ rest ≡ unsent c
  pub outcome :
      (c'.status ≡ ended)
      ⊎ ((c'.status ≡ reading) × (rest ≡ []))
      ⊎ ((c'.status ≡ writing) × (rest ≡ unsent c') × (c'.left ≤ c.left) × (0 < c'.left))

after_writing-Progress :
    (c : Client) (w : Written)
    → c.status ≡ writing
    → c.response_len ≡ length c.response
    → w.output ++ drop (c.response_len - w.still_left) c.response ≡ unsent c
    → w.still_left ≤ c.left
    → Progress c (after_writing c w) w.output
after_writing-Progress c w at full same less = elim (Bool-cases w.lost) [
  | inl lost ↦ rw lost (record {
    rest = drop (c.response_len - w.still_left) c.response;
    split = same;
    outcome = inl refl;
  })
  | inr kept ↦ elim (Bool-cases (w.still_left == 0)) [
    | inl done ↦
        rw (kept, done)
          (record {
            rest = drop (c.response_len - w.still_left) c.response;
            split = same;
            outcome = inr (
                inl (
                  refl,
                  let q : c.response_len - w.still_left ≡ length c.response =
                        omega (arith, full, ==→eq _ _ done) in
                      ap (λ z. drop z c.response) q ∙ drop-length c.response,
                ));
          })
    | inr more ↦
        rw (kept, more)
          (record {
            rest = drop (c.response_len - w.still_left) c.response;
            split = same;
            outcome = inr (inr (at, refl, less, omega (arith, ==→ne _ _ more)));
          })
  ]
]

-- One event on a client that is written to, with a `send` that takes no more than it is offered: the
-- bytes sent, followed by some rest, are those that were to be sent. If the client goes back to reading
-- the rest is empty, and if it is still written to the rest is what it has left to send.
pub do_event-Progress :
    (serve : List ℕ → List ℕ) (ins : List Received) (script : List Sent) (c : Client) {c' : Client}
    {output : List ℕ}
    → c.status ≡ writing
    → c.left ≤ c.response_len
    → c.response_len ≡ length c.response
    → Fits c.left script
    → do_event serve ins script c ≡ some (c', output)
    → Progress c c' output
unfolding do_event do_write
do_event-Progress serve ins script c {c'} {output} at le full fits e =
    let e' = sym (ap (λ status. event_in status serve ins script c) at) ∙ e in
    let (w, ran, last) =
      >>=-eq-some (write_loop script c.response c.response_len c.left)
        (λ w. some (after_writing c w, w.output)) e' in
    let (same, less) = write_loop-output script c.response c.response_len c.left le fits ran in
    let pair : Client × List ℕ = (after_writing c w, w.output) in
    let p : pair ≡ (c', output) = cc in
    rw (ap (λ x. x.0) (sym p), ap (λ x. x.1) (sym p)) (after_writing-Progress c w at full same less)
