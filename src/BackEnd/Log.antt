-- ===== src/BackEnd/Log.antt =====
-- back-end/back_end.c: what a log of redo and commit records makes of memory, and why a part of it may
-- be applied twice.
use mangosteen_code.Common.{
  ℕ, ◌+◌, ◌≤◌, ◌<◌, ◌≡◌, refl, sym, ◌⊎◌, ◌∙◌, inl, inr, List, [], ◌∷◌, ◌++◌, arith, length, dec_lt,
  dec_le,
}
use mangosteen_code.Memory.{Mem, write, write_outside}
use mangosteen_code.RingBuffer.Size.{LogRecord, redo, map_region, commit}

-- The stores of a log, in order.
unfoldable pub apply_record : LogRecord → Mem → Mem
apply_record (redo addr payload) m = write m addr payload
apply_record (map_region t addr size) m = m
apply_record commit m = m

unfoldable pub apply_log : List LogRecord → Mem → Mem
unfolding apply_record
apply_log [] m = m
apply_log (x ∷ l) m = apply_log l (apply_record x m)

-- Whether a record stores to the address `x`.
abbrev pub Stores : LogRecord → ℕ → Type 0
Stores (redo addr payload) x = (addr ≤ x) × (x < addr + length payload)
Stores _ x = ⊥

pub stores? : (r : LogRecord) (x : ℕ) → (Stores r x) ⊎ (¬ Stores r x)
stores? (redo addr payload) x = elim (dec_le addr x) [
  | no low ↦ inr (λ h. low h.0)
  | yes low ↦ elim (dec_lt x (addr + length payload)) [
    | yes high ↦ inl (low, high)
    | no high ↦ inr (λ h. high h.1)
  ]
]
stores? (map_region t addr size) x = inr (λ h. h)
stores? commit x = inr (λ h. h)

write_inside :
    (m n : Mem) (a x : ℕ) (bs : List ℕ)
    → a ≤ x
    → x < a + length bs
    → write m a bs x ≡ write n a bs x
unfolding write
write_inside m n a x [] h k = absurd (omega arith)
write_inside m n a x (b ∷ bs) h k = ground (arith, write_inside m n (a + 1) x bs)

outside :
    (addr x : ℕ) (payload : List ℕ)
    → ¬ Stores (redo addr payload) x
    → (x < addr) ⊎ (addr + length payload ≤ x)
outside addr x payload h = elim (dec_lt x addr) [
  | yes low ↦ inl low
  | no low ↦ elim (dec_lt x (addr + length payload)) [
    | yes high ↦ absurd (h (omega arith, high))
    | no high ↦ inr (omega arith)
  ]
]

pub apply_record_outside :
    (r : LogRecord) (m : Mem) (x : ℕ) → ¬ Stores r x → apply_record r m x ≡ m x
unfolding apply_record
apply_record_outside (redo addr payload) m x h =
    write_outside m addr x payload (outside addr x payload h)
apply_record_outside (map_region t addr size) m x h = refl
apply_record_outside commit m x h = refl

-- After a record that stores to `x`, or from memories that agree there, the byte at `x` is the same.
pub apply_record_agree :
    (r : LogRecord) (m n : Mem) (x : ℕ)
    → (Stores r x) ⊎ (m x ≡ n x)
    → apply_record r m x ≡ apply_record r n x
unfolding apply_record
apply_record_agree (redo addr payload) m n x (inl h) = write_inside m n addr x payload h.0 h.1
apply_record_agree (redo addr payload) m n x (inr e) = elim (stores? (redo addr payload) x) [
  | inl h ↦ write_inside m n addr x payload h.0 h.1
  | inr h ↦
      apply_record_outside (redo addr payload) m x h
      ∙ e
      ∙ sym (apply_record_outside (redo addr payload) n x h)
]
apply_record_agree (map_region t addr size) m n x (inr e) = e
apply_record_agree commit m n x (inr e) = e
apply_record_agree (map_region t addr size) m n x (inl h) = absurd h
apply_record_agree commit m n x (inl h) = absurd h

pub apply_log_agree :
    (l : List LogRecord) (m n : Mem) (x : ℕ) → m x ≡ n x → apply_log l m x ≡ apply_log l n x
unfolding apply_log
apply_log_agree [] m n x e = e
apply_log_agree (r ∷ l) m n x e =
    apply_log_agree l (apply_record r m) (apply_record r n) x (apply_record_agree r m n x (inr e))

-- A log with a record that stores to `x` leaves the same byte there, whatever memory it starts from.
apply_log_forgets :
    (l : List LogRecord) (r : LogRecord) (rest : List LogRecord) (m n : Mem) (x : ℕ)
    → Stores r x
    → apply_log (l ++ (r ∷ rest)) m x ≡ apply_log (l ++ (r ∷ rest)) n x
unfolding apply_log
apply_log_forgets [] r rest m n x h =
    apply_log_agree rest (apply_record r m) (apply_record r n) x
      (apply_record_agree r m n x (inl h))
apply_log_forgets (y ∷ l) r rest m n x h =
    apply_log_forgets l r rest (apply_record y m) (apply_record y n) x h

-- A record that stands in the log may be applied before it as well.
pub apply_log_twice :
    (l : List LogRecord) (r : LogRecord) (rest : List LogRecord) (m : Mem) (x : ℕ)
    → apply_log (l ++ (r ∷ rest)) (apply_record r m) x ≡ apply_log (l ++ (r ∷ rest)) m x
apply_log_twice l r rest m x = elim (stores? r x) [
  | inl h ↦ apply_log_forgets l r rest (apply_record r m) m x h
  | inr h ↦ apply_log_agree (l ++ (r ∷ rest)) (apply_record r m) m x (apply_record_outside r m x h)
]

-- A log of whole batches: no regions, and the last record is a commit.
abbrev pub IsBatches : List LogRecord → Type 0
IsBatches [] = Unit
IsBatches (redo addr payload ∷ []) = ⊥
IsBatches (redo addr payload ∷ y ∷ l) = IsBatches (y ∷ l)
IsBatches (map_region t addr size ∷ l) = ⊥
IsBatches (commit ∷ l) = IsBatches l
