-- ===== src/Memory.antt =====
-- The memory of a process: bytes by address, with the C library's block copies that
-- flat_combining, instrumentation and back-end make. Addresses do not wrap: no block of a process
-- reaches the end of its address space.
use mangosteen_code.Common.{
  ℕ, zero, suc, ◌+◌, ◌≤◌, ◌<◌, ◌≡◌, refl, ap, ◌⊎◌, List, [], ◌∷◌, arith, get_or, ◌∙◌, leb, ltb,
  ◌&&◌, if◌then◌else◌, update, update_ne, length,
}

abbrev pub Mem : Type 0
Mem = ℕ → ℕ

-- The `n` bytes from `a` on.
unfoldable pub read : Mem → ℕ → ℕ → List ℕ
read m a zero = []
read m a (suc n) = m a ∷ read m (a + 1) n

-- `memcpy` of the bytes `bs` to `a`.
unfoldable pub write : Mem → ℕ → List ℕ → Mem
write m a [] = m
write m a (b ∷ bs) = update (write m (a + 1) bs) a b

pub length-read : (m : Mem) (a n : ℕ) → length (read m a n) ≡ n
unfolding read
length-read m a zero = refl
length-read m a (suc n) = ap suc (length-read m (a + 1) n)

pub write-read :
    (m src : Mem) (a n x : ℕ)
    → write m a (read src a n) x ≡ (if leb a x && ltb x (a + n) then src x else m x)
unfolding write read
write-read m src a zero x = ground arith
write-read m src a (suc n) x = ground (arith, write-read m src (a + 1) n x)

pub write_outside :
    (m : Mem) (a x : ℕ) (bs : List ℕ) → (x < a) ⊎ (a + length bs ≤ x) → write m a bs x ≡ m x
unfolding write
write_outside m a x [] h = refl
write_outside m a x (b ∷ bs) h = ground (arith, write_outside m (a + 1) x bs)

pub get_or-read : (m : Mem) (a n i : ℕ) → i < n → get_or (read m a n) i 0 ≡ m (a + i)
unfolding read
get_or-read m a zero i lt = absurd (omega arith)
get_or-read m a (suc n) zero lt = let at : a ≡ a + 0 = omega arith in ap m at
get_or-read m a (suc n) (suc i) lt =
    let at : a + 1 + i ≡ a + suc i = omega arith in
    get_or-read m (a + 1) n i (omega arith) ∙ ap m at

pub write_inside :
    (m : Mem) (a : ℕ) (bs : List ℕ) (i : ℕ) → i < length bs → write m a bs (a + i) ≡ get_or bs i 0
unfolding write
write_inside m a [] i lt = absurd (omega arith)
write_inside m a (b ∷ bs) zero lt = ground arith
write_inside m a (b ∷ bs) (suc i) lt =
    let at : a + suc i ≡ a + 1 + i = omega arith in
    update_ne (write m (a + 1) bs) a (a + suc i) b (λ z. omega arith)
    ∙ ap (write m (a + 1) bs) at
    ∙ write_inside m (a + 1) bs i (omega arith)
