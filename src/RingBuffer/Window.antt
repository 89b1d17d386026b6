-- ===== src/RingBuffer/Window.antt =====
-- ring_buffer/ring_buffer.c: the slots between two positions of the ring. A position counts the
-- entries since the ring was made, and its slot is the index that the code keeps.
use mangosteen_code.Common.{
  ℕ, zero, suc, ◌+◌, ◌%◌, ◌≤◌, ◌<◌, ◌≡◌, refl, ap, List, [], ◌∷◌, ◌++◌, arith, update,
}
use mangosteen_code.RingBuffer.{Entry, ring_buffer_size, next_index}

unfoldable pub slot : ℕ → ℕ
slot n = n % ring_buffer_size

unfoldable pub window : (ℕ → Entry) → ℕ → ℕ → List Entry
window b start zero = []
window b start (suc n) = b (slot start) ∷ window b (start + 1) n

pub next_index-slot : (n : ℕ) → next_index (slot n) ≡ slot (n + 1)
unfolding next_index slot
next_index-slot n = ground arith

pub slot_lt : (n : ℕ) → slot n < ring_buffer_size
unfolding slot
slot_lt n = omega arith

-- Positions less than a round apart have different slots.
pub slot_injective : (a b : ℕ) → a ≤ b → b < a + ring_buffer_size → slot a ≡ slot b → a ≡ b
unfolding slot
slot_injective a b h k e = omega arith

pub window-update :
    (b : ℕ → Entry) (e : Entry) (start n k : ℕ)
    → start + n ≤ k
    → k < start + ring_buffer_size
    → window (update b (slot k) e) start n ≡ window b start n
unfolding window
window-update b e start zero k h l = refl
window-update b e start (suc n) k h l =
    ground
      (arith, slot_injective start k, window-update b e (start + 1) n k (omega arith) (omega arith))

pub window-suc :
    (b : ℕ → Entry) (start n k : ℕ)
    → start + n ≡ k
    → window b start (suc n) ≡ window b start n ++ (b (slot k) ∷ [])
unfolding window
window-suc b start zero k h = ground arith
window-suc b start (suc n) k h =
    ap (λ t. b (slot start) ∷ t) (window-suc b (start + 1) n k (omega arith))
