-- ===== src/RingBuffer/Spin.antt =====
-- ring_buffer/ring_buffer.c: the three spin loops, over an index that no other process changes.
use mangosteen_code.Common.{ℕ, zero, suc, ◌≡◌, refl, ◌≢◌, ◌⊎◌, none, some, arith}
use mangosteen_code.RingBuffer.{wait_for_space, wait_for_entry, spin_fuel}

-- More rounds than two change nothing: after one the local copy is the shared index.
pub wait_for_space-add_fuel :
    (fuel shared next head : ℕ)
    → wait_for_space (suc (suc fuel)) shared next head ≡ wait_for_space spin_fuel shared next head
unfolding wait_for_space
wait_for_space-add_fuel zero shared next head = ground arith
wait_for_space-add_fuel (suc fuel) shared next head =
    ground (arith, wait_for_space-add_fuel fuel shared next shared)

pub wait_for_space-some :
    (shared next head : ℕ) {found : ℕ}
    → wait_for_space spin_fuel shared next head ≡ some found
    → (next ≢ found) × ((found ≡ head) ⊎ (found ≡ shared))
unfolding wait_for_space
wait_for_space-some shared next head h = ground arith

pub wait_for_space_free :
    (shared next head : ℕ) → next ≢ head → wait_for_space spin_fuel shared next head ≡ some head
unfolding wait_for_space
wait_for_space_free shared next head h = ground arith

pub wait_for_space_moved :
    (shared next head : ℕ)
    → next ≡ head
    → next ≢ shared
    → wait_for_space spin_fuel shared next head ≡ some shared
unfolding wait_for_space
wait_for_space_moved shared next head h k = ground arith

-- The loop never ends while the shared index is the one that it waits to move.
pub wait_for_space_stuck :
    (fuel shared next head : ℕ)
    → next ≡ head
    → next ≡ shared
    → wait_for_space fuel shared next head ≡ none
unfolding wait_for_space
wait_for_space_stuck zero shared next head h k = refl
wait_for_space_stuck (suc fuel) shared next head h k =
    ground (arith, wait_for_space_stuck fuel shared next shared k k)

pub wait_for_entry-some :
    (shared head tail : ℕ) {found : ℕ}
    → wait_for_entry spin_fuel shared head tail ≡ some found
    → (head ≢ found) × ((found ≡ tail) ⊎ (found ≡ shared))
unfolding wait_for_entry
wait_for_entry-some shared head tail h = ground arith

pub wait_for_entry_free :
    (shared head tail : ℕ) → head ≢ tail → wait_for_entry spin_fuel shared head tail ≡ some tail
unfolding wait_for_entry
wait_for_entry_free shared head tail h = ground arith

pub wait_for_entry_moved :
    (shared head tail : ℕ)
    → head ≡ tail
    → head ≢ shared
    → wait_for_entry spin_fuel shared head tail ≡ some shared
unfolding wait_for_entry
wait_for_entry_moved shared head tail h k = ground arith

-- The consumer waits for ever on an empty ring.
pub wait_for_entry_stuck :
    (fuel shared head tail : ℕ)
    → head ≡ tail
    → head ≡ shared
    → wait_for_entry fuel shared head tail ≡ none
unfolding wait_for_entry
wait_for_entry_stuck zero shared head tail h k = refl
wait_for_entry_stuck (suc fuel) shared head tail h k =
    ground (arith, wait_for_entry_stuck fuel shared head shared k k)
