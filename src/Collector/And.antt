-- ===== src/Collector/And.antt =====
-- instrumentation/redo_entry_collector.c: the two masks that the code uses.
use mangosteen_code.Common.{ℕ, zero, suc, ◌+◌, ◌*◌, ◌/◌, ◌%◌, ◌^◌, ◌<◌, ◌≡◌, refl, arith}
use mangosteen_code.Collector.{aligned_mask}
use mangosteen_code.Collector.Machine.{bits_and}

bits_and-zero : (w x : ℕ) → bits_and w 0 x ≡ 0
unfolding bits_and
bits_and-zero zero x = refl
bits_and-zero (suc w) x = omega (arith, bits_and-zero w (x / 2))

pub bits_and-low : (x : ℕ) → bits_and 64 1023 x ≡ x % 1024
unfolding bits_and
bits_and-low x = omega (arith, bits_and-zero 54 (x / 2 / 2 / 2 / 2 / 2 / 2 / 2 / 2 / 2 / 2))

ones : ℕ → ℕ
ones zero = 0
ones (suc w) = 2 * ones w + 1

twos : ℕ → ℕ
twos zero = 1
twos (suc w) = 2 * twos w

-- All bits of a number that fits.
bits_and-ones : (w x : ℕ) → x < twos w → bits_and w x (ones w) ≡ x
unfolding bits_and ones twos
bits_and-ones zero x h = omega arith
bits_and-ones (suc w) x h =
    let half : (2 * ones w + 1) / 2 ≡ ones w = omega arith in
    let odd : (2 * ones w + 1) % 2 ≡ 1 = omega arith in
    rw (half, odd) (omega (arith, bits_and-ones w (x / 2) (omega arith)))

-- All but the low five bits.
pub bits_and-aligned : (x : ℕ) → x < 2 ^ 64 → bits_and 64 x aligned_mask ≡ x / 32 * 32
unfolding bits_and ones twos
bits_and-aligned x h =
    let y = x / 2 / 2 / 2 / 2 / 2 in omega (arith, bits_and-ones 59 y (omega arith))
