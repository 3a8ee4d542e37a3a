-- ===== src/Common/Bits.antt =====
-- Bit sets in a machine word: `x & (1 << i) != 0`, `x |= 1 << i` and `x &= !(1 << i)`.
use Prim.Native.Nat.{ℕ, zero, suc, ◌+◌, ◌*◌, ◌/◌, ◌%◌}
use mathlib.Core.Path.{◌≡◌, refl, ap}
use mathlib.Core.Logic.{◌≢◌}
use mathlib.Core.Bool.{Bool, true, false}
use native.Mathlib.Omega.{arith}
use beet_core.Common.Tests.{◌==◌}

-- Is bit `i` of `x` set?
unfoldable pub bit : ℕ → ℕ → Bool
bit x zero = x % 2 == 1
bit x (suc i) = bit (x / 2) i

-- `x | (1 << i)`
unfoldable pub set_bit : ℕ → ℕ → ℕ
set_bit x zero = x / 2 * 2 + 1
set_bit x (suc i) = set_bit (x / 2) i * 2 + x % 2

-- `x & !(1 << i)`
unfoldable pub clear_bit : ℕ → ℕ → ℕ
clear_bit x zero = x / 2 * 2
clear_bit x (suc i) = clear_bit (x / 2) i * 2 + x % 2

pub bit-zero : (i : ℕ) → bit 0 i ≡ false
unfolding bit
bit-zero zero = refl
bit-zero (suc i) = bit-zero i

half_of : (n x : ℕ) → (n * 2 + x % 2) / 2 ≡ n
half_of n x = omega arith

pub bit-set_bit_self : (x i : ℕ) → bit (set_bit x i) i ≡ true
unfolding bit set_bit
bit-set_bit_self x zero = ground arith
bit-set_bit_self x (suc i) = rw half_of (bit-set_bit_self (x / 2) i)

pub bit-set_bit_ne : (x i j : ℕ) → i ≢ j → bit (set_bit x i) j ≡ bit x j
unfolding bit set_bit
bit-set_bit_ne x zero zero h = absurd (h refl)
bit-set_bit_ne x zero (suc j) h = ap (λ y. bit y j) (omega arith)
bit-set_bit_ne x (suc i) zero h = ground arith
bit-set_bit_ne x (suc i) (suc j) h = rw half_of (bit-set_bit_ne (x / 2) i j (λ e. h (ap suc e)))

pub bit-clear_bit_self : (x i : ℕ) → bit (clear_bit x i) i ≡ false
unfolding bit clear_bit
bit-clear_bit_self x zero = ground arith
bit-clear_bit_self x (suc i) = rw half_of (bit-clear_bit_self (x / 2) i)

pub bit-clear_bit_ne : (x i j : ℕ) → i ≢ j → bit (clear_bit x i) j ≡ bit x j
unfolding bit clear_bit
bit-clear_bit_ne x zero zero h = absurd (h refl)
bit-clear_bit_ne x zero (suc j) h = ap (λ y. bit y j) (omega arith)
bit-clear_bit_ne x (suc i) zero h = ground arith
bit-clear_bit_ne x (suc i) (suc j) h = rw half_of (bit-clear_bit_ne (x / 2) i j (λ e. h (ap suc e)))
