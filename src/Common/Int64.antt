-- ===== src/Common/Int64.antt =====
-- Go's int64: the addition that wraps round, on the integers of the bits.
use Prim.Native.Nat.{ℕ, ◌+◌, ◌-◌, ◌%◌, ◌<◌}
use mathlib.Core.Path.{◌≡◌, ap}
use native.Mathlib.Omega.{arith}
use calf.Common.Tests.{ltb, if◌then◌else◌}
use calf.Common.Int.{ℤ, pos, negsuc}

-- 2 ^ 64 and 2 ^ 63.
abbrev pub word : ℕ
word = 0x10000000000000000

abbrev pub half_word : ℕ
half_word = 0x8000000000000000

-- The bits, read without a sign.
abbrev pub bits : ℤ → ℕ
bits (pos n) = n % word
bits (negsuc n) = word - 1 - n % word

abbrev pub of_bits : ℕ → ℤ
of_bits m = if ltb m half_word then pos m else negsuc (word - 1 - m)

-- `a + b`
unfoldable pub add_int64 : ℤ → ℤ → ℤ
add_int64 a b = of_bits ((bits a + bits b) % word)

bits-lt : (a : ℤ) → bits a < word
bits-lt (pos n) = omega arith
bits-lt (negsuc n) = omega arith

bits-of_bits : (m : ℕ) → m < word → bits (of_bits m) ≡ m
bits-of_bits m h = ground arith

pub bits-add_int64 : (a b : ℤ) → bits (add_int64 a b) ≡ (bits a + bits b) % word
unfolding add_int64
bits-add_int64 a b = bits-of_bits _ (omega arith)

pub add_int64_assoc : (a b c : ℤ) → add_int64 (add_int64 a b) c ≡ add_int64 a (add_int64 b c)
unfolding add_int64
add_int64_assoc a b c = ap of_bits (
    omega (arith, bits-of_bits ((bits a + bits b) % word), bits-of_bits ((bits b + bits c) % word)))

pub add_int64_comm : (a b : ℤ) → add_int64 a b ≡ add_int64 b a
unfolding add_int64
add_int64_comm a b = ap of_bits (omega arith)
