-- ===== src/Prelude/Bits.antt =====
-- The mask of bit 3, and `bit_or` with a number that is 0 or has bit 3 only.
use Prim.Native.Nat.{
  ℕ, zero, suc, ◌+◌, ◌*◌, ◌/◌, ◌%◌, ◌≤◌, min, bit_and, bit_or, digits, bit_and-bitwise,
  bit_or-bitwise,
}
use mathlib.Core.Path.{◌≡◌, refl}
use native.Mathlib.Omega.{arith}

pub zero-bit_or : (new : ℕ) → bit_or 0 new ≡ new
zero-bit_or new = omega (arith, bit_or-bitwise 0 new)

-- Bit 3 is set, and the others stay.
pub eight-bit_or : (new : ℕ) → bit_or 8 new ≡ new / 16 * 16 + 8 + new % 8
eight-bit_or new = omega (arith, bit_or-bitwise 8 new)

-- The mask with `left` digits to go, one lemma for each place of its bit.
abbrev masked : ℕ → ℕ → ℕ → ℕ
masked left old mask = digits (λ rest. zero) min left old mask

mask_none : (left old : ℕ) → masked left old 0 ≡ 0
mask_none zero old = refl
mask_none (suc left) zero = refl
mask_none (suc left) (suc old) = omega (arith, mask_none left (suc old / 2))

mask_bit_0 : (left old : ℕ) → old ≤ left → masked left old 1 ≡ old % 2
mask_bit_0 zero old h = omega (arith, h)
mask_bit_0 (suc left) zero h = refl
mask_bit_0 (suc left) (suc old) h = omega (arith, mask_none left (suc old / 2))

mask_bit_1 : (left old : ℕ) → old ≤ left → masked left old 2 ≡ old / 2 % 2 * 2
mask_bit_1 zero old h = omega (arith, h)
mask_bit_1 (suc left) zero h = refl
mask_bit_1 (suc left) (suc old) h =
    let halved = mask_bit_0 left (suc old / 2) (omega (arith, h)) in omega (arith, halved)

mask_bit_2 : (left old : ℕ) → old ≤ left → masked left old 4 ≡ old / 4 % 2 * 4
mask_bit_2 zero old h = omega (arith, h)
mask_bit_2 (suc left) zero h = refl
mask_bit_2 (suc left) (suc old) h =
    let halved = mask_bit_1 left (suc old / 2) (omega (arith, h)) in omega (arith, halved)

mask_bit_3 : (left old : ℕ) → old ≤ left → masked left old 8 ≡ old / 8 % 2 * 8
mask_bit_3 zero old h = omega (arith, h)
mask_bit_3 (suc left) zero h = refl
mask_bit_3 (suc left) (suc old) h =
    let halved = mask_bit_2 left (suc old / 2) (omega (arith, h)) in omega (arith, halved)

-- What the mask leaves is bit 3.
pub bit_and_eight : (old : ℕ) → bit_and old 8 ≡ old / 8 % 2 * 8
bit_and_eight old =
    let bit = mask_bit_3 old old (omega arith) in omega (arith, bit_and-bitwise old 8, bit)
