-- ===== src/Klib/Digits.antt =====
-- k_itoa and k_uitoa: the digits and the number that they stand for.
use native.Mathlib.Nat.{div-add-mod', pow-suc}
use enclave_os.Prelude.{
  ℕ, zero, suc, ◌+◌, ◌-◌, ◌*◌, ◌/◌, ◌%◌, ◌^◌, ◌≡◌, ◌≤◌, ◌<◌, true, List, [], ◌∷◌, arith, ltb, ◌==◌,
  if◌then◌else◌, Bool-cases, inl, inr, length,
}
use enclave_os.Klib.{digit_char, digits_loop, k_uitoa, is_digit}

-- The inverse of `digit_char`.
abbrev pub digit_value : ℕ → ℕ
digit_value c = if ltb c b'a' then c - b'0' else c - b'a' + 10

-- The number that the digits behind `acc` stand for.
abbrev pub value_of : ℕ → ℕ → List ℕ → ℕ
value_of base acc [] = acc
value_of base acc (c ∷ cs) = value_of base (acc * base + digit_value c) cs

digit_value-digit_char : (r : ℕ) → digit_value (digit_char r) ≡ r
digit_value-digit_char r = ground arith

pub halves : (v base n : ℕ) → 2 ≤ base → v < 2 * n → v / base < n
halves v base n h k = grind arith

pub pow-suc_two : (n : ℕ) → 2 ^ suc n ≡ 2 * 2 ^ n
pow-suc_two n = omega (arith, pow-suc 2 n)

-- With a bit of fuel for each bit of the number the loop puts its digits in front of `out`.
pub digits_loop-value_of :
    (fuel base v : ℕ) (out : List ℕ)
    → 2 ≤ base
    → v < 2 ^ fuel
    → value_of base 0 (digits_loop fuel base v out) ≡ value_of base v out
unfolding digits_loop
digits_loop-value_of zero base v out h k = let none : v ≡ 0 = omega arith in rw none
digits_loop-value_of (suc fuel) base v out h k = elim (Bool-cases (v == 0)) [
  | inl e ↦ let none : v ≡ 0 = ground arith in rw none
  | inr e ↦ rw (
    e,
    digits_loop-value_of fuel base (v / base) (digit_char (v % base) ∷ out) h
        (halves v base (2 ^ fuel) h (rw pow-suc_two at k)),
    digit_value-digit_char (v % base),
    div-add-mod' v base,
  )
]

-- At most a digit for each bit.
length-digits_loop :
    (bits fuel base v : ℕ) (out : List ℕ)
    → 2 ≤ base
    → v < 2 ^ bits
    → length (digits_loop fuel base v out) ≤ bits + length out
unfolding digits_loop
length-digits_loop bits zero base v out h k = omega arith
length-digits_loop zero (suc fuel) base v out h k =
    let none : v ≡ 0 = omega arith in rw none (omega arith)
length-digits_loop (suc bits) (suc fuel) base v out h k = ground (
  arith,
  length-digits_loop bits fuel base (v / base) (digit_char (v % base) ∷ out) h
      (halves v base (2 ^ bits) h (rw pow-suc_two at k)),
)

-- Read in its base, the string of k_uitoa is the number, for every 32-bit number and every base
-- from 2 on; it has at most 32 digits, and so fits in `tmp`.
pub k_uitoa-value_of :
    (v base : ℕ)
    → 2 ≤ base
    → v < 2 ^ 32
    → (value_of base 0 (k_uitoa v base) ≡ v) × (length (k_uitoa v base) ≤ 32)
unfolding k_uitoa
k_uitoa-value_of v base h k = elim (Bool-cases (v == 0)) [
  | inl e ↦ let none : v ≡ 0 = ground arith in rw (e, none) (omega arith, omega arith)
  | inr e ↦ rw e (
    digits_loop-value_of 33 base v [] h (omega arith),
    omega (arith, length-digits_loop 32 33 base v [] h k),
  )
]

abbrev pub AllDigits : List ℕ → Type 0
AllDigits [] = Unit
AllDigits (c ∷ cs) = (is_digit c ≡ true) × AllDigits cs

pub digits_loop-AllDigits :
    (fuel v : ℕ) (out : List ℕ) → AllDigits out → AllDigits (digits_loop fuel 10 v out)
unfolding digits_loop
digits_loop-AllDigits zero v out d = d
digits_loop-AllDigits (suc fuel) v out d = elim (Bool-cases (v == 0)) [
  | inl e ↦ rw e d
  | inr e ↦ rw e (digits_loop-AllDigits fuel (v / 10) (digit_char (v % 10) ∷ out) (ground arith, d))
]
