-- ===== src/Klib/Atoi.antt =====
-- k_atoi, by itself and after k_itoa.
use Prim.Native.Nat.{min}
use enclave_os.Prelude.{
  ℕ, ◌+◌, ◌-◌, ◌*◌, ◌/◌, ◌%◌, ◌^◌, ◌≡◌, ◌≢◌, ◌≤◌, ◌<◌, refl, sym, ap, ◌∙◌, true, false, some, List,
  [], ◌∷◌, ◌++◌, arith, ltb, leb, ◌==◌, if◌then◌else◌, Bool-cases, inl, inr,
}
use mathlib.Core.List.{append-nil}
use enclave_os.Prelude.Int.{ℤ, pos, sub_ℕ}
use enclave_os.Klib.{
  digits_loop, k_itoa, is_digit, atoi_loop, skip_spaces, clamp_int, atoi_signed, k_atoi,
}
use enclave_os.Klib.Digits.{
  value_of, digit_value, AllDigits, digits_loop-AllDigits, digits_loop-value_of,
}

-- The string ends, or goes on with a byte that is no digit.
abbrev pub Stops : List ℕ → Type 0
Stops [] = Unit
Stops (c ∷ cs) = is_digit c ≡ false

value_of-ge : (u : ℕ) (cs : List ℕ) → u ≤ value_of 10 u cs
value_of-ge u [] = omega arith
value_of-ge u (c ∷ cs) = omega (arith, value_of-ge (u * 10 + digit_value c) cs)

pub atoi_loop-value_of :
    (u : ℕ) (cs rest : List ℕ)
    → AllDigits cs
    → Stops rest
    → u ≤ 0xFFFFFFFF
    → atoi_loop u (cs ++ rest) ≡ min (value_of 10 u cs) 0xFFFFFFFF
unfolding atoi_loop
atoi_loop-value_of u [] [] d s h = omega arith
atoi_loop-value_of u [] (c ∷ rest) d s h = rw s (omega arith)
atoi_loop-value_of u (c ∷ cs) rest d s h =
    elim (Bool-cases (ltb ((0xFFFFFFFF - (c - b'0')) / 10) u)) [
      | inl over ↦
          rw (d.0, over)
            (omega (
              arith,
              atoi_loop-value_of 0xFFFFFFFF cs rest d.1 s (omega arith),
              value_of-ge 0xFFFFFFFF cs,
              value_of-ge (u * 10 + digit_value c) cs,
              above over,
            ))
      | inr fits ↦
          rw (d.0, fits)
            (rw (atoi_loop-value_of (u * 10 + (c - b'0')) cs rest d.1 s (below fits), same))
    ]
  where
    same : digit_value c ≡ c - b'0'
    same = ground (arith, d.0)

    above : ltb ((0xFFFFFFFF - (c - b'0')) / 10) u ≡ true → 0xFFFFFFFF < u * 10 + digit_value c
    above e = ground (arith, e, d.0)

    below : ltb ((0xFFFFFFFF - (c - b'0')) / 10) u ≡ false → u * 10 + (c - b'0') ≤ 0xFFFFFFFF
    below e = ground (arith, e, d.0)

-- The int that 32 bits stand for.
abbrev pub signed : ℕ → ℤ
signed v = if ltb v (2 ^ 31) then pos v else sub_ℕ 0 (2 ^ 32 - v)

k_atoi-digit :
    (c : ℕ) (str : List ℕ)
    → is_digit c ≡ true
    → k_atoi (some (c ∷ str)) ≡ clamp_int false (atoi_loop 0 (c ∷ str))
unfolding k_atoi atoi_signed skip_spaces
k_atoi-digit c str d = ground arith

k_atoi-minus : (str : List ℕ) → k_atoi (some (b'-' ∷ str)) ≡ clamp_int true (atoi_loop 0 str)
unfolding k_atoi atoi_signed skip_spaces
k_atoi-minus str = refl

clamp_int-pos : (n : ℕ) → clamp_int false (min n 0xFFFFFFFF) ≡ pos (min n (2 ^ 31 - 1))
unfolding clamp_int
clamp_int-pos n = ground arith

clamp_int-neg : (n : ℕ) → clamp_int true (min n 0xFFFFFFFF) ≡ sub_ℕ 0 (min n (2 ^ 31))
unfolding clamp_int
clamp_int-neg n = ground arith

-- k_atoi reads the digits up to the first other byte, after an optional minus sign, and gives the
-- number that they stand for, or the nearest int if there is none.
pub k_atoi-saturates :
    (cs rest : List ℕ)
    → AllDigits cs
    → Stops rest
    → cs ≢ []
    → (k_atoi (some (cs ++ rest)) ≡ pos (min (value_of 10 0 cs) (2 ^ 31 - 1)))
      × (k_atoi (some (b'-' ∷ cs ++ rest)) ≡ sub_ℕ 0 (min (value_of 10 0 cs) (2 ^ 31)))
k_atoi-saturates [] rest d s n = absurd (n refl)
k_atoi-saturates (c ∷ cs) rest d s n =
    let read = atoi_loop-value_of 0 (c ∷ cs) rest d s (omega arith) in
    (
      k_atoi-digit c (cs ++ rest) d.0
          ∙ ap (clamp_int false) read
          ∙ clamp_int-pos (value_of 10 0 (c ∷ cs)),
      k_atoi-minus (c ∷ (cs ++ rest))
          ∙ ap (clamp_int true) read
          ∙ clamp_int-neg (value_of 10 0 (c ∷ cs)),
    )

read_digits :
    (n : ℕ)
    → n ≢ 0
    → n < 2 ^ 32
    → let ds = digits_loop 33 10 n [] in
      (k_atoi (some ds) ≡ pos (min n (2 ^ 31 - 1)))
      × (k_atoi (some (b'-' ∷ ds)) ≡ sub_ℕ 0 (min n (2 ^ 31)))
read_digits n nz h =
    let ds = digits_loop 33 10 n [] in
    let value = digits_loop-value_of 33 10 n [] (omega arith) (omega arith) in
    let nonempty : ds ≢ [] = λ e. nz (sym value ∙ ap (value_of 10 0) e) in
    let whole = append-nil ds in
    let (plus, minus) = k_atoi-saturates ds [] (digits_loop-AllDigits 33 n [] tt) tt nonempty in
    (rw (whole, value) at plus, rw (whole, value) at minus)

-- k_atoi reads back what k_itoa writes in base 10, for every int.
pub k_atoi-k_itoa : (v : ℕ) → v < 2 ^ 32 → k_atoi (some (k_itoa v 10)) ≡ signed v
unfolding k_itoa
k_atoi-k_itoa v h = elim (Bool-cases (v == 0)) [
  | inl e ↦ let none : v ≡ 0 = ground arith in rw none zero_string
  | inr e ↦ elim (Bool-cases (leb (2 ^ 31) v)) [
    | inl neg ↦
        rw (e, neg)
          ((read_digits ((2 ^ 32 - v) % 2 ^ 32) (ground arith) (omega arith)).1
            ∙ ground (arith, neg))
    | inr small ↦ rw (e, small) ((read_digits v (ground arith) h).0 ∙ ground (arith, small))
  ]
]
  where
    zero_string : k_atoi (some (b'0' ∷ [])) ≡ pos 0
    zero_string = (k_atoi-saturates (b'0' ∷ []) [] (refl, tt) tt (cc)).0
