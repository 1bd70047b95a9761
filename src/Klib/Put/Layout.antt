-- ===== src/Klib/Put/Layout.antt =====
-- k_put_int and k_put_uint: the layout of a number, cut at the end of the buffer.
use enclave_os.Prelude.{
  ℕ, zero, suc, ◌+◌, ◌-◌, ◌/◌, ◌%◌, ◌^◌, ◌≡◌, ◌≤◌, ◌<◌, refl, sym, ap, ◌∙◌, Bool, true, false, List,
  [], ◌∷◌, ◌++◌, arith, leb, ◌==◌, if◌then◌else◌, length, Bool-cases, inl, inr,
}
use mathlib.Core.List.{append_assoc, append-nil}
use enclave_os.Klib.Strings.{take, replicate}
use enclave_os.Klib.Digits.{halves, pow-suc_two}
use enclave_os.Klib.Put.{
  put_char, put_times, put_all, put_digits, num_digits, pad_char, sign_of, Flags, put_number,
  k_put_int, value_after, alt_prefix, k_put_uint,
}

put_char-take :
    (room c : ℕ) (full : List ℕ) → put_char room c (take room full) ≡ take room (full ++ c ∷ [])
unfolding put_char
put_char-take zero c full = refl
put_char-take (suc zero) c [] = refl
put_char-take (suc (suc room)) c [] = ground arith
put_char-take (suc room) c (x ∷ full) = ground (arith, put_char-take room c full)

put_times-take :
    (room n c : ℕ) (full : List ℕ)
    → put_times room n c (take room full) ≡ take room (full ++ replicate n c)
unfolding put_times
put_times-take room zero c full = ap (take room) (sym (append-nil full))
put_times-take room (suc n) c full = rw (put_char-take room c full) (
    put_times-take room n c (full ++ c ∷ [])
    ∙ ap (take room) (append_assoc full (c ∷ []) (replicate n c)))

put_all-take :
    (room : ℕ) (cs full : List ℕ) → put_all room cs (take room full) ≡ take room (full ++ cs)
unfolding put_all
put_all-take room [] full = ap (take room) (sym (append-nil full))
put_all-take room (c ∷ cs) full =
    rw (put_char-take room c full)
      (put_all-take room cs (full ++ c ∷ []) ∙ ap (take room) (append_assoc full (c ∷ []) cs))

-- The whole text of a number: padding on the left, prefix, leading zeros, digits, and padding on
-- the right.
abbrev pub layout : Flags → List ℕ → List ℕ → List ℕ
layout f prefix digits =
    let count = num_digits f.precision (length digits) in
    let pad = f.width - (count + length prefix) in
    ((((if f.left_align then [] else replicate pad (pad_char f.pad_zero f.precision)) ++ prefix)
        ++ replicate (count - length digits) b'0')
      ++ digits)
    ++ (if f.left_align then replicate pad b' ' else [])

take-nil : (room : ℕ) → take room [] ≡ []
take-nil zero = refl
take-nil (suc room) = refl

put_all-nil : (room : ℕ) (cs : List ℕ) → put_all room cs [] ≡ take room cs
put_all-nil room cs = ap (put_all room cs) (sym (take-nil room)) ∙ put_all-take room cs []

put_times-nil : (room n c : ℕ) → put_times room n c [] ≡ take room (replicate n c)
put_times-nil room n c = ap (put_times room n c) (sym (take-nil room)) ∙ put_times-take room n c []

put_number-layout :
    (room : ℕ) (f : Flags) (prefix digits : List ℕ)
    → put_number room f (length prefix) prefix digits [] ≡ take room (layout f prefix digits)
unfolding put_number
put_number-layout room f prefix digits =
    let count = num_digits f.precision (length digits) in
    let pad = f.width - (count + length prefix) in
    let zeros = replicate (count - length digits) b'0' in
    let left = replicate pad (pad_char f.pad_zero f.precision) in
    elim (Bool-cases f.left_align) [
      | inl e ↦
          rw
            (
              e,
              put_all-nil room prefix,
              put_times-take room (count - length digits) b'0' prefix,
              put_all-take room digits (prefix ++ zeros),
              put_times-take room pad b' ' (prefix ++ zeros ++ digits),
            )
            refl
      | inr e ↦
          rw
            (
              e,
              put_times-nil room pad (pad_char f.pad_zero f.precision),
              put_all-take room prefix left,
              put_times-take room (count - length digits) b'0' (left ++ prefix),
              put_all-take room digits (left ++ prefix ++ zeros),
            )
            (ap (take room) (sym (append-nil _)))
    ]

-- k_put_int writes no byte past the end of the buffer: into an empty buffer it writes the first
-- `room` bytes of the layout of the magnitude of the value, with its sign.
pub k_put_int-layout :
    (room value base : ℕ) (f : Flags) (show_sign space_flag : Bool)
    → value < 2 ^ 32
    → k_put_int room value base f true show_sign space_flag []
      ≡ take room (
          layout f
            (sign_of (leb (2 ^ 31) value) show_sign space_flag)
            (put_digits base (if leb (2 ^ 31) value then 2 ^ 32 - value else value)))
unfolding k_put_int
k_put_int-layout room value base f show_sign space_flag h = elim (Bool-cases (leb (2 ^ 31) value)) [
  | inl e ↦
      let magnitude : (2 ^ 32 - value) % 2 ^ 32 ≡ 2 ^ 32 - value = ground (arith, e) in
      rw (e, magnitude) (put_number-layout room f _ _)
  | inr e ↦ rw e (put_number-layout room f _ _)
]

value_after-zero : (fuel base v : ℕ) → 2 ≤ base → v < 2 ^ fuel → value_after fuel base v ≡ 0
unfolding value_after
value_after-zero zero base v h k = omega arith
value_after-zero (suc fuel) base v h k = elim (Bool-cases (v == 0)) [
  | inl e ↦ rw e (ground (arith, e))
  | inr e ↦ rw e (
      value_after-zero fuel base (v / base) h
        (halves v base (2 ^ fuel) h (omega (arith, pow-suc_two fuel))))
]

-- The flag for the alternative form has no effect on k_put_uint: the loop over the digits has
-- divided the value down to 0 before the prefix is chosen, and 0 has none.
pub k_put_uint-alt_form :
    (room value base : ℕ) (f : Flags) (out : List ℕ)
    → 2 ≤ base
    → value < 2 ^ 32
    → k_put_uint room value base f true out ≡ k_put_uint room value base f false out
unfolding k_put_uint alt_prefix
k_put_uint-alt_form room value base f out h k =
    let spent : value_after 33 base value ≡ 0 = value_after-zero 33 base value h (omega arith) in
    rw spent (ground arith)
