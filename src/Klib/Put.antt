-- ===== src/Klib/Put.antt =====
-- klib.c: k_put_int and k_put_uint, which write a number with its padding into a buffer. The state
-- is the list of the bytes written so far, and `room` is how many fit before `end`.
pub mod Layout
mod Tests
use enclave_os.Prelude.{
  ℕ, zero, suc, ◌+◌, ◌-◌, ◌/◌, ◌%◌, ◌^◌, Bool, true, false, not, ◌&&◌, ◌||◌, Option, none, some,
  List, [], ◌∷◌, ◌++◌, ltb, leb, ◌==◌, if◌then◌else◌, length,
}
use enclave_os.Klib.{digits_loop}

-- `if (*buf < end) *(*buf)++ = c`
pub put_char : ℕ → ℕ → List ℕ → List ℕ
put_char room c out = if ltb (length out) room then out ++ c ∷ [] else out

-- `while (n-- > 0 && *buf < end) *(*buf)++ = c`
pub put_times : ℕ → ℕ → ℕ → List ℕ → List ℕ
put_times room zero c out = out
put_times room (suc n) c out = put_times room n c (put_char room c out)

-- The digits in `tmp`, from its end
pub put_all : ℕ → List ℕ → List ℕ → List ℕ
put_all room [] out = out
put_all room (c ∷ cs) out = put_all room cs (put_char room c out)

-- The digits of the number, one for 0
pub put_digits : ℕ → ℕ → List ℕ
put_digits base value = if value == 0 then b'0' ∷ [] else digits_loop 33 base value []

-- `precision` is none where the argument is negative.
pub num_digits : Option ℕ → ℕ → ℕ
num_digits none len = len
num_digits (some precision) len = if ltb len precision then precision else len

pub pad_char : Bool → Option ℕ → ℕ
pad_char pad_zero none = if pad_zero then b'0' else b' '
pad_char pad_zero (some precision) = b' '

-- The sign that is written, if any.
pub sign_of : Bool → Bool → Bool → List ℕ
sign_of negative show_sign space_flag =
    if negative
    then b'-' ∷ []
    else if show_sign
    then b'+' ∷ []
    else if space_flag
    then b' ' ∷ []
    else []

-- The flags of a conversion; `width` is not negative.
pub record Flags : Type 0 where
  pub width : ℕ
  pub precision : Option ℕ
  pub pad_zero : Bool
  pub left_align : Bool

-- What both functions write: the padding, the prefix, the leading zeros and the digits.
pub put_number : ℕ → Flags → ℕ → List ℕ → List ℕ → List ℕ → List ℕ
put_number room f prefix_len prefix digits out =
    let count = num_digits f.precision (length digits) in
    let pad = f.width - (count + prefix_len) in
    let c = pad_char f.pad_zero f.precision in
    let out1 = if f.left_align then out else put_times room pad c out in
    let out2 = put_all room prefix out1 in
    let out3 = put_times room (count - length digits) b'0' out2 in
    let out4 = put_all room digits out3 in
    if f.left_align then put_times room pad b' ' out4 else out4

-- `value` is an int as its 32 bits.
pub k_put_int : ℕ → ℕ → ℕ → Flags → Bool → Bool → Bool → List ℕ → List ℕ
k_put_int room value base f is_signed show_sign space_flag out =
    let negative = is_signed && leb (2 ^ 31) value in
    let uval = if negative then (2 ^ 32 - value) % 2 ^ 32 else value in
    let prefix = sign_of negative show_sign space_flag in
    put_number room f (length prefix) prefix (put_digits base uval) out

-- What the loop over the digits leaves in `value`.
pub value_after : ℕ → ℕ → ℕ → ℕ
value_after zero base value = value
value_after (suc fuel) base value =
    let rest = value_after fuel base (value / base) in if value == 0 then value else rest

-- The prefix of the alternative form, by the value at that point.
pub alt_prefix : Bool → ℕ → ℕ → List ℕ
alt_prefix alt_form base value =
    if alt_form && base == 16 && not (value == 0)
    then b'0' ∷ b'x' ∷ []
    else if alt_form && base == 8 && not (value == 0)
    then b'0' ∷ []
    else []

pub k_put_uint : ℕ → ℕ → ℕ → Flags → Bool → List ℕ → List ℕ
k_put_uint room value base f alt_form out =
    let digits = put_digits base value in
    let prefix = alt_prefix alt_form base (value_after 33 base value) in
    put_number room f (length prefix) prefix digits out
