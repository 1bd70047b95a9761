-- ===== src/Klib.antt =====
-- klib.c: the string routines and the conversions of numbers. A C string is the list of its bytes
-- up to the terminating 0, which is not part of the list and reads as 0.
pub mod Strings
pub mod Digits
pub mod Put
pub mod Hex
pub mod Atoi
mod Tests
use enclave_os.Prelude.{
  ℕ, zero, suc, ◌+◌, ◌-◌, ◌*◌, ◌/◌, ◌%◌, ◌^◌, Bool, true, false, ◌&&◌, ◌||◌, Option, none, some,
  List, [], ◌∷◌, ◌++◌, ltb, leb, ◌==◌, if◌then◌else◌, length,
}
use enclave_os.Prelude.Int.{ℤ, pos, negsuc, sub_ℕ}

pub k_strlen : List ℕ → ℕ
k_strlen [] = 0
k_strlen (c ∷ str) = k_strlen str + 1

-- The difference of two bytes, as an int.
abbrev pub diff : ℕ → ℕ → ℤ
diff a b = sub_ℕ a b

pub k_strcmp : List ℕ → List ℕ → ℤ
k_strcmp [] [] = diff 0 0
k_strcmp [] (d ∷ t) = diff 0 d
k_strcmp (c ∷ s) [] = diff c 0
k_strcmp (c ∷ s) (d ∷ t) = let rest = k_strcmp s t in if c == d then rest else diff c d

pub k_strncmp : List ℕ → List ℕ → ℕ → ℤ
k_strncmp s t zero = pos 0
k_strncmp [] [] (suc n) = diff 0 0
k_strncmp [] (d ∷ t) (suc n) = diff 0 d
k_strncmp (c ∷ s) [] (suc n) = diff c 0
k_strncmp (c ∷ s) (d ∷ t) (suc n) = let rest = k_strncmp s t n in if c == d then rest else diff c d

-- The `num` bytes that are written; `value` is an int as its 32 bits.
pub k_memset : ℕ → ℕ → List ℕ
k_memset value zero = []
k_memset value (suc num) = value % 2 ^ 8 ∷ k_memset value num

-- The `num` bytes that are written, of a source that holds as many.
pub k_memcpy : List ℕ → ℕ → List ℕ
k_memcpy src zero = []
k_memcpy [] (suc num) = []
k_memcpy (c ∷ src) (suc num) = c ∷ k_memcpy src num

-- The `n` bytes that are written to the destination.
pub k_strncpy : List ℕ → ℕ → List ℕ
k_strncpy src zero = []
k_strncpy [] (suc n) = 0 ∷ k_strncpy [] n
k_strncpy (c ∷ src) (suc n) = c ∷ k_strncpy src n

-- memcmp on two regions of `n` bytes.
pub k_memcmp : List ℕ → List ℕ → ℤ
k_memcmp (c ∷ s) (d ∷ t) = let rest = k_memcmp s t in if c == d then rest else diff c d
k_memcmp _ _ = pos 0

-- `(rem < 10) ? (rem + '0') : (rem - 10 + 'a')`
abbrev pub digit_char : ℕ → ℕ
digit_char rem = if ltb rem 10 then rem + b'0' else rem - 10 + b'a'

-- The loop that fills `tmp`, and the copy of `tmp` from its end: the digits that come later in the
-- loop stand first in the result. 33 rounds are enough for 32 bits.
pub digits_loop : ℕ → ℕ → ℕ → List ℕ → List ℕ
digits_loop zero base value out = out
digits_loop (suc fuel) base value out =
    let rest = digits_loop fuel base (value / base) (digit_char (value % base) ∷ out) in
    if value == 0 then out else rest

-- The string that is written to `buf`, without its terminating 0.
pub k_uitoa : ℕ → ℕ → List ℕ
k_uitoa value base = if value == 0 then b'0' ∷ [] else digits_loop 33 base value []

-- `value` is an int as its 32 bits; the sign is shown in base 10 only.
pub k_itoa : ℕ → ℕ → List ℕ
k_itoa value base =
    if value == 0
    then b'0' ∷ []
    else if leb (2 ^ 31) value && base == 10
    then b'-' ∷ digits_loop 33 base ((2 ^ 32 - value) % 2 ^ 32) []
    else digits_loop 33 base value []

abbrev pub is_digit : ℕ → Bool
is_digit c = leb b'0' c && leb c b'9'

-- The saturating accumulation of decimal digits, up to the first byte that is none.
pub atoi_loop : ℕ → List ℕ → ℕ
atoi_loop uresult [] = uresult
atoi_loop uresult (c ∷ str) =
    let digit = c - b'0' in
    let next =
      if ltb ((0xFFFFFFFF - digit) / 10) uresult then 0xFFFFFFFF else uresult * 10 + digit in
    let rest = atoi_loop next str in if is_digit c then rest else uresult

pub skip_spaces : List ℕ → List ℕ
skip_spaces [] = []
skip_spaces (c ∷ str) = let rest = skip_spaces str in if c == 32 then rest else c ∷ str

pub clamp_int : Bool → ℕ → ℤ
clamp_int true uresult = if leb uresult 0x80000000 then sub_ℕ 0 uresult else sub_ℕ 0 0x80000000
clamp_int false uresult = if leb uresult 0x7FFFFFFF then pos uresult else pos 0x7FFFFFFF

pub atoi_signed : List ℕ → ℤ
atoi_signed [] = clamp_int false (atoi_loop 0 [])
atoi_signed (c ∷ str) =
    if c == b'-'
    then clamp_int true (atoi_loop 0 str)
    else if c == b'+'
    then clamp_int false (atoi_loop 0 str)
    else clamp_int false (atoi_loop 0 (c ∷ str))

-- NULL is `none`.
pub k_atoi : Option (List ℕ) → ℤ
k_atoi none = pos 0
k_atoi (some str) = atoi_signed (skip_spaces str)
