-- ===== src/Klib/Hex.antt =====
-- klib.c: k_atoh.
mod Tests
use enclave_os.Prelude.{
  ℕ, ◌+◌, ◌-◌, ◌*◌, ◌%◌, ◌^◌, ◌&&◌, ◌||◌, Option, none, some, List, [], ◌∷◌, leb, ◌==◌,
  if◌then◌else◌,
}

pub hex_value : ℕ → Option ℕ
hex_value c =
    if leb b'0' c && leb c b'9'
    then some (c - b'0')
    else if leb b'a' c && leb c b'f'
    then some (c - b'a' + 10)
    else if leb b'A' c && leb c b'F'
    then some (c - b'A' + 10)
    else none

-- The shift comes before the test of the byte.
pub atoh_loop : ℕ → List ℕ → ℕ
atoh_loop result [] = result
atoh_loop result (c ∷ str) =
    let shifted = result * 16 % 2 ^ 32 in
    elim (hex_value c) [ none ↦ shifted | some digit ↦ atoh_loop (shifted + digit) str ]

pub skip_prefix : List ℕ → List ℕ
skip_prefix (a ∷ b ∷ str) = if a == b'0' && (b == b'x' || b == b'X') then str else a ∷ b ∷ str
skip_prefix str = str

-- NULL is `none`.
pub k_atoh : Option (List ℕ) → ℕ
k_atoh none = 0
k_atoh (some str) = atoh_loop 0 (skip_prefix str)
