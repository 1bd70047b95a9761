-- ===== src/Klib/Tests.antt =====
-- Runs of klib.c on short strings, and the theorems on them.
use enclave_os.Prelude.{ℕ, ◌-◌, ◌≡◌, ◌^◌, refl, some, List, [], ◌∷◌, arith}
use enclave_os.Klib.{digits_loop, k_uitoa, k_itoa, k_atoi}
use enclave_os.Klib.Atoi.{signed, k_atoi-k_itoa}

minus_word : k_itoa (2 ^ 32 - 37) 10 ≡ b'-' ∷ b'3' ∷ b'7' ∷ []
unfolding k_itoa digits_loop
minus_word = refl

hex_word : k_uitoa 0xBEEF 16 ≡ b'b' ∷ b'e' ∷ b'e' ∷ b'f' ∷ []
unfolding k_uitoa digits_loop
hex_word = refl

k_atoi-k_itoa_example : k_atoi (some (k_itoa 0x80000000 10)) ≡ signed 0x80000000
k_atoi-k_itoa_example = k_atoi-k_itoa 0x80000000 (omega arith)

abbrev digits : List ℕ
digits = b'4' ∷ b'2' ∷ []
