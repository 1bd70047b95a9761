-- ===== src/Klib/Put/Tests.antt =====
-- Runs of k_put_int and k_put_uint into small buffers, and the theorems on them.
use enclave_os.Prelude.{◌-◌, ◌^◌, ◌≡◌, refl, true, false, none, [], ◌∷◌}
use enclave_os.Klib.{digits_loop}
use enclave_os.Klib.Put.{
  Flags, put_number, put_times, put_char, put_all, put_digits, num_digits, pad_char, sign_of,
  k_put_int,
}

abbrev flags : Flags
flags = record { width = 5; precision = none; pad_zero = true; left_align = false }

-- The padding with zeros stands before the sign.
padded :
    k_put_int 64 (2 ^ 32 - 42) 10 flags true false false [] ≡ b'0' ∷ b'0' ∷ b'-' ∷ b'4' ∷ b'2' ∷ []
unfolding k_put_int put_number put_times put_char put_all put_digits num_digits pad_char sign_of
    digits_loop
padded = refl

cut : k_put_int 3 (2 ^ 32 - 42) 10 flags true false false [] ≡ b'0' ∷ b'0' ∷ b'-' ∷ []
unfolding k_put_int put_number put_times put_char put_all put_digits num_digits pad_char sign_of
    digits_loop
cut = refl
