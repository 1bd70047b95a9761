-- ===== src/Klib/Hex/Tests.antt =====
-- A run of k_atoh.
use enclave_os.Prelude.{◌≡◌, refl, some, [], ◌∷◌}
use enclave_os.Klib.Hex.{hex_value, atoh_loop, skip_prefix, k_atoh}

-- A byte that is no digit behind the number shifts it once more.
shifted_once : k_atoh (some (b'0' ∷ b'x' ∷ b'1' ∷ b'2' ∷ b' ' ∷ [])) ≡ 0x120
unfolding k_atoh atoh_loop skip_prefix hex_value
shifted_once = refl
