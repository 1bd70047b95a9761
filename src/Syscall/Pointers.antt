-- ===== src/Syscall/Pointers.antt =====
-- syscall.c: which pointers and which strings of a process the kernel accepts.
use enclave_os.Prelude.{
  not, ◌&&◌, ◌||◌, ltb, leb, ◌==◌, ℕ, zero, suc, ◌+◌, ◌-◌, ◌%◌, ◌^◌, ◌≡◌, ◌≢◌, ◌≤◌, ◌<◌, ◌↔◌, ◌⊎◌,
  inl, inr, refl, List, [], ◌∷◌, arith, length,
}
use enclave_os.Vma.{kernel_space_start}
use enclave_os.Syscall.{
  is_user_pointer, Fetched, fetched, faults, too_long, before, copy_loop, copy_string_from_user,
}

-- The bytes at the address are those of the string and then 0, below the kernel.
abbrev pub IsString : (ℕ → ℕ) → ℕ → List ℕ → Type 0
IsString memory src [] = (src < kernel_space_start) × (memory src ≡ 0)
IsString memory src (b ∷ s) =
    (src < kernel_space_start) × (memory src ≡ b) × (b ≢ 0) × IsString memory (src + 1) s

-- is_user_pointer accepts a pointer exactly if it is not NULL and below the kernel, and all the bytes
-- are below the kernel or their number is above 3 GB; in the latter case they reach into the kernel.
pub is_user_pointer-exact :
    (addr size : ℕ)
    → size < 2 ^ 32
    → is_user_pointer addr size ≡ (
        not (addr == 0)
        && ltb addr kernel_space_start
        && (leb (addr + size) kernel_space_start || ltb kernel_space_start size))
unfolding is_user_pointer
is_user_pointer-exact addr size small = ground arith

before-fetched :
    (b : ℕ) (r : Fetched) (s : List ℕ)
    → before b r ≡ fetched s
    → (t : List ℕ) × (r ≡ fetched t) × (s ≡ b ∷ t)
before-fetched b (fetched t) s e = (t, refl, ground (arith, e))
before-fetched b faults s e = absurd (ground (arith, e))
before-fetched b (too_long t) s e = absurd (ground (arith, e))

copy_none : (memory : ℕ → ℕ) (src : ℕ) (s : List ℕ) → copy_loop memory zero src ≢ fetched s
unfolding copy_loop
copy_none memory src s e = ground (arith, e)

copy_step :
    (memory : ℕ → ℕ) (n src : ℕ) (s : List ℕ)
    → copy_loop memory (suc n) src ≡ fetched s
    → (src < kernel_space_start)
      × ((memory src ≡ 0) × (s ≡ [])
          ⊎ (memory src ≢ 0) × (before (memory src) (copy_loop memory n (src + 1)) ≡ fetched s))
unfolding copy_loop
copy_step memory n src s e = ground (arith, e)

copy_loop-IsString :
    (memory : ℕ → ℕ) (n src : ℕ) (s : List ℕ)
    → copy_loop memory n src ≡ fetched s
    → IsString memory src s × (suc (length s) ≤ n)
copy_loop-IsString memory zero src s e = absurd (copy_none memory src s e)
copy_loop-IsString memory (suc n) src s e =
    let (low, ends) = copy_step memory n src s e in
    elim ends [
      | inl (z, empty) ↦ rw empty ((low, z), omega arith)
      | inr (nz, more) ↦
          let (t, r, cons) = before-fetched (memory src) (copy_loop memory n (src + 1)) s more in
          let (string, short) = copy_loop-IsString memory n (src + 1) t r in
          rw cons ((low, refl, nz, string), omega (arith, short))
    ]

IsString-copy_loop :
    (memory : ℕ → ℕ) (n src : ℕ) (s : List ℕ)
    → IsString memory src s
    → suc (length s) ≤ n
    → copy_loop memory n src ≡ fetched s
unfolding copy_loop
IsString-copy_loop memory zero src s i h = absurd (omega arith)
IsString-copy_loop memory (suc n) src [] i h = ground (arith, i)
IsString-copy_loop memory (suc n) src (b ∷ s) i h =
    let (low, same, nz, string) = i in
    let rest = IsString-copy_loop memory n (src + 1) s string (omega (arith, h)) in
    ground (arith, low, same, nz, rest)

-- `max_len - 1` on size_t.
abbrev rounds : ℕ → ℕ
rounds max_len = (max_len + 2 ^ 32 - 1) % 2 ^ 32

module _ (memory : ℕ → ℕ) (src max_len : ℕ) (s : List ℕ) where
  opened :
      copy_string_from_user memory src max_len ≡ fetched s
      → (src ≢ 0) × (copy_loop memory (rounds max_len) src ≡ fetched s)
  unfolding copy_string_from_user
  opened e = ground (arith, e)

  closed :
      src ≢ 0
      → src < kernel_space_start
      → copy_loop memory (rounds max_len) src ≡ fetched s
      → copy_string_from_user memory src max_len ≡ fetched s
  unfolding copy_string_from_user
  closed n l e = ground (arith, n, l, e)

-- A string ends below the kernel.
string_end :
    (memory : ℕ → ℕ) (src : ℕ) (s : List ℕ)
    → IsString memory src s
    → src + length s < kernel_space_start
string_end memory src [] (low, z) = omega (arith, low)
string_end memory src (b ∷ s) (low, same, nz, rest) =
    omega (arith, string_end memory (src + 1) s rest)

module _ (memory : ℕ → ℕ) (src max_len : ℕ) (s : List ℕ) (small : max_len < 2 ^ 32) where
  -- For a `max_len` of 32 bits, copy_string_from_user returns 0 with a string exactly if the pointer is
  -- not NULL, the string is the one at the pointer, all of it with its 0 lies below the kernel, and
  -- either with its 0 it is shorter than the buffer or `max_len` is 0, for which no length is too long.
  pub copy_string_from_user-IsString :
      (copy_string_from_user memory src max_len ≡ fetched s)
      ↔ ((src ≢ 0) × IsString memory src s × ((max_len ≡ 0) ⊎ (suc (length s) < max_len)))
  copy_string_from_user-IsString = (there, back)
    where
      there :
          copy_string_from_user memory src max_len ≡ fetched s
          → (src ≢ 0) × IsString memory src s × ((max_len ≡ 0) ⊎ (suc (length s) < max_len))
      there e =
          let (n, l) = opened memory src max_len s e in
          let (i, h) = copy_loop-IsString memory (rounds max_len) src s l in
          (n, i, ground (arith, h, small))

      back :
          (src ≢ 0) × IsString memory src s × ((max_len ≡ 0) ⊎ (suc (length s) < max_len))
          → copy_string_from_user memory src max_len ≡ fetched s
      back (n, i, h) =
          let below = string_end memory src s i in
          let enough : suc (length s) ≤ rounds max_len = ground (arith, below, small, h) in
          closed memory src max_len s n (omega (arith, below))
            (IsString-copy_loop memory (rounds max_len) src s i enough)
