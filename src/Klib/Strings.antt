-- ===== src/Klib/Strings.antt =====
-- The string routines of klib.c against equality of strings.
use enclave_os.Prelude.{
  ℕ, zero, suc, ◌-◌, ◌≡◌, ◌≢◌, refl, ap, ◌↔◌, List, [], ◌∷◌, ◌++◌, arith, length,
}
use enclave_os.Prelude.Int.{ℤ, pos, negsuc, sub_ℕ}
use enclave_os.Klib.{k_strlen, k_strcmp, k_strncmp, k_strncpy}

-- The bytes of a C string: none is the terminator.
abbrev pub IsString : List ℕ → Type 0
IsString [] = Unit
IsString (c ∷ cs) = (c ≢ 0) × IsString cs

abbrev pub take : ℕ → List ℕ → List ℕ
take zero xs = []
take (suc n) [] = []
take (suc n) (x ∷ xs) = x ∷ take n xs

abbrev pub replicate : ℕ → ℕ → List ℕ
replicate zero a = []
replicate (suc n) a = a ∷ replicate n a

-- The opposite integer.
abbrev pub opposite : ℤ → ℤ
opposite (pos n) = sub_ℕ 0 n
opposite (negsuc n) = pos (suc n)

pub k_strlen-length : (s : List ℕ) → k_strlen s ≡ length s
unfolding k_strlen
k_strlen-length [] = refl
k_strlen-length (c ∷ s) = omega (arith, k_strlen-length s)

k_strcmp_self : (s : List ℕ) → k_strcmp s s ≡ pos 0
unfolding k_strcmp
k_strcmp_self [] = refl
k_strcmp_self (c ∷ s) = ground (arith, k_strcmp_self s)

eq_of_k_strcmp : (s t : List ℕ) → IsString s → IsString t → k_strcmp s t ≡ pos 0 → s ≡ t
unfolding k_strcmp
eq_of_k_strcmp [] [] hs ht e = refl
eq_of_k_strcmp [] (d ∷ t) hs ht e = absurd (ground (arith, e, ht.0))
eq_of_k_strcmp (c ∷ s) [] hs ht e = absurd (ground (arith, e, hs.0))
eq_of_k_strcmp (c ∷ s) (d ∷ t) hs ht e = ground (arith, e, eq_of_k_strcmp s t hs.1 ht.1)

-- k_strcmp of two strings is 0 exactly when they are equal.
pub k_strcmp-eq : (s t : List ℕ) → IsString s → IsString t → (k_strcmp s t ≡ pos 0) ↔ (s ≡ t)
k_strcmp-eq s t hs ht = (eq_of_k_strcmp s t hs ht, λ e. rw e (k_strcmp_self t))

-- With its arguments exchanged k_strcmp has the opposite sign and size.
pub k_strcmp-opposite : (s t : List ℕ) → k_strcmp t s ≡ opposite (k_strcmp s t)
unfolding k_strcmp
k_strcmp-opposite [] [] = refl
k_strcmp-opposite [] (d ∷ t) = ground arith
k_strcmp-opposite (c ∷ s) [] = ground arith
k_strcmp-opposite (c ∷ s) (d ∷ t) = ground (arith, k_strcmp-opposite s t)

-- k_strncmp compares as k_strcmp does the first `n` bytes of the two strings.
pub k_strncmp-take : (s t : List ℕ) (n : ℕ) → k_strncmp s t n ≡ k_strcmp (take n s) (take n t)
unfolding k_strncmp k_strcmp
k_strncmp-take s t zero = refl
k_strncmp-take [] [] (suc n) = refl
k_strncmp-take [] (d ∷ t) (suc n) = refl
k_strncmp-take (c ∷ s) [] (suc n) = refl
k_strncmp-take (c ∷ s) (d ∷ t) (suc n) = ground (arith, k_strncmp-take s t n)

k_strncpy-nil : (n : ℕ) → k_strncpy [] n ≡ replicate n 0
unfolding k_strncpy
k_strncpy-nil zero = refl
k_strncpy-nil (suc n) = ap (λ r. 0 ∷ r) (k_strncpy-nil n)

-- k_strncpy writes exactly `n` bytes: the first `n` of the string, and zeros behind its end.
pub k_strncpy-take :
    (s : List ℕ) (n : ℕ)
    → (k_strncpy s n ≡ take n s ++ replicate (n - length s) 0) × (length (k_strncpy s n) ≡ n)
unfolding k_strncpy
k_strncpy-take s zero = let none_left : 0 - length s ≡ 0 = omega arith in (rw none_left, refl)
k_strncpy-take [] (suc n) =
    let all : suc n - 0 ≡ suc n = omega arith in
    (rw all (ap (λ r. 0 ∷ r) (k_strncpy-nil n)), ap suc (k_strncpy-take [] n).1)
k_strncpy-take (c ∷ s) (suc n) =
    let (copied, size) = k_strncpy-take s n in
    let same : suc n - suc (length s) ≡ n - length s = omega arith in
    (rw same (ap (λ r. c ∷ r) copied), ap suc size)
