-- ===== src/Pmm/Bits.antt =====
-- The bitmap by pages: what its operations do to the mark of a page.
use mathlib.Core.Path.{ap₂}
use mathlib.Core.Option
use enclave_os.Prelude.{
  ℕ, zero, suc, ◌+◌, ◌*◌, ◌≡◌, ◌≤◌, ◌<◌, refl, ap, Bool, true, false, Option, none, some, arith,
  ◌==◌, if◌then◌else◌, or_else, Bool-cases, inl, inr,
}
use enclave_os.Pmm.{Bitmap, bitmap_set, bitmap_clear, bitmap_test, word_bit, lowest_clear}

pub test-set :
    (bm : Bitmap) (i j : ℕ)
    → bitmap_test j (bitmap_set i bm) ≡ (if j == i then true else bitmap_test j bm)
test-set bm i j = ground arith

pub test-clear :
    (bm : Bitmap) (i j : ℕ)
    → bitmap_test j (bitmap_clear i bm) ≡ (if j == i then false else bitmap_test j bm)
test-clear bm i j = ground arith

-- The bit of a word is the mark of its page.
pub word_bit-test : (bm : Bitmap) (w b : ℕ) → word_bit bm w b ≡ bitmap_test (w * 32 + b) bm
word_bit-test bm w b = ap₂ (λ x y. bm x y) (omega arith) (omega arith)

-- The first of `n` pages from `i` on that `used` does not hold of: the plain first-fit search.
unfoldable pub lowest_free : ℕ → ℕ → (ℕ → Bool) → Option ℕ
lowest_free zero i used = none
lowest_free (suc n) i used =
    let rest = lowest_free n (i + 1) used in if used i then rest else some i

-- The pages that are marked in the bitmap.
abbrev pub marks : Bitmap → ℕ → Bool
marks bm i = bitmap_test i bm

module _ (used : ℕ → Bool) where
  pub lowest_free-append :
      (m n k i j : ℕ)
      → k ≡ m + n
      → j ≡ i + m
      → lowest_free k i used ≡ or_else (lowest_free m i used) (lowest_free n j used)
  unfolding lowest_free
  lowest_free-append zero n k i j e f =
      let e' : k ≡ n = omega arith in let f' : j ≡ i = omega arith in rw (e', f')
  lowest_free-append (suc m) n k i j e f =
      let e' : k ≡ suc (m + n) = omega arith in
      rw e' (ground (arith, lowest_free-append m n (m + n) (i + 1) j refl (omega arith)))

  -- What the search finds is free, in its range, and the first of its kind.
  pub lowest_free-some :
      (n i c j : ℕ)
      → lowest_free n i used ≡ some c
      → (i ≤ c) × (c < i + n) × (used c ≡ false) × (i ≤ j → j < c → used j ≡ true)
  unfolding lowest_free
  lowest_free-some zero i c j e = cc
  lowest_free-some (suc n) i c j e = ground (arith, e, lowest_free-some n (i + 1) c j, same)
    where
      same : (i ≡ j → used i ≡ used j)
      same q = ap used q

  pub lowest_free-none :
      (n i j : ℕ) → lowest_free n i used ≡ none → i ≤ j → j < i + n → used j ≡ true
  unfolding lowest_free
  lowest_free-none zero i j e h k = absurd (omega arith)
  lowest_free-none (suc n) i j e h k = ground (arith, e, lowest_free-none n (i + 1) j)

-- The scan of a word's bits is the search over its pages.
pub lowest_clear-lowest_free :
    (n b : ℕ) (bm : Bitmap) (w i : ℕ)
    → i ≡ w * 32 + b
    → lowest_free n i (marks bm) ≡ Option.map (λ c. w * 32 + c) (lowest_clear n b bm w)
unfolding lowest_free lowest_clear
lowest_clear-lowest_free zero b bm w i e = refl
lowest_clear-lowest_free (suc n) b bm w i e =
    rw (lowest_clear-lowest_free n (b + 1) bm w (i + 1) (omega arith), e, word_bit-test bm w b)
      (elim (Bool-cases (bitmap_test (w * 32 + b) bm)) [ inl t ↦ rw t | inr t ↦ rw t ])
