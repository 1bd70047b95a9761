-- ===== src/Heap/Blocks.antt =====
-- heap.c: where the blocks of the nodes lie.
use native.Mathlib.Nat.{pow-suc}
use enclave_os.Prelude.{
  ℕ, zero, suc, ◌+◌, ◌-◌, ◌*◌, ◌/◌, ◌%◌, ◌^◌, ◌≡◌, ◌≢◌, ◌≤◌, ◌<◌, ◌⊎◌, refl, sym, ap, ◌∙◌, arith,
  ltb, leb, Bool-cases, inl, inr,
}
use enclave_os.Heap.{Node, unused, alloc, max_order}
use enclave_os.Heap.Bounds.{At, pow_positive}
use enclave_os.Heap.Forest.{IsForest}

-- The first page of a node at the depth `d`, and the number of its pages.
abbrev pub first_page : ℕ → ℕ → ℕ
first_page d n = (n - 2 ^ d) * 2 ^ (max_order - d)

abbrev pub page_count : ℕ → ℕ
page_count d = 2 ^ (max_order - d)

-- No page is in both blocks.
abbrev pub AreApart : ℕ → ℕ → ℕ → ℕ → Type 0
AreApart d n e m =
    (first_page d n + page_count d ≤ first_page e m)
    ⊎ (first_page e m + page_count e ≤ first_page d n)

half_low : (x r w : ℕ) → r < 2 → x * (w * 2) ≤ (2 * x + r) * w
half_low x zero w h = grind arith
half_low x (suc zero) w h = grind arith
half_low x (suc (suc r)) w h = absurd (omega arith)

half_high : (x r w : ℕ) → r < 2 → (2 * x + r) * w + w ≤ x * (w * 2) + w * 2
half_high x zero w h = grind arith
half_high x (suc zero) w h = grind arith
half_high x (suc (suc r)) w h = absurd (omega arith)

-- The block of a node lies in its parent's.
parent_block :
    (d n : ℕ)
    → At (suc d) n
    → d < max_order
    → (first_page d (n / 2) ≤ first_page (suc d) n)
      × (first_page (suc d) n + page_count (suc d) ≤ first_page d (n / 2) + page_count d)
parent_block d n a h =
    let w = 2 ^ (max_order - suc d) in
    let level : max_order - d ≡ suc (max_order - suc d) = omega arith in
    let wide : page_count d ≡ w * 2 = ap (λ k. 2 ^ k) level ∙ pow-suc 2 (max_order - suc d) in
    let x = n / 2 - 2 ^ d in
    let r = n % 2 in
    let index : n - 2 ^ suc d ≡ 2 * x + r = omega (arith, a.0, pow-suc 2 d) in
    let left : first_page (suc d) n ≡ (2 * x + r) * w = ap (λ k. k * w) index in
    let right : first_page d (n / 2) ≡ x * (w * 2) = ap (λ k. x * k) wide in
    let low = half_low x r w (omega arith) in
    let high = half_high x r w (omega arith) in
    (omega (arith, left, right, low), omega (arith, left, right, wide, high))

next_le : (x y w : ℕ) → suc x ≤ y → x * w + w ≤ y * w
next_le x y w h = let z : y ≡ suc x + (y - suc x) = omega arith in rw z (spread x (y - suc x) w)
  where
    spread : (x k w : ℕ) → x * w + w ≤ (suc x + k) * w
    spread x k w = grind arith

same_depth : (d n m : ℕ) → At d n → At d m → n ≢ m → AreApart d n d m
same_depth d n m a b q = elim (Bool-cases (ltb n m)) [
  | inl below ↦
      let h : n < m = ground (arith, below) in
      inl (next_le (n - 2 ^ d) (m - 2 ^ d) (page_count d) (omega (arith, h, a.0)))
  | inr above ↦
      let h : m < n = ground (arith, above, q) in
      inr (next_le (m - 2 ^ d) (n - 2 ^ d) (page_count d) (omega (arith, h, b.0)))
]

-- An allocated node and a node in use that is `k` levels below it.
apart_below :
    (tree : ℕ → Node) (d n : ℕ)
    → IsForest tree
    → At d n
    → tree n ≡ alloc
    → (k e m : ℕ) → e ≡ d + k
    → At e m
    → e ≤ max_order
    → tree m ≢ unused
    → n ≢ m
    → AreApart d n e m
apart_below tree d n f a t zero e m x b h u q =
    let same : e ≡ d = omega (arith, x) in
    let b' = rw same at b in rw same (same_depth d n m a b' q)
apart_below tree d n f a t (suc k) e m x b h u q =
    let e1 = d + k in
    let same : e ≡ suc e1 = omega (arith, x) in
    let (low, high) = rw same at b in
    let p1 = pow_positive e1 in
    let two = pow-suc 2 e1 in
    let four = pow-suc 2 (suc e1) in
    let up : At e1 (m / 2) = (omega (arith, low, two), omega (arith, high, two, four)) in
    let s = f m (omega (arith, low, two, p1)) u in
    let used : tree (m / 2) ≢ unused = λ z. absurd (cc (s, z)) in
    let other : n ≢ m / 2 = λ z. let t' = sym (ap tree z) ∙ t in absurd (cc (s, t')) in
    let (inside, beyond) = parent_block e1 m (low, high) (omega (arith, h, same)) in
    rw same
      (elim (apart_below tree d n f a t k e1 (m / 2) refl up (omega (arith, h, same)) used other) [
        | inl left ↦ inl (omega (arith, left, inside))
        | inr right ↦ inr (omega (arith, right, beyond))
      ])

swapped : (d n e m : ℕ) → AreApart d n e m → AreApart e m d n
swapped d n e m (inl h) = inr h
swapped d n e m (inr h) = inl h

-- Two allocated nodes of a forest have no page in common.
pub alloc-AreApart :
    (tree : ℕ → Node) (d n e m : ℕ)
    → IsForest tree
    → At d n
    → At e m
    → d ≤ max_order
    → e ≤ max_order
    → tree n ≡ alloc
    → tree m ≡ alloc
    → n ≢ m
    → AreApart d n e m
alloc-AreApart tree d n e m f a b h k t u q = elim (Bool-cases (leb d e)) [
  | inl below ↦
      let l : d ≤ e = ground (arith, below) in
      apart_below tree d n f a t (e - d) e m (omega (arith, l)) b k (λ z. absurd (cc (u, z))) q
  | inr above ↦
      let l : e ≤ d = ground (arith, above) in
      swapped e m d n (
        apart_below tree e m f b u (d - e) d n (omega (arith, l)) a h (λ z. absurd (cc (t, z)))
          (λ z. q (sym z)))
]
