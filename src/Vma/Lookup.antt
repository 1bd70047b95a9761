-- ===== src/Vma/Lookup.antt =====
-- vma_find and vma_intersects against a search of the whole list.
use enclave_os.Prelude.{
  ℕ, ◌≤◌, ◌<◌, ◌≡◌, refl, ◌≢◌, ◌↔◌, ◌&&◌, true, false, none, some, List, [], ◌∷◌, arith, ltb, ◌==◌,
  if◌then◌else◌, Bool-cases, inl, inr,
}
use enclave_os.Vma.{VmaNode, find_loop, intersects_loop, vma_find, vma_intersects, page_down}
use enclave_os.Vma.View.{covering, Above, Above-mono, without, covering-below}

find_loop-covering :
    (lo page : ℕ) (vs : List VmaNode) → Above lo vs → find_loop page vs ≡ covering vs page
unfolding find_loop
find_loop-covering lo page [] w = refl
find_loop-covering lo page (v ∷ vs) w =
    ground (arith, find_loop-covering v.end page vs w.2, covering-below v.end page vs w.2)

-- On an ordered list vma_find returns the area that a search of the whole list finds for the page
-- of the address, and NULL exactly when no area covers that page.
pub vma_find-covering :
    (vs : List VmaNode) (addr : ℕ)
    → Above 0 vs
    → vma_find (some vs) addr ≡ covering vs (page_down addr)
unfolding vma_find
vma_find-covering vs addr w = find_loop-covering 0 (page_down addr) vs w

without-Above : (lo ignore : ℕ) (vs : List VmaNode) → Above lo vs → Above lo (without ignore vs)
without-Above lo ignore [] w = tt
without-Above lo ignore (v ∷ vs) w = elim (Bool-cases (v.node == ignore)) [
  | inl e ↦
      rw e
        (Above-mono lo v.end (without ignore vs) (omega arith) (without-Above v.end ignore vs w.2))
  | inr e ↦ rw e (w.0, w.1, without-Above v.end ignore vs w.2)
]

module _ (start end ignore : ℕ) where
  clear_of_false :
      (lo a : ℕ) (vs : List VmaNode)
      → Above lo vs
      → intersects_loop start end ignore vs ≡ false
      → start ≤ a
      → a < end
      → covering (without ignore vs) a ≡ none
  unfolding intersects_loop
  clear_of_false lo a [] w e h k = refl
  clear_of_false lo a (v ∷ vs) w e h k = ground (
    arith,
    clear_of_false v.end a vs w.2,
    covering-below v.end a (without ignore vs) (without-Above v.end ignore vs w.2),
  )

  -- The first address that the range shares with an area that the loop stops at.
  meeting : List VmaNode → ℕ
  meeting [] = 0
  meeting (v ∷ vs) =
      if v.node == ignore
      then meeting vs
      else if ltb start v.end && ltb v.start end
      then (if ltb v.start start then start else v.start)
      else meeting vs

  met_of_true :
      (lo : ℕ) (vs : List VmaNode)
      → Above lo vs
      → start < end
      → intersects_loop start end ignore vs ≡ true
      → (start ≤ meeting vs)
        × (meeting vs < end)
        × (covering (without ignore vs) (meeting vs) ≢ none)
  unfolding intersects_loop meeting
  met_of_true lo [] w se e = cc
  met_of_true lo (v ∷ vs) w se e = elim (Bool-cases (v.node == ignore)) [
    | inl k ↦ rw k (met_of_true v.end vs w.2 se (rw k at e))
    | inr k ↦ rw k (ground (arith, e, met_of_true v.end vs w.2 se))
  ]

  false_of_clear :
      (vs : List VmaNode)
      → Above 0 vs
      → start < end
      → ((a : ℕ) → start ≤ a → a < end → covering (without ignore vs) a ≡ none)
      → intersects_loop start end ignore vs ≡ false
  false_of_clear vs w se clear = elim (Bool-cases (intersects_loop start end ignore vs)) [
    | inl e ↦
        let (low, high, met) = met_of_true 0 vs w se e in absurd (met (clear (meeting vs) low high))
    | inr e ↦ e
  ]

-- On an ordered list vma_intersects answers false exactly when no area but the ignored node covers
-- an address of the nonempty range.
pub vma_intersects-clear :
    (vs : List VmaNode) (start end ignore : ℕ)
    → Above 0 vs
    → start < end
    → (vma_intersects (some vs) start end ignore ≡ false)
      ↔ ((a : ℕ) → start ≤ a → a < end → covering (without ignore vs) a ≡ none)
unfolding vma_intersects
vma_intersects-clear vs start end ignore w se = (
  λ e a h k. clear_of_false start end ignore 0 a vs w e h k,
  false_of_clear start end ignore vs w se,
)
