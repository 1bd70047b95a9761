-- ===== src/Vma/View.antt =====
-- What a list of areas means: which area covers an address, and when the list is in order.
use enclave_os.Prelude.{
  ℕ, ◌≤◌, ◌<◌, ◌≡◌, refl, Bool, ◌&&◌, Option, none, some, List, [], ◌∷◌, ◌++◌, arith, ltb, leb,
  ◌==◌, if◌then◌else◌, or_else,
}
use enclave_os.Vma.{VmaNode}

abbrev pub in_range : ℕ → ℕ → ℕ → Bool
in_range start end a = leb start a && ltb a end

-- The first area that covers `a`, by a search of the whole list.
abbrev pub covering : List VmaNode → ℕ → Option VmaNode
covering [] a = none
covering (v ∷ vs) a = if in_range v.start v.end a then some v else covering vs a

-- The flags that the list gives to the address `a`.
abbrev pub flags_at : List VmaNode → ℕ → Option ℕ
flags_at [] a = none
flags_at (v ∷ vs) a = if in_range v.start v.end a then some v.flags else flags_at vs a

-- From `lo` on the areas are nonempty, sorted by address, and disjoint.
abbrev pub Above : ℕ → List VmaNode → Type 0
Above lo [] = Unit
Above lo (v ∷ vs) = (lo ≤ v.start) × (v.start < v.end) × Above v.end vs

-- The list without the node `ignore`.
abbrev pub without : ℕ → List VmaNode → List VmaNode
without ignore [] = []
without ignore (v ∷ vs) = if v.node == ignore then without ignore vs else v ∷ without ignore vs

pub Above-mono : (lo lo' : ℕ) (vs : List VmaNode) → lo ≤ lo' → Above lo' vs → Above lo vs
Above-mono lo lo' [] h w = tt
Above-mono lo lo' (v ∷ vs) h w = (omega arith, w.1, w.2)

-- Nothing is mapped below the first area.
pub covering-below : (lo a : ℕ) (vs : List VmaNode) → Above lo vs → a < lo → covering vs a ≡ none
covering-below lo a [] w h = refl
covering-below lo a (v ∷ vs) w h = ground (arith, covering-below v.end a vs w.2)

pub flags_at-below : (lo a : ℕ) (vs : List VmaNode) → Above lo vs → a < lo → flags_at vs a ≡ none
flags_at-below lo a [] w h = refl
flags_at-below lo a (v ∷ vs) w h = ground (arith, flags_at-below v.end a vs w.2)

pub flags_at-append :
    (us vs : List VmaNode) (a : ℕ) → flags_at (us ++ vs) a ≡ or_else (flags_at us a) (flags_at vs a)
flags_at-append [] vs a = refl
flags_at-append (u ∷ us) vs a = ground (arith, flags_at-append us vs a)
