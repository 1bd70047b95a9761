-- ===== src/Vma/Edit/Order.antt =====
-- The order of the list across the edits of vma.c.
use enclave_os.Prelude.{ℕ, ◌≡◌, ◌≤◌, ◌<◌, inl, inr, some, List, [], ◌∷◌, ◌++◌, arith}
use enclave_os.Vma.{VmaNode, Nodes}
use enclave_os.Vma.View.{Above, Above-mono}
use enclave_os.Vma.Edit.{
  Round, go, walk, unmap_round, protect_round, vma_unmap_range, vma_protect_range,
}
use enclave_os.Vma.Edit.Points.{Round-cases, walk-go, walk-stop}

-- From `lo` on the nodes of a round are in order, and they end by `hi`.
abbrev Within : ℕ → ℕ → List VmaNode → Type 0
Within lo hi [] = lo ≤ hi
Within lo hi (v ∷ vs) = (lo ≤ v.start) × (v.start < v.end) × Within v.end hi vs

Above-append :
    (lo hi : ℕ) (us vs : List VmaNode) → Within lo hi us → Above hi vs → Above lo (us ++ vs)
Above-append lo hi [] vs w a = Above-mono lo hi vs w a
Above-append lo hi (u ∷ us) vs w a = (w.0, w.1, Above-append u.end hi us vs w.2 a)

-- A loop whose rounds replace an area by pieces of it keeps the order.
module _ (step : VmaNode → Nodes → Round)
    (round : (v : VmaNode) (h h' : Nodes) (front : List VmaNode)
      → v.start < v.end
      → step v h ≡ go front h'
      → Within v.start v.end front) where
  walk-Above :
      (lo : ℕ) (vs : List VmaNode) (h : Nodes) → Above lo vs → Above lo (walk step vs h).vmas
  unfolding walk
  walk-Above lo [] h w = tt
  walk-Above lo (v ∷ vs) h w = elim (Round-cases (step v h)) [
    | inl (front, h', k) ↦ rw (walk-go step v vs h h' front k) (
        Above-mono lo v.start _ w.0 (
          Above-append v.start v.end front (walk step vs h').vmas (round v h h' front w.1 k)
            (walk-Above v.end vs h' w.2)))
    | inr (h', k) ↦ rw (walk-stop step v vs h h' k) w
  ]

unmap_round-Within :
    (start end : ℕ)
    → start ≤ end
    → (v : VmaNode) (h h' : Nodes) (front : List VmaNode) → v.start < v.end
    → unmap_round start end v h ≡ go front h'
    → Within v.start v.end front
unfolding unmap_round
unmap_round-Within start end q v h h' front p e = ground arith

protect_round-Within :
    (start end new : ℕ)
    → start < end
    → (v : VmaNode) (h h' : Nodes) (front : List VmaNode) → v.start < v.end
    → protect_round start end new v h ≡ go front h'
    → Within v.start v.end front
unfolding protect_round
protect_round-Within start end new q v h h' front p e = ground arith

-- Where the range does not end before its start, vma_unmap_range keeps a list sorted, its areas
-- nonempty and disjoint, whatever it returns.
pub vma_unmap_range-Above :
    (vs : List VmaNode) (start end : ℕ) (h : Nodes)
    → Above 0 vs
    → start ≤ end
    → Above 0 (vma_unmap_range (some vs) start end h).vmas
unfolding vma_unmap_range
vma_unmap_range-Above vs start end h w q =
    walk-Above (unmap_round start end) (unmap_round-Within start end q) 0 vs h w

-- For a nonempty range vma_protect_range keeps a list sorted, its areas nonempty and disjoint,
-- whatever it returns.
pub vma_protect_range-Above :
    (vs : List VmaNode) (start end new : ℕ) (h : Nodes)
    → Above 0 vs
    → start < end
    → Above 0 (vma_protect_range (some vs) start end new h).vmas
unfolding vma_protect_range
vma_protect_range-Above vs start end new h w q =
    walk-Above (protect_round start end new) (protect_round-Within start end new q) 0 vs h w
