-- ===== src/Vma/Edit/Balance.antt =====
-- The nodes of the list across the edits of vma.c.
use enclave_os.Prelude.{
  ℕ, ◌+◌, ◌≡◌, ◌≢◌, refl, inl, inr, some, List, [], ◌∷◌, ◌++◌, arith, ◌==◌, if◌then◌else◌,
}
use enclave_os.Vma.{VmaNode, Nodes, kmalloc_node, after_kmalloc, spend}
use enclave_os.Vma.Edit.{
  Round, go, stop, walk, unmap_round, vma_unmap_range, protect_round, vma_protect_range,
}
use enclave_os.Vma.Edit.Points.{Round-cases, walk-go, walk-stop}

abbrev pub count : ℕ → List ℕ → ℕ
count p [] = 0
count p (q ∷ qs) = (if q == p then 1 else 0) + count p qs

-- How many nodes of the list stand at the address `p`.
abbrev pub linked : ℕ → List VmaNode → ℕ
linked p [] = 0
linked p (v ∷ vs) = (if v.node == p then 1 else 0) + linked p vs

-- How often kmalloc will still give the address, or kfree has taken it back.
abbrev pub unlinked : ℕ → Nodes → ℕ
unlinked p h = count p h.fresh + count p h.freed

pub linked-append : (p : ℕ) (us vs : List VmaNode) → linked p (us ++ vs) ≡ linked p us + linked p vs
linked-append p [] vs = omega arith
linked-append p (u ∷ us) vs = omega (arith, linked-append p us vs)

count-after_kmalloc :
    (p : ℕ) (fresh : List ℕ)
    → p ≢ 0
    → count p (after_kmalloc fresh) + (if kmalloc_node fresh == p then 1 else 0) ≡ count p fresh
count-after_kmalloc p [] n = ground arith
count-after_kmalloc p (q ∷ qs) n = omega arith

pub unlinked-spend :
    (p : ℕ) (h : Nodes)
    → p ≢ 0
    → unlinked p (spend h) + (if kmalloc_node h.fresh == p then 1 else 0) ≡ unlinked p h
unlinked-spend p h n = omega (arith, count-after_kmalloc p h.fresh n)

module _ (p : ℕ) (nz : p ≢ 0) where
  -- A loop whose rounds keep the count of the address keeps it.
  module _ (step : VmaNode → Nodes → Round)
      (kept : (v : VmaNode) (h h' : Nodes) (front : List VmaNode)
        → step v h ≡ go front h'
        → linked p front + unlinked p h' ≡ linked p (v ∷ []) + unlinked p h)
      (stopped : (v : VmaNode) (h h' : Nodes)
        → step v h ≡ stop h'
        → unlinked p h' ≡ unlinked p h) where
    walk-linked :
        (vs : List VmaNode) (h : Nodes)
        → let r = walk step vs h in
          linked p r.vmas + unlinked p r.nodes ≡ linked p vs + unlinked p h
    unfolding walk
    walk-linked [] h = refl
    walk-linked (v ∷ vs) h = elim (Round-cases (step v h)) [
      | inl (front, h', k) ↦ rw (walk-go step v vs h h' front k) (
          omega (
            arith,
            linked-append p front (walk step vs h').vmas,
            kept v h h' front k,
            walk-linked vs h',
          ))
      | inr (h', k) ↦ rw (walk-stop step v vs h h' k) (omega (arith, stopped v h h' k))
    ]

  module _ (start end : ℕ) (v : VmaNode) (h h' : Nodes) where
    unmap_round-go :
        (front : List VmaNode)
        → unmap_round start end v h ≡ go front h'
        → linked p front + unlinked p h' ≡ linked p (v ∷ []) + unlinked p h
    unfolding unmap_round
    unmap_round-go front e = ground (arith, unlinked-spend p h nz)

    unmap_round-stop : unmap_round start end v h ≡ stop h' → unlinked p h' ≡ unlinked p h
    unfolding unmap_round
    unmap_round-stop e = ground (arith, unlinked-spend p h nz)

    protect_round-go :
        (new : ℕ) (front : List VmaNode)
        → protect_round start end new v h ≡ go front h'
        → linked p front + unlinked p h' ≡ linked p (v ∷ []) + unlinked p h
    unfolding protect_round
    protect_round-go new front e =
        ground (arith, unlinked-spend p h nz, unlinked-spend p (spend h) nz)

    protect_round-stop :
        (new : ℕ) → protect_round start end new v h ≡ stop h' → unlinked p h' ≡ unlinked p h
    unfolding protect_round
    protect_round-stop new e = ground (arith, unlinked-spend p h nz, unlinked-spend p (spend h) nz)

  module _ (vs : List VmaNode) (start end : ℕ) (h : Nodes) where
    -- Whatever vma_unmap_range returns, each address that is not NULL stands in the list, in the
    -- nodes that kmalloc still gives and in those that kfree got as often as before: no node is
    -- leaked, linked twice, or freed while it is linked.
    pub vma_unmap_range-linked :
        let r = vma_unmap_range (some vs) start end h in
        linked p r.vmas + unlinked p r.nodes ≡ linked p vs + unlinked p h
    unfolding vma_unmap_range
    vma_unmap_range-linked =
        walk-linked (unmap_round start end) (unmap_round-go start end) (unmap_round-stop start end)
          vs h

    -- Whatever vma_protect_range returns, each address that is not NULL stands in the list, in the
    -- nodes that kmalloc still gives and in those that kfree got as often as before: also where it
    -- gets the first of two nodes and not the second one, no node is leaked.
    pub vma_protect_range-linked :
        (new : ℕ)
        → let r = vma_protect_range (some vs) start end new h in
          linked p r.vmas + unlinked p r.nodes ≡ linked p vs + unlinked p h
    unfolding vma_protect_range
    vma_protect_range-linked new =
        walk-linked (protect_round start end new)
          (λ v k k' f e. protect_round-go start end v k k' new f e)
          (λ v k k' e. protect_round-stop start end v k k' new e) vs h
