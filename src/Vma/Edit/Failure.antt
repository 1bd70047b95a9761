-- ===== src/Vma/Edit/Failure.antt =====
-- When vma_unmap_range can fail, and what it has done by then.
use enclave_os.Prelude.{ℕ, ◌≡◌, ◌≢◌, ◌≤◌, ◌<◌, refl, ◌⊎◌, inl, inr, some, List, [], ◌∷◌, arith}
use enclave_os.Kerrno.{success, enomem}
use enclave_os.Vma.{VmaNode, Nodes, kmalloc_node}
use enclave_os.Vma.View.{Above}
use enclave_os.Vma.Edit.{go, stop, walk, unmap_round, vma_unmap_range}
use enclave_os.Vma.Edit.Points.{Round-cases, walk-go, walk-stop}

module _ (start end : ℕ) where
  stop_above :
      (v : VmaNode) (h h' : Nodes)
      → unmap_round start end v h ≡ stop h'
      → (v.start < start) × (end < v.end) × (kmalloc_node h.fresh ≡ 0) × (h'.freed ≡ h.freed)
  unfolding unmap_round
  stop_above v h h' e = ground arith

  skip_below : (v : VmaNode) (h : Nodes) → v.end ≤ start → unmap_round start end v h ≡ go (v ∷ []) h
  unfolding unmap_round
  skip_below v h e = ground arith

  skip_above : (v : VmaNode) (h : Nodes) → end ≤ v.start → unmap_round start end v h ≡ go (v ∷ []) h
  unfolding unmap_round
  skip_above v h e = ground arith

  spends_last :
      (v : VmaNode) (h h' : Nodes) (front : List VmaNode)
      → unmap_round start end v h ≡ go front h'
      → (h'.fresh ≡ h.fresh) ⊎ (end < v.end)
  unfolding unmap_round
  spends_last v h h' front e = ground arith

  -- Behind the range the loop only passes on.
  behind_success :
      (lo : ℕ) (vs : List VmaNode) (h : Nodes)
      → Above lo vs
      → end ≤ lo
      → (walk (unmap_round start end) vs h).status ≡ success
  unfolding walk
  behind_success lo [] h w q = refl
  behind_success lo (v ∷ vs) h w q =
      rw (walk-go (unmap_round start end) v vs h h (v ∷ []) (skip_above v h (omega arith)))
        (behind_success v.end vs h w.2 (omega arith))

  success_of_fresh :
      (lo : ℕ) (vs : List VmaNode) (h : Nodes)
      → Above lo vs
      → kmalloc_node h.fresh ≢ 0
      → (walk (unmap_round start end) vs h).status ≡ success
  unfolding walk
  success_of_fresh lo [] h w n = refl
  success_of_fresh lo (v ∷ vs) h w n = elim (Round-cases (unmap_round start end v h)) [
    | inl (front, h', k) ↦
        rw (walk-go (unmap_round start end) v vs h h' front k) (elim (spends_last v h h' front k) [
          | inl same ↦ success_of_fresh v.end vs h' w.2 (rw same n)
          | inr past ↦ behind_success v.end vs h' w.2 (omega arith)
        ])
    | inr (h', k) ↦ absurd (n (stop_above v h h' k).2)
  ]

  -- A failure is met at an area that starts below the range, before anything has been changed.
  unchanged :
      (lo : ℕ) (vs : List VmaNode) (h : Nodes)
      → Above lo vs
      → (walk (unmap_round start end) vs h).status ≢ success
      → let r = walk (unmap_round start end) vs h in
        (lo < start) × (r.status ≡ enomem) × (r.vmas ≡ vs) × (r.nodes.freed ≡ h.freed)
  unfolding walk
  unchanged lo [] h w n = absurd (n refl)
  unchanged lo (v ∷ vs) h w n = elim (Round-cases (unmap_round start end v h)) [
    | inl (front, h', k) ↦
        let run = walk-go (unmap_round start end) v vs h h' front k in
        ground (arith, run, k, skip_below v h, unchanged v.end vs h' w.2 (rw run at n))
    | inr (h', k) ↦
        ground (arith, walk-stop (unmap_round start end) v vs h h' k, stop_above v h h' k)
  ]

module _ (vs : List VmaNode) (start end : ℕ) (h : Nodes) where
  -- On an ordered list vma_unmap_range needs at most one new node: where the next call of kmalloc
  -- returns one, it returns 0.
  pub vma_unmap_range-success :
      Above 0 vs
      → kmalloc_node h.fresh ≢ 0
      → (vma_unmap_range (some vs) start end h).status ≡ success
  unfolding vma_unmap_range
  vma_unmap_range-success w n = success_of_fresh start end 0 vs h w n

  -- On an ordered list a failure of vma_unmap_range is -ENOMEM, and it is atomic: the list is the
  -- one before the call, and no node has been freed.
  pub vma_unmap_range-atomic :
      Above 0 vs
      → (vma_unmap_range (some vs) start end h).status ≢ success
      → let r = vma_unmap_range (some vs) start end h in
        (r.status ≡ enomem) × (r.vmas ≡ vs) × (r.nodes.freed ≡ h.freed)
  unfolding vma_unmap_range
  vma_unmap_range-atomic w n =
      let (low, s, same, f) = unchanged start end 0 vs h w n in (s, same, f)
