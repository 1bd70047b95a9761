-- ===== src/Vma/Edit/Add.antt =====
-- vma_add: where the new area goes, and what the list maps afterwards.
use enclave_os.Prelude.{
  ℕ, ◌≡◌, ◌≢◌, ◌≤◌, ◌<◌, refl, ◌⊎◌, inr, false, some, List, [], ◌∷◌, arith, if◌then◌else◌,
}
use enclave_os.Kerrno.{success, enomem, einval}
use enclave_os.Vma.{
  VmaNode, Nodes, spend, kmalloc_node, vma_insert, insert_after, page_down, page_up,
  kernel_space_start, vma_intersects, intersects_loop,
}
use enclave_os.Vma.View.{Above, flags_at, in_range}
use enclave_os.Vma.Edit.{Edited, edited, vma_add}
use enclave_os.Vma.Edit.Balance.{linked}

-- Each area ends before the range or starts behind it.
abbrev Apart : ℕ → ℕ → List VmaNode → Type 0
Apart start end [] = Unit
Apart start end (v ∷ vs) = ((v.end ≤ start) ⊎ (end ≤ v.start)) × Apart start end vs

Apart-Above : (start end lo : ℕ) (vs : List VmaNode) → Above lo vs → end ≤ lo → Apart start end vs
Apart-Above start end lo [] w h = tt
Apart-Above start end lo (v ∷ vs) w h =
    (inr (omega arith), Apart-Above start end v.end vs w.2 (omega arith))

intersects_loop-Apart :
    (start end lo : ℕ) (vs : List VmaNode)
    → Above lo vs
    → linked 0 vs ≡ 0
    → intersects_loop start end 0 vs ≡ false
    → Apart start end vs
unfolding intersects_loop
intersects_loop-Apart start end lo [] w n e = tt
intersects_loop-Apart start end lo (v ∷ vs) w n e =
    ground (arith, intersects_loop-Apart start end v.end vs w.2, Apart-Above start end v.end vs w.2)

module _ (new : VmaNode) (nonempty : new.start < new.end) where
  insert_after-Above :
      (lo : ℕ) (vs : List VmaNode)
      → Above lo vs
      → lo ≤ new.start
      → Apart new.start new.end vs
      → Above lo (insert_after new vs)
  unfolding insert_after
  insert_after-Above lo [] w h a = (h, nonempty, tt)
  insert_after-Above lo (v ∷ vs) w h a = ground (arith, insert_after-Above v.end vs w.2)

  vma_insert-Above :
      (vs : List VmaNode) → Above 0 vs → Apart new.start new.end vs → Above 0 (vma_insert new vs)
  unfolding vma_insert
  vma_insert-Above [] w a = omega arith
  vma_insert-Above (v ∷ vs) w a = ground (arith, insert_after-Above v.end vs w.2)

  insert_after-flags_at :
      (vs : List VmaNode) (a : ℕ)
      → Apart new.start new.end vs
      → flags_at (insert_after new vs) a
        ≡ (if in_range new.start new.end a then some new.flags else flags_at vs a)
  unfolding insert_after
  insert_after-flags_at [] a p = refl
  insert_after-flags_at (v ∷ vs) a p = ground (arith, insert_after-flags_at vs a)

  vma_insert-flags_at :
      (vs : List VmaNode) (a : ℕ)
      → Apart new.start new.end vs
      → flags_at (vma_insert new vs) a
        ≡ (if in_range new.start new.end a then some new.flags else flags_at vs a)
  unfolding vma_insert
  vma_insert-flags_at [] a p = refl
  vma_insert-flags_at (v ∷ vs) a p = ground (arith, insert_after-flags_at vs a)

page_bounds :
    (start end : ℕ)
    → start < end
    → end ≤ kernel_space_start
    → (page_down start ≤ start) × (end ≤ page_up end)
page_bounds start end h k = omega arith

abbrev pub page_node : ℕ → ℕ → ℕ → Nodes → VmaNode
page_node start end flags h = record {
  node = kmalloc_node h.fresh;
  start = page_down start;
  end = page_up end;
  flags = flags;
}

pub vma_add-accepted :
    (vs : List VmaNode) (start end flags : ℕ) (h : Nodes)
    → kmalloc_node h.fresh ≢ 0
    → start < end
    → end ≤ kernel_space_start
    → vma_add (some vs) start end flags h
      ≡ edited success (vma_insert (page_node start end flags h) vs) (spend h)
unfolding vma_add
vma_add-accepted vs start end flags h got p q = ground arith

-- What a successful vma_add does to the list and to the flags at an address.
pub record Added (vs : List VmaNode) (start end flags a : ℕ) (r : Edited) : Type 0 where
  pub status : r.status ≡ success
  pub order : Above 0 r.vmas
  pub mapped :
      flags_at r.vmas a
      ≡ (if in_range (page_down start) (page_up end) a then some flags else flags_at vs a)

module _ (vs : List VmaNode) (start end flags : ℕ) (h : Nodes) where
  -- Given a node, vma_add of a nonempty range below the kernel that vma_intersects finds free (its
  -- pages, with no node ignored) returns 0, keeps the list sorted, nonempty and disjoint, and maps
  -- exactly the pages of the range with the given flags, all other addresses as before.
  pub vma_add-Added :
      (a : ℕ)
      → Above 0 vs
      → linked 0 vs ≡ 0
      → kmalloc_node h.fresh ≢ 0
      → start < end
      → end ≤ kernel_space_start
      → vma_intersects (some vs) (page_down start) (page_up end) 0 ≡ false
      → Added vs start end flags a (vma_add (some vs) start end flags h)
  unfolding vma_intersects
  vma_add-Added a w n got h1 h2 e =
      let new = page_node start end flags h in
      let apart = intersects_loop-Apart (page_down start) (page_up end) 0 vs w n e in
      let (low, high) = page_bounds start end h1 h2 in
      let nonempty : new.start < new.end = omega arith in
      rw (vma_add-accepted vs start end flags h got h1 h2) (record {
        status = refl;
        order = vma_insert-Above new nonempty vs w apart;
        mapped = vma_insert-flags_at new nonempty vs a apart;
      })

  -- vma_add refuses a range that begins or ends in kernel space with -EINVAL, fails with -ENOMEM
  -- where kmalloc returns NULL, and in both cases leaves the list as it was and frees nothing.
  pub vma_add-unchanged :
      let r = vma_add (some vs) start end flags h in
      (kernel_space_start ≤ start → r.status ≡ einval)
      × (kernel_space_start < end → r.status ≡ einval)
      × (start < kernel_space_start
          → end ≤ kernel_space_start
          → kmalloc_node h.fresh ≡ 0
          → r.status ≡ enomem)
      × (r.status ≢ success → (r.vmas ≡ vs) × (r.nodes.freed ≡ h.freed))
  unfolding vma_add
  vma_add-unchanged = ground arith
