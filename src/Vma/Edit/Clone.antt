-- ===== src/Vma/Edit/Clone.antt =====
-- vma_clone and vma_destroy_all: the child's list and its nodes.
use enclave_os.Prelude.{
  ℕ, ◌+◌, ◌≡◌, ◌≢◌, ◌≤◌, ◌<◌, refl, sym, ap, ◌∙◌, some, List, [], ◌∷◌, ◌++◌, arith,
}
use mathlib.Core.List.{append_assoc, append-nil}
use enclave_os.Kerrno.{success, enomem}
use enclave_os.Vma.{
  VmaNode, Nodes, kfree_node, kmalloc_node, after_kmalloc, spend, vma_insert, insert_after,
  page_down, page_up, kernel_space_start,
}
use enclave_os.Vma.View.{Above}
use enclave_os.Vma.Edit.{edited, vma_add, clone_loop, vma_clone, vma_destroy_all}
use enclave_os.Vma.Edit.Add.{page_node, vma_add-accepted, vma_add-unchanged}
use enclave_os.Vma.Edit.Balance.{linked, unlinked, unlinked-spend}

-- The areas of the list, without the addresses of the nodes.
abbrev pub areas : List VmaNode → List (ℕ × ℕ × ℕ)
areas [] = []
areas (v ∷ vs) = (v.start, v.end, v.flags) ∷ areas vs

-- Whole pages below the kernel.
abbrev pub IsUser : List VmaNode → Type 0
IsUser [] = Unit
IsUser (v ∷ vs) =
    (page_down v.start ≡ v.start)
    × (page_down v.end ≡ v.end)
    × (v.end ≤ kernel_space_start)
    × IsUser vs

-- The next calls of kmalloc, one for each node of the list, do not fail.
abbrev pub Supplies : List ℕ → List VmaNode → Type 0
Supplies fresh [] = Unit
Supplies fresh (v ∷ vs) = (kmalloc_node fresh ≢ 0) × Supplies (after_kmalloc fresh) vs

abbrev Starts : ℕ → List VmaNode → Type 0
Starts lo [] = Unit
Starts lo (v ∷ vs) = (v.start < lo) × Starts lo vs

Starts-append :
    (lo hi : ℕ) (vs : List VmaNode) (n : VmaNode)
    → Starts lo vs
    → lo ≤ hi
    → n.start < hi
    → Starts hi (vs ++ n ∷ [])
Starts-append lo hi [] n s h k = (k, tt)
Starts-append lo hi (v ∷ vs) n s h k = (omega arith, Starts-append lo hi vs n s.1 h k)

insert_after-last :
    (n : VmaNode) (vs : List VmaNode) → Starts n.start vs → insert_after n vs ≡ vs ++ n ∷ []
unfolding insert_after
insert_after-last n [] s = refl
insert_after-last n (v ∷ vs) s = ground (arith, insert_after-last n vs s.1)

vma_insert-last :
    (lo : ℕ) (n : VmaNode) (vs : List VmaNode)
    → Starts lo vs
    → lo ≤ n.start
    → vma_insert n vs ≡ vs ++ n ∷ []
unfolding vma_insert
vma_insert-last lo n [] s h = refl
vma_insert-last lo n (v ∷ vs) s h = ground (arith, insert_after-last n vs (weaken vs s.1))
  where
    weaken : (us : List VmaNode) → Starts lo us → Starts n.start us
    weaken [] t = tt
    weaken (u ∷ us) t = (omega arith, weaken us t.1)

areas-append : (us vs : List VmaNode) → areas (us ++ vs) ≡ areas us ++ areas vs
areas-append [] vs = refl
areas-append (u ∷ us) vs = ap (λ k. (u.start, u.end, u.flags) ∷ k) (areas-append us vs)

abbrev copied : VmaNode → Nodes → VmaNode
copied v h = record v { node = kmalloc_node h.fresh }

add_copy :
    (lo : ℕ) (v : VmaNode) (child : List VmaNode) (h : Nodes)
    → Starts lo child
    → lo ≤ v.start
    → v.start < v.end
    → page_down v.start ≡ v.start
    → page_down v.end ≡ v.end
    → v.end ≤ kernel_space_start
    → kmalloc_node h.fresh ≢ 0
    → vma_add (some child) v.start v.end v.flags h
      ≡ edited success (child ++ copied v h ∷ []) (spend h)
add_copy lo v child h s a b c d e f =
    vma_add-accepted child v.start v.end v.flags h f b e
    ∙ ap (λ l. edited success l (spend h))
        (vma_insert-last lo (page_node v.start v.end v.flags h) child s (omega arith)
          ∙ ap (λ n. child ++ n ∷ []) same)
  where
    up : page_up v.end ≡ v.end
    up = omega arith

    same : page_node v.start v.end v.flags h ≡ copied v h
    same = rw (c, up)

clone_loop-cons :
    (v : VmaNode) (vs child child' : List VmaNode) (h h' : Nodes)
    → vma_add (some child) v.start v.end v.flags h ≡ edited success child' h'
    → clone_loop (v ∷ vs) child h ≡ clone_loop vs child' h'
unfolding clone_loop
clone_loop-cons v vs child child' h h' e = ground arith

-- The loop appends copies of the rest of the parent's list.
clone_loop-areas :
    (lo : ℕ) (next child : List VmaNode) (h : Nodes)
    → Above lo next
    → IsUser next
    → Starts lo child
    → Supplies h.fresh next
    → let r = clone_loop next child h in
      (r.status ≡ success) × (areas r.vmas ≡ areas child ++ areas next) × (r.nodes.freed ≡ h.freed)
unfolding clone_loop
clone_loop-areas lo [] child h w u s k = (refl, sym (append-nil (areas child)), refl)
clone_loop-areas lo (v ∷ vs) child h w u s k =
    let added = add_copy lo v child h s w.0 w.1 u.0 u.1 u.2 k.0 in
    let ih =
      clone_loop-areas v.end vs (child ++ copied v h ∷ []) (spend h) w.2 u.3
        (Starts-append lo v.end child (copied v h) s (omega arith) w.1) k.1 in
    rw (clone_loop-cons v vs child (child ++ copied v h ∷ []) h (spend h) added) (
      ih.0,
      ih.1 ∙ rw (areas-append child (copied v h ∷ []), append_assoc (areas child)) refl,
      ih.2,
    )

-- Given a node for each area, vma_clone of an ordered list of whole user pages returns 0, and the
-- child's list has the parent's areas with their flags, in their order; nothing is freed.
pub vma_clone-areas :
    (parent : List VmaNode) (h : Nodes)
    → Above 0 parent
    → IsUser parent
    → Supplies h.fresh parent
    → let r = vma_clone parent h in
      (r.status ≡ success) × (areas r.vmas ≡ areas parent) × (r.nodes.freed ≡ h.freed)
unfolding vma_clone
vma_clone-areas parent h w u k = clone_loop-areas 0 parent [] h w u tt k

module _ (p : ℕ) (nz : p ≢ 0) where
  linked-insert_after :
      (n : VmaNode) (vs : List VmaNode)
      → linked p (insert_after n vs) ≡ linked p (n ∷ []) + linked p vs
  unfolding insert_after
  linked-insert_after n [] = omega arith
  linked-insert_after n (v ∷ vs) = ground (arith, linked-insert_after n vs)

  linked-vma_insert :
      (n : VmaNode) (vs : List VmaNode)
      → linked p (vma_insert n vs) ≡ linked p (n ∷ []) + linked p vs
  unfolding vma_insert
  linked-vma_insert n [] = omega arith
  linked-vma_insert n (v ∷ vs) = ground (arith, linked-insert_after n vs)

  vma_add-linked :
      (vs : List VmaNode) (start end flags : ℕ) (h : Nodes)
      → let r = vma_add (some vs) start end flags h in
        linked p r.vmas + unlinked p r.nodes ≡ linked p vs + unlinked p h
  unfolding vma_add
  vma_add-linked vs start end flags h =
      ground (arith, unlinked-spend p h nz, linked-vma_insert (page_node start end flags h) vs)

  -- vma_destroy_all gives each node of the list back to kfree, once.
  pub vma_destroy_all-unlinked :
      (vs : List VmaNode) (h : Nodes)
      → unlinked p (vma_destroy_all vs h) ≡ linked p vs + unlinked p h
  unfolding vma_destroy_all
  vma_destroy_all-unlinked [] h = omega arith
  vma_destroy_all-unlinked (v ∷ vs) h =
      omega (arith, vma_destroy_all-unlinked vs (kfree_node v.node h))

  clone_loop-linked :
      (next child : List VmaNode) (h : Nodes)
      → let r = clone_loop next child h in
        (linked p r.vmas + unlinked p r.nodes ≡ linked p child + unlinked p h)
        × (r.status ≢ success → (r.status ≡ enomem) × (r.vmas ≡ []))
  unfolding clone_loop
  clone_loop-linked [] child h = (refl, λ n. absurd (n refl))
  clone_loop-linked (v ∷ vs) child h =
      let added = vma_add (some child) v.start v.end v.flags h in
      ground (
        arith,
        vma_add-linked child v.start v.end v.flags h,
        vma_add-unchanged child v.start v.end v.flags h,
        vma_destroy_all-unlinked child added.nodes,
        clone_loop-linked vs added.vmas added.nodes,
      )

  -- Whatever vma_clone returns, each node that it got from kmalloc is linked in the child's list or
  -- has gone back to kfree, once.
  pub vma_clone-linked :
      (parent : List VmaNode) (h : Nodes)
      → let r = vma_clone parent h in linked p r.vmas + unlinked p r.nodes ≡ unlinked p h
  unfolding vma_clone
  vma_clone-linked parent h = ground (arith, clone_loop-linked parent [] h)

  -- Where vma_clone fails, it returns -ENOMEM, the child's list is empty, and each node that it got
  -- has gone back to kfree.
  pub vma_clone-failure :
      (parent : List VmaNode) (h : Nodes)
      → (vma_clone parent h).status ≢ success
      → let r = vma_clone parent h in
        (r.status ≡ enomem) × (r.vmas ≡ []) × (unlinked p r.nodes ≡ unlinked p h)
  unfolding vma_clone
  vma_clone-failure parent h n = ground (arith, clone_loop-linked parent [] h, n)
