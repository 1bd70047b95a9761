-- ===== src/Vma/Edit/Tests.antt =====
-- Runs of the edits of vma.c on a list of three areas, and the theorems on them.
use enclave_os.Prelude.{
  Changed, ◌+◌, ◌≡◌, ◌≢◌, refl, false, none, some, [], ◌∷◌, arith, if◌then◌else◌,
}
use enclave_os.Kerrno.{success, enomem}
use enclave_os.Vma.{vma_intersects, page_down, intersects_loop, vma_insert, insert_after}
use enclave_os.Vma.View.{Above, flags_at, in_range}
use enclave_os.Vma.Edit.{
  walk, unmap_round, protect_round, clone_loop, vma_unmap_range, vma_protect_range, vma_add,
  vma_clone,
}
use enclave_os.Vma.Edit.Points.{Reflagged, vma_unmap_range-flags_at, vma_protect_range-flags_at}
use enclave_os.Vma.Edit.Order.{vma_unmap_range-Above, vma_protect_range-Above}
use enclave_os.Vma.Edit.Failure.{vma_unmap_range-atomic}
use enclave_os.Vma.Edit.Balance.{linked, unlinked, vma_protect_range-linked}
use enclave_os.Vma.Edit.Add.{Added, vma_add-Added}
use enclave_os.Vma.Edit.Clone.{areas, vma_clone-areas}
use enclave_os.Vma.Sample.{code, heap, mapped, vmas, rich, poor, empty, vmas-Above}

range_is_free : vma_intersects (some vmas) (page_down 0x5000) 0x7000 0 ≡ false
unfolding vma_intersects intersects_loop
range_is_free = refl

-- The middle of the heap is cut out with one new node.
split_heap : (vma_unmap_range (some vmas) 0x11000 0x12000 rich).vmas ≡ (
    code
    ∷ record heap { end = 0x11000 }
    ∷ record { node = 7; start = 0x12000; end = 0x18000; flags = 11 }
    ∷ mapped
    ∷ [])
unfolding vma_unmap_range walk unmap_round
split_heap = refl

split_heap-success : (vma_unmap_range (some vmas) 0x11000 0x12000 rich).status ≡ success
unfolding vma_unmap_range walk unmap_round
split_heap-success = refl

split_heap-fails : (vma_unmap_range (some vmas) 0x11000 0x12000 empty).status ≢ success
unfolding vma_unmap_range walk unmap_round
split_heap-fails = cc

protect_heap-success : (vma_protect_range (some vmas) 0x11000 0x12000 1 rich).status ≡ success
unfolding vma_protect_range walk protect_round
protect_heap-success = refl

-- With one node instead of two the second kmalloc fails, and the first node is given back.
protect_heap-gives_back :
    (vma_protect_range (some vmas) 0x11000 0x12000 1 poor).nodes.freed ≡ 7 ∷ []
unfolding vma_protect_range walk protect_round
protect_heap-gives_back = refl

clone-fails : (vma_clone vmas poor).status ≢ success
unfolding vma_clone clone_loop vma_add vma_insert insert_after
clone-fails = cc

vma_unmap_range-flags_at_example :
    flags_at (vma_unmap_range (some vmas) 0x11000 0x12000 rich).vmas 0x11800
    ≡ (if in_range 0x11000 0x12000 0x11800 then none else flags_at vmas 0x11800)
vma_unmap_range-flags_at_example =
    vma_unmap_range-flags_at vmas 0x11000 0x12000 rich 0x11800 split_heap-success

vma_unmap_range-atomic_example :
    let r = vma_unmap_range (some vmas) 0x11000 0x12000 empty in
    (r.status ≡ enomem) × (r.vmas ≡ vmas) × (r.nodes.freed ≡ [])
vma_unmap_range-atomic_example =
    vma_unmap_range-atomic vmas 0x11000 0x12000 empty vmas-Above split_heap-fails

vma_unmap_range-Above_example : Above 0 (vma_unmap_range (some vmas) 0x11000 0x12000 rich).vmas
vma_unmap_range-Above_example =
    vma_unmap_range-Above vmas 0x11000 0x12000 rich vmas-Above (omega arith)

vma_protect_range-Above_example :
    Above 0 (vma_protect_range (some vmas) 0x11000 0x12000 1 rich).vmas
vma_protect_range-Above_example =
    vma_protect_range-Above vmas 0x11000 0x12000 1 rich vmas-Above (omega arith)

vma_protect_range-flags_at_example :
    Changed
      (in_range 0x11000 0x12000 0x11800)
      (Reflagged 1)
      (flags_at vmas 0x11800)
      (flags_at (vma_protect_range (some vmas) 0x11000 0x12000 1 rich).vmas 0x11800)
vma_protect_range-flags_at_example =
    vma_protect_range-flags_at vmas 0x11000 0x12000 1 rich 0x11800 protect_heap-success

vma_protect_range-linked_example :
    let r = vma_protect_range (some vmas) 0x11000 0x12000 1 poor in
    linked 7 r.vmas + unlinked 7 r.nodes ≡ linked 7 vmas + unlinked 7 poor
vma_protect_range-linked_example =
    vma_protect_range-linked 7 (omega arith) vmas 0x11000 0x12000 poor 1

vma_add-Added_example : Added vmas 0x5000 0x6800 3 0x6C00 (vma_add (some vmas) 0x5000 0x6800 3 rich)
vma_add-Added_example =
    vma_add-Added vmas 0x5000 0x6800 3 rich 0x6C00 vmas-Above refl (omega arith) (omega arith)
      (omega arith) range_is_free

vma_clone-areas_example :
    let r = vma_clone vmas rich in
    (r.status ≡ success) × (areas r.vmas ≡ areas vmas) × (r.nodes.freed ≡ [])
vma_clone-areas_example = vma_clone-areas vmas rich vmas-Above (omega arith) (omega arith)
