-- ===== src/Vma/Edit.antt =====
-- vma.c: the functions that edit the list, over the calls of kmalloc and kfree that they make.
pub mod Points
pub mod Flags
pub mod Order
pub mod Failure
pub mod Balance
pub mod Add
pub mod Clone
mod Tests
use enclave_os.Prelude.{
  ℕ, ◌&&◌, ◌||◌, Option, none, some, List, [], ◌∷◌, ◌++◌, ltb, leb, ◌==◌, if◌then◌else◌,
}
use enclave_os.Kerrno.{Status, success, enomem, einval}
use enclave_os.Vma.{
  VmaNode, Nodes, kmalloc_node, spend, kfree_node, kernel_space_start, page_down, page_up,
  with_flags, vma_insert,
}

-- What one round of the two editing loops does to `curr`: the nodes that stand for it from now on,
-- or the early return of -ENOMEM, which leaves it as it is.
pub data Round : Type 0 where
  go : List VmaNode → Nodes → Round
  stop : Nodes → Round

pub record Edited : Type 0 where
  pub status : Status
  pub vmas : List VmaNode
  pub nodes : Nodes

abbrev pub edited : Status → List VmaNode → Nodes → Edited
edited s l h = record { status = s; vmas = l; nodes = h }

-- The loop over the list: it goes on behind the nodes that a round has put in place.
unfoldable pub walk : (VmaNode → Nodes → Round) → List VmaNode → Nodes → Edited
walk step [] h = edited success [] h
walk step (curr ∷ next) h = elim (step curr h) [
  | go front h' ↦ let rest = walk step next h' in record rest { vmas = front ++ rest.vmas }
  | stop h' ↦ edited enomem (curr ∷ next) h'
]

unfoldable pub unmap_round : ℕ → ℕ → VmaNode → Nodes → Round
unmap_round start end curr h =
    if leb curr.end start || leb end curr.start
    then go (curr ∷ []) h
    else if leb start curr.start && leb curr.end end
    then go [] (kfree_node curr.node h)
    else if leb start curr.start && ltb curr.start end && ltb end curr.end
    then go (record curr { start = end } ∷ []) h
    else if ltb curr.start start && ltb start curr.end && leb curr.end end
    then go (record curr { end = start } ∷ []) h
    else if ltb curr.start start && ltb end curr.end
    then (if kmalloc_node h.fresh == 0
        then stop (spend h)
        else go
            (record curr { end = start }
              ∷ record curr { node = kmalloc_node h.fresh; start = end }
              ∷ [])
            (spend h))
    else go (curr ∷ []) h

unfoldable pub vma_unmap_range : Option (List VmaNode) → ℕ → ℕ → Nodes → Edited
unfolding walk unmap_round
vma_unmap_range none start end h = edited einval [] h
vma_unmap_range (some vmas) start end h = walk (unmap_round start end) vmas h

unfoldable pub protect_round : ℕ → ℕ → ℕ → VmaNode → Nodes → Round
protect_round start end new_flags curr h =
    let new = with_flags new_flags curr.flags in
    let got = kmalloc_node h.fresh in
    if leb curr.end start || leb end curr.start
    then go (curr ∷ []) h
    else if leb start curr.start && leb curr.end end
    then go (record curr { flags = new } ∷ []) h
    else if leb start curr.start && ltb end curr.end
    then (if got == 0
        then stop (spend h)
        else go
            (record curr { end = end; flags = new } ∷ record curr { node = got; start = end } ∷ [])
            (spend h))
    else if ltb curr.start start && leb curr.end end
    then (if got == 0
        then stop (spend h)
        else go
            (record curr { end = start }
              ∷ record curr { node = got; start = start; flags = new }
              ∷ [])
            (spend h))
    else if ltb curr.start start && ltb end curr.end
    then (if got == 0
        then stop (spend h)
        else if kmalloc_node (spend h).fresh == 0
        then stop (kfree_node got (spend (spend h)))
        else go
            (record curr { end = start }
              ∷ record { node = got; start = start; end = end; flags = new }
              ∷ record curr { node = kmalloc_node (spend h).fresh; start = end }
              ∷ [])
            (spend (spend h)))
    else go (curr ∷ []) h

unfoldable pub vma_protect_range : Option (List VmaNode) → ℕ → ℕ → ℕ → Nodes → Edited
unfolding walk protect_round
vma_protect_range none start end new_flags h = edited einval [] h
vma_protect_range (some vmas) start end new_flags h =
    walk (protect_round start end new_flags) vmas h

pub vma_add : Option (List VmaNode) → ℕ → ℕ → ℕ → Nodes → Edited
vma_add none start end flags h = edited einval [] h
vma_add (some vmas) start end flags h =
    let got = kmalloc_node h.fresh in
    if leb kernel_space_start start || ltb kernel_space_start end
    then edited einval vmas h
    else if got == 0
    then edited enomem vmas (spend h)
    else edited success
        (vma_insert
          (record { node = got; start = page_down start; end = page_up end; flags = flags }) vmas)
        (spend h)

-- The list of a task that is not NULL; it is empty afterwards.
pub vma_destroy_all : List VmaNode → Nodes → Nodes
vma_destroy_all [] h = h
vma_destroy_all (current ∷ next) h = vma_destroy_all next (kfree_node current.node h)

-- The loop of vma_clone over the rest of the parent's list, with the child's list so far.
clone_loop : List VmaNode → List VmaNode → Nodes → Edited
clone_loop [] child h = edited success child h
clone_loop (current ∷ next) child h =
    let added = vma_add (some child) current.start current.end current.flags h in
    let rest = clone_loop next added.vmas added.nodes in
    elim added.status [ success ↦ rest | _ ↦ edited enomem [] (vma_destroy_all child added.nodes) ]

pub vma_clone : List VmaNode → Nodes → Edited
unfolding clone_loop
vma_clone parent h = clone_loop parent [] h
