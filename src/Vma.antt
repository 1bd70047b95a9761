-- ===== src/Vma.antt =====
-- vma.c and include/vma.h: the address-sorted list of a task's virtual memory areas.
-- A list cell is a node of the linked list, with the address that kmalloc gave it.
pub mod Edit
pub mod View
pub mod Lookup
pub mod Area
mod Sample
mod Tests
use enclave_os.Prelude.{
  ℕ, ◌+◌, ◌-◌, ◌*◌, ◌/◌, ◌%◌, ◌^◌, bit_and, bit_or, Bool, true, false, ◌&&◌, ◌||◌, Option, none,
  some, List, [], ◌∷◌, ltb, leb, ◌==◌, if◌then◌else◌,
}

-- `vma_node_t`; `node` is the address of the node, and `next` is the rest of the list.
pub record VmaNode : Type 0 where
  pub node : ℕ
  pub start : ℕ
  pub end : ℕ
  pub flags : ℕ

abbrev pub user_mmap_start : ℕ
user_mmap_start = 0x40000000

abbrev pub user_mmap_max_size : ℕ
user_mmap_max_size = 0x40000000

abbrev pub kernel_space_start : ℕ
kernel_space_start = 0xC0000000

abbrev pub vma_cow : ℕ
vma_cow = 8

-- What the calls of kmalloc for a node return, in order (0 is NULL, and so is every call after
-- the last), and the nodes given to kfree, the last one first.
pub record Nodes : Type 0 where
  pub fresh : List ℕ
  pub freed : List ℕ

abbrev pub kmalloc_node : List ℕ → ℕ
kmalloc_node [] = 0
kmalloc_node (p ∷ ps) = p

abbrev pub after_kmalloc : List ℕ → List ℕ
after_kmalloc [] = []
after_kmalloc (p ∷ ps) = ps

abbrev pub spend : Nodes → Nodes
spend h = record h { fresh = after_kmalloc h.fresh }

abbrev pub kfree_node : ℕ → Nodes → Nodes
kfree_node p h = record h { freed = p ∷ h.freed }

-- `x & 0xFFFFF000` and `(x + 0xFFF) & 0xFFFFF000` on uint32_t
abbrev pub page_down : ℕ → ℕ
page_down x = x / 4096 * 4096

abbrev pub page_up : ℕ → ℕ
page_up x = (x + 0xFFF) % 2 ^ 32 / 4096 * 4096

-- `(curr->flags & VMA_COW) | new_flags`
abbrev pub with_flags : ℕ → ℕ → ℕ
with_flags new old = bit_or (bit_and old vma_cow) new

unfoldable pub intersects_loop : ℕ → ℕ → ℕ → List VmaNode → Bool
intersects_loop start end ignore [] = false
intersects_loop start end ignore (curr ∷ next) =
    let rest = intersects_loop start end ignore next in
    if curr.node == ignore
    then rest
    else if ltb start curr.end && ltb curr.start end
    then true
    else if leb end curr.start
    then false
    else rest

-- The task is NULL or its list; `ignore_vma` is a node's address, 0 for NULL.
unfoldable pub vma_intersects : Option (List VmaNode) → ℕ → ℕ → ℕ → Bool
unfolding intersects_loop
vma_intersects none start end ignore = false
vma_intersects (some vmas) start end ignore = intersects_loop start end ignore vmas

find_free_loop : ℕ → ℕ → List VmaNode → ℕ
find_free_loop size current_addr [] =
    if leb ((current_addr + size) % 2 ^ 32) (user_mmap_start + user_mmap_max_size)
    then current_addr
    else 0
find_free_loop size current_addr (curr ∷ next) =
    let skipped = find_free_loop size current_addr next in
    let moved = find_free_loop size curr.end next in
    if leb curr.end user_mmap_start
    then skipped
    else if ltb current_addr curr.start && leb size (curr.start - current_addr)
    then current_addr
    else moved

pub vma_find_free_area : Option (List VmaNode) → ℕ → ℕ
unfolding find_free_loop
vma_find_free_area none size = 0
vma_find_free_area (some vmas) size = find_free_loop size user_mmap_start vmas

unfoldable pub find_loop : ℕ → List VmaNode → Option VmaNode
find_loop page_addr [] = none
find_loop page_addr (current ∷ next) =
    let rest = find_loop page_addr next in
    if leb current.start page_addr && ltb page_addr current.end
    then some current
    else if ltb page_addr current.start
    then none
    else rest

unfoldable pub vma_find : Option (List VmaNode) → ℕ → Option VmaNode
unfolding find_loop
vma_find none addr = none
vma_find (some vmas) addr = find_loop (page_down addr) vmas

-- The new node goes before the first later node whose start is not below its own; the head of the
-- list is passed over only if its start is not above it.
insert_after : VmaNode → List VmaNode → List VmaNode
insert_after new_node [] = new_node ∷ []
insert_after new_node (next ∷ rest) =
    if ltb next.start new_node.start
    then next ∷ insert_after new_node rest
    else new_node ∷ next ∷ rest

pub vma_insert : VmaNode → List VmaNode → List VmaNode
unfolding insert_after
vma_insert new_node [] = new_node ∷ []
vma_insert new_node (head ∷ rest) =
    if ltb new_node.start head.start
    then new_node ∷ head ∷ rest
    else head ∷ insert_after new_node rest
