-- ===== src/Heap/Tests.antt =====
-- Runs of heap.c from the state of heap_init, and the theorems on them.
use enclave_os.Prelude.{◌≡◌, refl, arith}
use enclave_os.Heap.{
  free, alloc, header_magic, Heap, heap_init, kmalloc, kfree, find_free, level_loop, place,
  split_loop, get_depth, depth_loop, merge_loop,
}
use enclave_os.Heap.Bounds.{InPool, kmalloc-InPool}
use enclave_os.Heap.Forest.{IsForest}
use enclave_os.Heap.Merge.{Merged}
use enclave_os.Heap.Release.{node_of, Released, kfree-Released}
use enclave_os.Heap.Return.{kfree-kmalloc}
use enclave_os.Heap.Separate.{Separate, kmalloc-IsForest, kmalloc-Separate}

abbrev fresh : Heap
fresh = heap_init (λ a. record { size = 0; magic = 0 })

-- The first block is the first page of the pool, the second one its buddy.
first_block : (kmalloc 100 fresh).0 ≡ 0xD0000008
unfolding heap_init kmalloc find_free level_loop place split_loop get_depth depth_loop
first_block = refl

second_block : (kmalloc 4000 (kmalloc 100 fresh).1).0 ≡ 0xD0001008
unfolding heap_init kmalloc find_free level_loop place split_loop get_depth depth_loop
second_block = refl

-- After the only block has been freed, all levels have merged again.
merged : (kfree 0xD0000008 (kmalloc 100 fresh).1).tree 1 ≡ free
unfolding heap_init kmalloc find_free level_loop place split_loop get_depth depth_loop kfree
    merge_loop
merged = refl

kmalloc-InPool_example : InPool 100 (kmalloc 100 fresh).0 (kmalloc 100 fresh).1
kmalloc-InPool_example = kmalloc-InPool 100 fresh (rw first_block (omega arith))

fresh-IsForest : IsForest fresh.tree
unfolding heap_init
fresh-IsForest = λ n low used. ground (arith, low, used)

first_alloc : (kmalloc 100 fresh).1.tree 32768 ≡ alloc
unfolding heap_init kmalloc find_free level_loop place split_loop get_depth depth_loop
first_alloc = refl

kmalloc-Separate_example :
    Separate 4000 32768 15
      (kmalloc 4000 (kmalloc 100 fresh).1).0
      (kmalloc 4000 (kmalloc 100 fresh).1).1
kmalloc-Separate_example =
    kmalloc-Separate 4000 32768 15 (kmalloc 100 fresh).1 (kmalloc-IsForest 100 fresh fresh-IsForest)
      first_alloc (omega arith, omega arith) (omega arith) (rw second_block (omega arith))

kfree-kmalloc_example : Merged fresh.tree (kfree (kmalloc 100 fresh).0 (kmalloc 100 fresh).1).tree
kfree-kmalloc_example = kfree-kmalloc 100 fresh fresh-IsForest (rw first_block (omega arith))

first_magic : ((kmalloc 100 fresh).1.headers 0xD0000000).magic ≡ header_magic
unfolding heap_init kmalloc find_free level_loop place split_loop get_depth depth_loop
first_magic = refl

first_node : node_of 0xD0000008 (kmalloc 100 fresh).1 ≡ 32768
unfolding heap_init kmalloc find_free level_loop place split_loop get_depth depth_loop
first_node = refl

kfree-Released_example :
    Released
      (node_of 0xD0000008 (kmalloc 100 fresh).1)
      (kmalloc 100 fresh).1.tree
      (kfree 0xD0000008 (kmalloc 100 fresh).1).tree
kfree-Released_example =
    kfree-Released 0xD0000008 (kmalloc 100 fresh).1 (kmalloc-IsForest 100 fresh fresh-IsForest)
      (omega arith) (omega arith) (omega arith) first_magic (rw first_node first_alloc)
