-- ===== src/Tmpfs.antt =====
-- tmpfs.c: the callbacks of a file of the in-memory file system. The bytes of a buffer are a
-- function of the offset; the block that kmalloc returns for a size is an argument, none for NULL,
-- and its bytes are whatever they were. A memset or memcpy past the end of a buffer is the result
-- `overrun`.
pub mod Bytes
pub mod Dir
mod Tests
use enclave_os.Prelude.{
  ℕ, zero, suc, ◌+◌, ◌-◌, ◌*◌, ◌/◌, ◌%◌, ◌^◌, Bool, true, false, ◌&&◌, ◌||◌, Option, none, some,
  List, [], ◌∷◌, ltb, leb, ◌==◌, if◌then◌else◌,
}
use enclave_os.Prelude.Int.{ℤ, pos, sub_ℕ}

-- A block of the heap.
pub record Buffer : Type 0 where
  pub address : ℕ
  pub bytes : ℕ → ℕ

-- `tmpfs_file_data_t`, at its address; `block` is its `data`.
pub record FileData : Type 0 where
  pub address : ℕ
  pub block : Option Buffer
  pub size : ℕ
  pub capacity : ℕ

-- The fields of a file's `vfs_node_t` that tmpfs.c uses.
pub record TmpFile : Type 0 where
  pub private_data : Option FileData
  pub size : ℕ
  pub is_unlinked : Bool

abbrev pub tmpfs_max_file_size : ℕ
tmpfs_max_file_size = 25 * 1024 * 1024

-- `O_TRUNC` in the flags
abbrev pub truncates : ℕ → Bool
truncates flags = flags / 2 ^ 9 % 2 == 1

pub tmpfs_open : ℕ → TmpFile → ℤ × TmpFile
tmpfs_open flags node =
    if truncates flags
    then (elim node.private_data [
      | none ↦ (pos 0, node)
      | some fdata ↦
          (pos 0, record node { private_data = some (record fdata { size = 0 }); size = 0 })
    ])
    else (pos 0, node)

-- A uint32_t returned as an int.
abbrev pub to_int : ℕ → ℤ
to_int n = if ltb n (2 ^ 31) then pos n else sub_ℕ 0 (2 ^ 32 - n)

-- The `n` bytes from `from` on lie in the buffer.
abbrev pub in_block : Option Buffer → ℕ → ℕ → ℕ → Bool
in_block none capacity from n = n == 0
in_block (some b) capacity from n = n == 0 || leb (from + n) capacity

abbrev pub bytes_of : Option Buffer → ℕ → ℕ
bytes_of none i = 0
bytes_of (some b) i = b.bytes i

-- What the read callback has put into the buffer of the caller: `count` bytes.
pub data Read : Type 0 where
  overrun : Read
  returned : (ret : ℤ) (count : ℕ) (bytes : ℕ → ℕ) → Read

pub tmpfs_read : ℕ → ℕ → TmpFile → Read
tmpfs_read offset size node = elim node.private_data [
  | none ↦ Read.returned (pos 0) 0 (λ i. 0)
  | some fdata ↦ elim fdata.block [
    | none ↦ Read.returned (pos 0) 0 (λ i. 0)
    | some b ↦
        let count =
          if ltb fdata.size ((offset + size) % 2 ^ 32) then fdata.size - offset else size in
        if leb fdata.size offset
        then Read.returned (pos 0) 0 (λ i. 0)
        else if in_block (some b) fdata.capacity offset count
        then Read.returned (to_int count) count (λ i. b.bytes (offset + i))
        else Read.overrun
  ]
]

-- memset(dst + from, 0, n) and memcpy(dst + from, src, n)
abbrev pub zero_fill : ℕ → ℕ → (ℕ → ℕ) → (ℕ → ℕ)
zero_fill from n dst = λ i. if leb from i && ltb i (from + n) then 0 else dst i

abbrev pub copy_bytes : ℕ → ℕ → (ℕ → ℕ) → (ℕ → ℕ) → (ℕ → ℕ)
copy_bytes from n src dst = λ i. if leb from i && ltb i (from + n) then src (i - from) else dst i

-- The power of two that the loop reaches; 20 rounds are enough below 1 MB.
pub power_loop : ℕ → ℕ → ℕ → ℕ
power_loop zero new_size capacity = capacity
power_loop (suc fuel) new_size capacity =
    let rest = power_loop fuel new_size (capacity * 2) in
    if ltb capacity new_size then rest else capacity

pub grown_capacity : ℕ → ℕ
grown_capacity new_size =
    let capacity =
      if ltb new_size (1024 * 1024) then power_loop 20 new_size 1 else new_size + new_size / 4 in
    if ltb tmpfs_max_file_size capacity then tmpfs_max_file_size else capacity

-- The result, the node afterwards, and the addresses that were given to kfree.
pub data Written : Type 0 where
  overrun : Written
  returned : (ret : ℤ) (node : TmpFile) (freed : List ℕ) → Written

abbrev pub refilled : Option Buffer → (ℕ → ℕ) → Option Buffer
refilled none bytes = none
refilled (some b) bytes = some (record b { bytes = bytes })

-- What follows the growth of the buffer.
pub store : ℕ → ℕ → ℕ → (ℕ → ℕ) → FileData → TmpFile → List ℕ → Written
store offset size new_size buffer fdata node freed =
    let gap = offset - fdata.size in
    let filled = zero_fill fdata.size gap (bytes_of fdata.block) in
    let written = copy_bytes offset size buffer filled in
    let grows = ltb fdata.size new_size in
    if in_block fdata.block fdata.capacity fdata.size gap
      && in_block fdata.block fdata.capacity offset size
    then Written.returned (to_int size)
        (record node {
          private_data = some (record fdata {
            block = refilled fdata.block written;
            size = if grows then new_size else fdata.size;
          });
          size = if grows then new_size else node.size;
        })
        freed
    else Written.overrun

-- The file's data in the block `b`, which holds `capacity` bytes.
abbrev pub moved : Buffer → ℕ → FileData → FileData
moved b capacity fdata = record fdata {
  block = some (record b { bytes = copy_bytes 0 fdata.size (bytes_of fdata.block) b.bytes });
  capacity = capacity;
}

abbrev pub old_block : Option Buffer → List ℕ
old_block none = []
old_block (some b) = b.address ∷ []

-- tmpfs_write on a file that has data.
pub write_data : (ℕ → Option Buffer) → ℕ → ℕ → (ℕ → ℕ) → FileData → TmpFile → Written
write_data kmalloc offset size buffer fdata node =
    let new_size = (offset + size) % 2 ^ 32 in
    let new_capacity = grown_capacity new_size in
    if ltb tmpfs_max_file_size new_size
    then Written.returned (sub_ℕ 0 28) node []
    else if ltb fdata.capacity new_size
    then (elim (kmalloc new_capacity) [
      | none ↦ Written.returned (sub_ℕ 0 12) node []
      | some b ↦
          if leb fdata.size new_capacity && in_block fdata.block fdata.capacity 0 fdata.size
          then store offset size new_size buffer (moved b new_capacity fdata) node
              (old_block fdata.block)
          else Written.overrun
    ])
    else store offset size new_size buffer fdata node []

pub tmpfs_write : (ℕ → Option Buffer) → ℕ → ℕ → (ℕ → ℕ) → TmpFile → Written
tmpfs_write kmalloc offset size buffer node = elim node.private_data [
  | none ↦ Written.returned (sub_ℕ 0 1) node []
  | some fdata ↦ write_data kmalloc offset size buffer fdata node
]

-- The node, and the addresses given to kfree in their order.
pub tmpfs_close : TmpFile → TmpFile × List ℕ
tmpfs_close node =
    if node.is_unlinked
    then (elim node.private_data [
      | none ↦ (node, [])
      | some fdata ↦ (
        record node { private_data = none },
        elim fdata.block [ none ↦ fdata.address ∷ [] | some b ↦ b.address ∷ fdata.address ∷ [] ],
      )
    ])
    else (node, [])
