-- ===== src/Tmpfs/Tests.antt =====
-- Runs of tmpfs.c on a small file and a directory, and the theorems on them.
use enclave_os.Prelude.{ℕ, ◌+◌, ◌≡◌, refl, false, Option, none, some, List, [], ◌∷◌, arith}
use enclave_os.Vma.{Nodes}
use enclave_os.Tmpfs.{
  Buffer, FileData, TmpFile, tmpfs_read, Written, tmpfs_write, write_data, store, grown_capacity,
  power_loop,
}
use enclave_os.Tmpfs.Bytes.{
  IsValid, byte_at, IsWritten, IsRead, tmpfs_write-patched, tmpfs_read-slice, tmpfs_write-overruns,
}
use enclave_os.Tmpfs.Dir.{tree, Siblings, last, next, tmpfs_create}
use enclave_os.Tmpfs.Dir.Names.{IsUndone, tmpfs_unlink-tmpfs_create}

-- Five bytes in a buffer of eight.
abbrev fdata : FileData
fdata = record {
  address = 0xD0001008;
  block = some (record { address = 0xD0003008; bytes = λ i. 65 + i });
  size = 5;
  capacity = 8;
}

abbrev file : TmpFile
file = record { private_data = some fdata; size = 5; is_unlinked = false }

abbrev kmalloc : ℕ → Option Buffer
kmalloc n = some (record { address = 0xD0005008; bytes = λ i. 0xCC })

abbrev ones : ℕ → ℕ
ones i = 1

file-IsValid : IsValid fdata file
file-IsValid = record {
  attached = refl;
  synced = refl;
  whole = record { fits = omega arith; quota = omega arith; empty = λ e. cc };
}

-- The byte of the file at an offset after a write.
grown : Option ℕ → Written → Option ℕ
grown none w = none
grown (some i) Written.overrun = none
grown (some i) (Written.returned ret node freed) = elim node.private_data [
  | none ↦ none
  | some f ↦ byte_at f i
]

-- After three bytes at the offset 10: the old bytes, zeros, and the new ones.
sparse :
    let w = tmpfs_write kmalloc 10 3 ones file in
    (grown (some 4) w ≡ some 69)
    × (grown (some 7) w ≡ some 0)
    × (grown (some 12) w ≡ some 1)
    × (grown (some 13) w ≡ none)
unfolding tmpfs_write write_data store grown_capacity power_loop grown
sparse = (refl, refl, refl, refl)

tmpfs_write-patched_example : IsWritten 10 3 ones fdata file 7 (tmpfs_write kmalloc 10 3 ones file)
tmpfs_write-patched_example =
    tmpfs_write-patched 10 3 ones 7 kmalloc fdata file file-IsValid (omega arith)

tmpfs_read-slice_example : IsRead 2 100 fdata 1 (tmpfs_read 2 100 file)
tmpfs_read-slice_example = tmpfs_read-slice 2 100 1 fdata file file-IsValid (omega arith)

tmpfs_write-overruns_example : tmpfs_write kmalloc 0x7FFFFFFF 0x80000003 ones file ≡ Written.overrun
tmpfs_write-overruns_example =
    tmpfs_write-overruns kmalloc 0x7FFFFFFF 0x80000003 ones fdata file file-IsValid (omega arith)
      (omega arith) (omega arith)

abbrev word : List ℕ
word = b'a' ∷ b'b' ∷ []

abbrev children : Siblings
children =
    next
      (tree
        (record {
          address = 3;
          name = b'a' ∷ [];
          flags = 2;
          permissions = 0;
          private_data = none;
          is_unlinked = false;
        })
        last)
      last

abbrev heap : Nodes
heap = record { fresh = 7 ∷ 8 ∷ []; freed = [] }

tmpfs_unlink-tmpfs_create_example : IsUndone children word (tmpfs_create children word 0x1A4 heap)
tmpfs_unlink-tmpfs_create_example =
    tmpfs_unlink-tmpfs_create children word 0x1A4 heap (omega arith) (omega arith) (omega arith)
      (cc, tt) (omega arith) (omega arith)
