-- ===== src/Tmpfs/Bytes.antt =====
-- tmpfs_read and tmpfs_write, byte by byte.
use native.Mathlib.Nat.{pow-suc}
use Prim.Native.Nat.{min}
use enclave_os.Prelude.{
  ℕ, zero, suc, ◌∙◌, ◌+◌, ◌-◌, ◌*◌, ◌%◌, ◌^◌, ◌≡◌, ◌≤◌, ◌<◌, refl, true, ◌&&◌, Option, none, some,
  List, [], arith, ltb, leb, if◌then◌else◌, or_else, lt→ltb, Bool-cases, Option-cases, ◌⊎◌, inl,
  inr,
}
use enclave_os.Prelude.Int.{pos, sub_ℕ}
use enclave_os.Tmpfs.{
  Buffer, FileData, TmpFile, tmpfs_max_file_size, in_block, bytes_of, Read, tmpfs_read, zero_fill,
  copy_bytes, power_loop, grown_capacity, Written, store, moved, old_block, tmpfs_write, write_data,
  tmpfs_open, truncates, refilled,
}

power_loop-ge : (fuel n c : ℕ) → n ≤ c * 2 ^ fuel → n ≤ power_loop fuel n c
unfolding power_loop
power_loop-ge zero n c h = omega arith
power_loop-ge (suc fuel) n c h =
    let same : c * 2 ^ suc fuel ≡ c * 2 * 2 ^ fuel = rw (pow-suc 2 fuel) (grind arith) in
    ground (arith, same, power_loop-ge fuel n (c * 2))

-- The new capacity holds the file and respects the quota.
grown_capacity-le :
    (n : ℕ)
    → n ≤ tmpfs_max_file_size
    → (n ≤ grown_capacity n) × (grown_capacity n ≤ tmpfs_max_file_size)
unfolding grown_capacity
grown_capacity-le n h = ground (arith, power_loop-ge 20 n 1)

-- The buffer is large enough for the file and no larger than the quota; without one the file is
-- empty.
pub record IsWhole (fdata : FileData) : Type 0 where
  pub fits : fdata.size ≤ fdata.capacity
  pub quota : fdata.capacity ≤ tmpfs_max_file_size
  pub empty : fdata.block ≡ none → fdata.capacity ≡ 0

-- The node has this data, and shows its size.
pub record IsValid (fdata : FileData) (node : TmpFile) : Type 0 where
  pub attached : node.private_data ≡ some fdata
  pub synced : node.size ≡ fdata.size
  pub whole : IsWhole fdata

-- The byte of the file at the offset `i`, none behind its end.
abbrev pub byte_at : FileData → ℕ → Option ℕ
byte_at fdata i = if ltb i fdata.size then some (bytes_of fdata.block i) else none

-- The file `old` after `size` bytes of `buffer` have been written to it at `offset`, at `i`: what
-- lies between its end and the offset reads as 0.
abbrev pub patched : ℕ → ℕ → (ℕ → ℕ) → FileData → ℕ → Option ℕ
patched offset size buffer old i =
    if leb offset i && ltb i (offset + size)
    then some (buffer (i - offset))
    else or_else (byte_at old i) (if ltb i offset then some 0 else none)

-- The result of a write is an error that changes nothing, or the write is done as a whole.
abbrev pub IsWritten : ℕ → ℕ → (ℕ → ℕ) → FileData → TmpFile → ℕ → Written → Type 0
IsWritten offset size buffer old node i Written.overrun = ⊥
IsWritten offset size buffer old node i (Written.returned ret node' freed) =
    ((ret ≡ sub_ℕ 0 28) × (node' ≡ node) × (freed ≡ []) × (tmpfs_max_file_size < offset + size))
    ⊎ ((ret ≡ sub_ℕ 0 12) × (node' ≡ node) × (freed ≡ []))
    ⊎ ((ret ≡ pos size)
        × ((new : FileData) × IsValid new node'
            × (byte_at new i ≡ patched offset size buffer old i)))

module _ (offset size : ℕ) (buffer : ℕ → ℕ) (i : ℕ) where
  in_block-le :
      (block : Option Buffer) (capacity from n : ℕ)
      → (block ≡ none → capacity ≡ 0)
      → from + n ≤ capacity
      → in_block block capacity from n ≡ true
  in_block-le none capacity from n e h = ground (arith, e refl)
  in_block-le (some b) capacity from n e h = ground arith

  bytes_of-refilled :
      (block : Option Buffer) (bytes : ℕ → ℕ) (capacity : ℕ)
      → (block ≡ none → capacity ≡ 0)
      → i < capacity
      → bytes_of (refilled block bytes) i ≡ bytes i
  bytes_of-refilled none bytes capacity e h = absurd (omega (arith, e refl))
  bytes_of-refilled (some b) bytes capacity e h = refl

  refilled-none :
      (block : Option Buffer) (bytes : ℕ → ℕ) → refilled block bytes ≡ none → block ≡ none
  refilled-none none bytes e = refl
  refilled-none (some b) bytes e = cc

  store-patched :
      (fdata : FileData) (node : TmpFile) (freed : List ℕ)
      → node.size ≡ fdata.size
      → IsWhole fdata
      → offset + size ≤ fdata.capacity
      → let r = store offset size (offset + size) buffer fdata node freed in
        IsWritten offset size buffer fdata node i r
  unfolding store
  store-patched fdata node freed s v h =
      let gap = offset - fdata.size in
      let written =
        copy_bytes offset size buffer (zero_fill fdata.size gap (bytes_of fdata.block)) in
      let over : in_block fdata.block fdata.capacity fdata.size gap ≡ true =
        in_block-le fdata.block fdata.capacity fdata.size gap v.empty (omega (arith, v.fits)) in
      let inside : in_block fdata.block fdata.capacity offset size ≡ true =
        in_block-le fdata.block fdata.capacity offset size v.empty h in
      let short : ltb size (2 ^ 31) ≡ true = lt→ltb _ _ (omega (arith, v.quota)) in
      rw (over, inside, short)
        (inr (
          inr (
            refl,
            (
              _,
              record {
                attached = refl;
                synced = ground (arith, s);
                whole = record {
                  fits = ground (arith, v.fits);
                  quota = v.quota;
                  empty = λ e. v.empty (refilled-none fdata.block written e);
                };
              },
              ground (arith, bytes_of-refilled fdata.block written fdata.capacity v.empty, v.fits),
            ),
          )))

  -- The copy into a larger block keeps the file.
  IsWritten-moved :
      (b : Buffer) (capacity : ℕ) (fdata : FileData) (node : TmpFile) (r : Written)
      → IsWritten offset size buffer (moved b capacity fdata) node i r
      → IsWritten offset size buffer fdata node i r
  IsWritten-moved b capacity fdata node Written.overrun w = w
  IsWritten-moved b capacity fdata node (Written.returned ret node' freed) w = elim w [
    | inl full ↦ inl full
    | inr (inl poor) ↦ inr (inl poor)
    | inr (inr (e, (new, v, p))) ↦ inr (inr (e, (new, v, ground (arith, p))))
  ]

  write_data-patched :
      (kmalloc : ℕ → Option Buffer) (fdata : FileData) (node : TmpFile)
      → IsValid fdata node
      → offset + size < 2 ^ 32
      → IsWritten offset size buffer fdata node i (write_data kmalloc offset size buffer fdata node)
  unfolding write_data
  write_data-patched kmalloc fdata node v h =
      let whole : (offset + size) % 2 ^ 32 ≡ offset + size = omega arith in
      let cap = grown_capacity (offset + size) in
      rw whole (elim (Bool-cases (ltb tmpfs_max_file_size (offset + size))) [
        | inl big ↦ rw big (inl (refl, refl, refl, ground (arith, big)))
        | inr small ↦
            let bound : offset + size ≤ tmpfs_max_file_size = ground (arith, small) in
            let (large, quota) = grown_capacity-le (offset + size) bound in
            rw small (elim (Bool-cases (ltb fdata.capacity (offset + size))) [
              | inr room ↦
                  rw room (store-patched fdata node [] v.synced v.whole (ground (arith, room)))
              | inl tight ↦ rw tight (elim (Option-cases (kmalloc cap)) [
                | inl none_left ↦ rw none_left (inr (inl (refl, refl, refl)))
                | inr (b, got) ↦
                    let more : fdata.size ≤ cap = ground (arith, tight, v.whole.fits) in
                    let copied : leb fdata.size cap ≡ true = ground (arith, more) in
                    let source : in_block fdata.block fdata.capacity 0 fdata.size ≡ true =
                      in_block-le fdata.block fdata.capacity 0 fdata.size v.whole.empty
                        (omega (arith, v.whole.fits)) in
                    rw (got, whole, copied, source)
                      (IsWritten-moved b cap fdata node _ (
                        store-patched (moved b cap fdata) node (old_block fdata.block) v.synced
                          (record { fits = more; quota = quota; empty = λ e. cc }) large))
              ])
            ])
      ])

  tmpfs_write-some :
      (kmalloc : ℕ → Option Buffer) (fdata : FileData) (node : TmpFile)
      → node.private_data ≡ some fdata
      → tmpfs_write kmalloc offset size buffer node
        ≡ write_data kmalloc offset size buffer fdata node
  unfolding tmpfs_write
  tmpfs_write-some kmalloc fdata node e = ground (arith, e)

  -- On a valid file, where offset and size do not wrap, tmpfs_write never writes outside a buffer. Either it returns
  -- -ENOSPC, and the end of the write exceeds the quota, or it returns -ENOMEM, and in both cases
  -- the file is as it was and nothing is freed; or it returns the size, and the file holds the
  -- written bytes at the offset, zeros between its old end and the offset, and what it held before
  -- elsewhere, in a buffer within the quota.
  pub tmpfs_write-patched :
      (kmalloc : ℕ → Option Buffer) (fdata : FileData) (node : TmpFile)
      → IsValid fdata node
      → offset + size < 2 ^ 32
      → IsWritten offset size buffer fdata node i (tmpfs_write kmalloc offset size buffer node)
  tmpfs_write-patched kmalloc fdata node v h =
      rw (tmpfs_write-some kmalloc fdata node v.attached)
        (write_data-patched kmalloc fdata node v h)

-- The result of a read is the part of the file from the offset on, as much of it as was asked for.
abbrev pub IsRead : ℕ → ℕ → FileData → ℕ → Read → Type 0
IsRead offset size fdata j Read.overrun = ⊥
IsRead offset size fdata j (Read.returned ret count bytes) =
    (ret ≡ pos count)
    × (count ≡ min size (fdata.size - offset))
    × ((if ltb j count then some (bytes j) else none)
        ≡ (if ltb j size then byte_at fdata (offset + j) else none))

module _ (offset size j : ℕ) where
  tmpfs_read-block :
      (fdata : FileData) (b : Buffer) (node : TmpFile)
      → node.private_data ≡ some fdata
      → fdata.block ≡ some b
      → IsWhole fdata
      → offset + size < 2 ^ 32
      → IsRead offset size fdata j (tmpfs_read offset size node)
  unfolding tmpfs_read
  tmpfs_read-block fdata b node e k v h = ground (arith, e, k, v.fits, v.quota)

  tmpfs_read-none :
      (fdata : FileData) (node : TmpFile)
      → IsValid fdata node
      → fdata.block ≡ none
      → IsRead offset size fdata j (tmpfs_read offset size node)
  unfolding tmpfs_read
  tmpfs_read-none fdata node v e = ground (arith, e, v.attached, v.whole.fits, v.whole.empty e)

  -- On a valid file, where offset and size do not wrap, tmpfs_read never reads outside the buffer: it returns the
  -- number of bytes between the offset and the end of the file, at most `size`, and gives these
  -- bytes of the file.
  pub tmpfs_read-slice :
      (fdata : FileData) (node : TmpFile)
      → IsValid fdata node
      → offset + size < 2 ^ 32
      → IsRead offset size fdata j (tmpfs_read offset size node)
  tmpfs_read-slice fdata node v h = elim (Option-cases fdata.block) [
    | inl e ↦ tmpfs_read-none fdata node v e
    | inr (b, e) ↦ tmpfs_read-block fdata b node v.attached e v.whole h
  ]

-- On a valid file, where offset and size wrap and the sum fits in the buffer, tmpfs_write passes the test of the
-- quota, although the offset lies behind the buffer, and writes outside it.
pub tmpfs_write-overruns :
    (kmalloc : ℕ → Option Buffer) (offset size : ℕ) (buffer : ℕ → ℕ) (fdata : FileData)
    (node : TmpFile)
    → IsValid fdata node
    → fdata.capacity < offset
    → 2 ^ 32 ≤ offset + size
    → (offset + size) % 2 ^ 32 ≤ fdata.capacity
    → tmpfs_write kmalloc offset size buffer node ≡ Written.overrun
unfolding write_data store
tmpfs_write-overruns kmalloc offset size buffer fdata node v far wraps small =
    tmpfs_write-some offset size buffer 0 kmalloc fdata node v.attached
    ∙ ground (arith, v.whole.fits, v.whole.quota)

-- After an open with O_TRUNC the file is empty, and keeps its buffer.
pub tmpfs_open-truncates :
    (flags i : ℕ) (fdata : FileData) (node : TmpFile)
    → IsValid fdata node
    → truncates flags ≡ true
    → let fresh = record fdata { size = 0 } in
      ((tmpfs_open flags node).0 ≡ pos 0)
      × IsValid fresh (tmpfs_open flags node).1
      × (byte_at fresh i ≡ none)
unfolding tmpfs_open
tmpfs_open-truncates flags i fdata node v e =
    rw (e, v.attached)
      (
        refl,
        record {
          attached = refl;
          synced = refl;
          whole = record { fits = omega arith; quota = v.whole.quota; empty = v.whole.empty };
        },
        ground arith,
      )
