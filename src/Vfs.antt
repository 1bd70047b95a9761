-- ===== src/Vfs.antt =====
-- vfs.c and syscall.c: file descriptors, open files and their nodes. The path has been resolved to a
-- node; a descriptor and an offset are given as the 32 bits of an int.
pub mod Files
pub mod Count
pub mod Share
pub mod Release
pub mod Sound
pub mod Dups
pub mod Opens
pub mod Steps
pub mod Leak
mod Tests
use enclave_os.Prelude.{
  ℕ, zero, suc, ◌+◌, ◌-◌, ◌^◌, ◌%◌, ◌≡◌, ◌≢◌, ◌⊎◌, Bool, true, false, ◌&&◌, Option, none, some,
  List, [], ◌∷◌, ◌++◌, ltb, leb, ◌==◌, if◌then◌else◌, get_or, set,
}
use enclave_os.Kerrno.{Status, enomem, ebadf, emfile, einval}
use enclave_os.Syscall.{Result, value, error}

-- `open_file_t`, with the address that kmalloc gave it; the node 0 is NULL.
pub record OpenFile : Type 0 where
  pub address : ℕ
  pub node : ℕ
  pub offset : ℕ
  pub flags : ℕ
  pub ref_count : ℕ

-- What descriptors need of a `vfs_node_t`; `freed` once kfree has got it.
pub record VfsNode : Type 0 where
  pub ref_count : ℕ
  pub is_unlinked : Bool
  pub size : ℕ
  pub freed : Bool

-- The table of the current task, the descriptors of all other tasks, the open files that have not
-- been freed, and the nodes by their address.
pub record Vfs : Type 0 where
  pub fd_table : List ℕ
  pub elsewhere : List ℕ
  pub files : List OpenFile
  pub nodes : ℕ → VfsNode

abbrev pub task_max_open_files : ℕ
task_max_open_files = 256

-- `x + 1` and `x - 1` on uint32_t
abbrev pub up : ℕ → ℕ
up x = (x + 1) % 2 ^ 32

abbrev pub down : ℕ → ℕ
down x = (x + 2 ^ 32 - 1) % 2 ^ 32

pub find_file : ℕ → List OpenFile → Option OpenFile
find_file a [] = none
find_file a (f ∷ fs) = if f.address == a then some f else find_file a fs

-- A write to the open file at the address.
pub update_file : ℕ → (OpenFile → OpenFile) → List OpenFile → List OpenFile
update_file a g [] = []
update_file a g (f ∷ fs) = (if f.address == a then g f else f) ∷ update_file a g fs

-- kfree of the open file at the address.
pub remove_file : ℕ → List OpenFile → List OpenFile
remove_file a [] = []
remove_file a (f ∷ fs) = if f.address == a then remove_file a fs else f ∷ remove_file a fs

abbrev pub write_node : ℕ → (VfsNode → VfsNode) → (ℕ → VfsNode) → (ℕ → VfsNode)
write_node n g nodes = λ i. if i == n then g (nodes i) else nodes i

abbrev pub more_refs : VfsNode → VfsNode
more_refs n = record n { ref_count = up n.ref_count }

abbrev pub less_refs : VfsNode → VfsNode
less_refs n = record n { ref_count = down n.ref_count }

-- The first free descriptor, from `i` on.
pub find_slot : List ℕ → ℕ → Option ℕ
find_slot [] i = none
find_slot (a ∷ fds) i = if a == 0 then some i else find_slot fds (i + 1)

-- sys_open once the node has been opened; `address` is the answer of kmalloc.
pub open_node : ℕ → ℕ → ℕ → Vfs → Result × Vfs
open_node node flags address s =
    let counted = record s { nodes = write_node node more_refs s.nodes } in
    let undone = record s { nodes = write_node node less_refs counted.nodes } in
    let of : OpenFile = record {
      address = address;
      node = node;
      offset = 0;
      flags = flags;
      ref_count = 1;
    } in
    if address == 0 then (error enomem, undone) else elim (find_slot s.fd_table 0) [
      | none ↦ (error enomem, undone)
      | some i ↦
          (value i, record counted { files = of ∷ s.files; fd_table = set s.fd_table i address })
    ]

-- One more descriptor for the open file at the address `a`, in the slot `i`.
pub share_found : ℕ → ℕ → Option OpenFile → Vfs → Vfs
share_found a i none s = s
share_found a i (some of) s = record s {
  files = update_file a (λ f. record f { ref_count = up f.ref_count }) s.files;
  nodes = if of.node == 0 then s.nodes else write_node of.node more_refs s.nodes;
  fd_table = set s.fd_table i a;
}

pub share : ℕ → ℕ → Vfs → Vfs
share a i s = share_found a i (find_file a s.files) s

pub sys_dup_handler : ℕ → Vfs → Result × Vfs
sys_dup_handler old_fd s =
    let of = get_or s.fd_table old_fd 0 in
    if leb task_max_open_files old_fd
    then (error ebadf, s)
    else if of == 0
    then (error ebadf, s)
    else elim (find_slot s.fd_table 0) [
      | none ↦ (error emfile, s)
      | some i ↦ (value i, share of i s)
    ]

-- The last descriptor of an open file has gone: its node loses a reference, and is freed if that was
-- the last one of a file that is unlinked.
pub drop_node : VfsNode → VfsNode
drop_node n =
    let less = less_refs n in
    if less.ref_count == 0 && n.is_unlinked then record less { freed = true } else less

-- vfs_close_fd behind the checks.
pub release_found : ℕ → Option OpenFile → Vfs → Vfs
release_found a none s = s
release_found a (some of) s =
    if down of.ref_count == 0
    then record s {
      nodes = if of.node == 0 then s.nodes else write_node of.node drop_node s.nodes;
      files = remove_file a s.files;
    }
    else record s { files = update_file a (λ f. record f { ref_count = down f.ref_count }) s.files }

pub release : ℕ → Vfs → Vfs
release a s = release_found a (find_file a s.files) s

pub vfs_close_fd : ℕ → Vfs → Result × Vfs
vfs_close_fd fd s =
    let of = get_or s.fd_table fd 0 in
    if leb task_max_open_files fd
    then (error ebadf, s)
    else if of == 0
    then (error ebadf, s)
    else (value 0, release of (record s { fd_table = set s.fd_table fd 0 }))

pub sys_dup2_handler : ℕ → ℕ → Vfs → Result × Vfs
sys_dup2_handler old_fd new_fd s =
    let of = get_or s.fd_table old_fd 0 in
    let closed = (vfs_close_fd new_fd s).1 in
    let ready = if get_or s.fd_table new_fd 0 == 0 then s else closed in
    if leb task_max_open_files old_fd
    then (error ebadf, s)
    else if leb task_max_open_files new_fd
    then (error ebadf, s)
    else if of == 0
    then (error ebadf, s)
    else if old_fd == new_fd
    then (value new_fd, s)
    else (value new_fd, share of new_fd ready)

-- sys_unlink once the file system has taken the node out of its directory.
pub unlink_node : ℕ → Vfs → Vfs
unlink_node n s = record s {
  nodes =
      write_node n
        (λ v. record v { is_unlinked = true; freed = if v.ref_count == 0 then true else v.freed })
        s.nodes;
}

-- The base of the new offset, by SEEK_SET, SEEK_CUR and SEEK_END.
pub seek_base : ℕ → OpenFile → Vfs → Option ℕ
seek_base whence of s =
    if whence == 0
    then some 0
    else if whence == 1
    then some of.offset
    else if whence == 2
    then some (s.nodes of.node).size
    else none

pub seek_file : ℕ → ℕ → OpenFile → Vfs → Result × Vfs
seek_file offset whence of s = elim (seek_base whence of s) [
  | none ↦ (error einval, s)
  | some base ↦
      let new_offset = (base + offset) % 2 ^ 32 in
      if leb (2 ^ 31) new_offset then (error einval, s) else (
        value new_offset,
        record s { files = update_file of.address (λ f. record f { offset = new_offset }) s.files },
      )
]

pub sys_lseek_handler : ℕ → ℕ → ℕ → Vfs → Result × Vfs
sys_lseek_handler fd offset whence s =
    let a = get_or s.fd_table fd 0 in
    if leb task_max_open_files fd
    then (error ebadf, s)
    else if a == 0
    then (error ebadf, s)
    else elim (find_file a s.files) [
      | none ↦ (error ebadf, s)
      | some of ↦ if of.node == 0 then (error ebadf, s) else seek_file offset whence of s
    ]

-- What a task does with its descriptors. kmalloc answers NULL or an address that no open file has, and
-- path resolution finds no node that has been freed or unlinked; a node has an address other than 0.
pub data Step : Vfs → Vfs → Type 0 where
  opens :
      {s : Vfs} (node flags address : ℕ)
      → node ≢ 0
      → (s.nodes node).freed ≡ false
      → find_file address s.files ≡ none
      → Step s (open_node node flags address s).1
  dups : {s : Vfs} (old_fd : ℕ) → Step s (sys_dup_handler old_fd s).1
  dups_to : {s : Vfs} (old_fd new_fd : ℕ) → Step s (sys_dup2_handler old_fd new_fd s).1
  closes : {s : Vfs} (fd : ℕ) → Step s (vfs_close_fd fd s).1
  unlinks : {s : Vfs} (node : ℕ) → Step s (unlink_node node s)
  seeks : {s : Vfs} (fd offset whence : ℕ) → Step s (sys_lseek_handler fd offset whence s).1

-- The states that `k` steps lead to.
pub data Reach (s : Vfs) : ℕ → Vfs → Type 0 where
  here : Reach s 0 s
  next : {k : ℕ} {s' s'' : Vfs} → Reach s k s' → Step s' s'' → Reach s (suc k) s''
