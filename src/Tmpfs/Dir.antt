-- ===== src/Tmpfs/Dir.antt =====
-- tmpfs_create and tmpfs_unlink: the children of a directory, in the order of the sibling chain.
pub mod Names
use enclave_os.Prelude.{
  ℕ, zero, suc, ◌+◌, ◌-◌, ◌*◌, ◌/◌, ◌%◌, ◌^◌, ◌≡◌, ◌≢◌, ◌≤◌, ◌<◌, refl, Bool, true, false, ◌&&◌,
  ◌||◌, Option, none, some, List, [], ◌∷◌, arith, ltb, leb, ◌==◌, if◌then◌else◌, or_else, ◌⊎◌, inl,
  inr,
}
use enclave_os.Prelude.Int.{ℤ, pos, sub_ℕ}
use enclave_os.Klib.{k_strcmp, k_strncpy}
use enclave_os.Vma.{Nodes, kmalloc_node, spend, kfree_node}
use enclave_os.Tmpfs.{FileData}

-- The fields of `vfs_node_t` that tmpfs.c sets, at its address; the links are in `Tree`.
pub record Inode : Type 0 where
  pub address : ℕ
  pub name : List ℕ
  pub flags : ℕ
  pub permissions : ℕ
  pub private_data : Option FileData
  pub is_unlinked : Bool

mutual
  -- A node with the chain that begins at its `first_child`.
  pub data Tree : Type 0 where
    tree : Inode → Siblings → Tree

  -- A node and its `next_sibling`.
  pub data Siblings : Type 0 where
    last : Siblings
    next : Tree → Siblings → Siblings

abbrev pub fs_file : ℕ
fs_file = 1

abbrev pub fs_directory : ℕ
fs_directory = 2

-- `mode & S_IFDIR`
abbrev pub is_dir_mode : ℕ → Bool
is_dir_mode mode = mode / 2 ^ 14 % 2 == 1

-- The string at the start of an array of bytes.
pub c_string : List ℕ → List ℕ
c_string [] = []
c_string (c ∷ cs) = let rest = c_string cs in if c == 0 then [] else c ∷ rest

-- The end of the sibling chain.
pub link_last : Tree → Siblings → Siblings
link_last new last = next new last
link_last new (next t ts) = next t (link_last new ts)

-- The new node or NULL, the children of the parent, and the calls of kmalloc and kfree.
pub record Created : Type 0 where
  pub node : Option Inode
  pub children : Siblings
  pub nodes : Nodes

-- The node before its kind is known.
abbrev pub new_node : ℕ → List ℕ → ℕ → Inode
new_node address name mode = record {
  address = address;
  name = c_string (k_strncpy name 255);
  flags = 0;
  permissions = mode % 2 ^ 12;
  private_data = none;
  is_unlinked = false;
}

pub tmpfs_create : Siblings → List ℕ → ℕ → Nodes → Created
tmpfs_create children name mode h =
    let got = kmalloc_node h.fresh in
    let fdata = kmalloc_node (spend h).fresh in
    let dir = record (new_node got name mode) { flags = fs_directory } in
    let file = record (new_node got name mode) {
      flags = fs_file;
      private_data = some (record { address = fdata; block = none; size = 0; capacity = 0 });
    } in
    if got == 0
    then record { node = none; children = children; nodes = spend h }
    else if is_dir_mode mode
    then record { node = some dir; children = link_last (tree dir last) children; nodes = spend h }
    else if fdata == 0
    then record { node = none; children = children; nodes = kfree_node got (spend (spend h)) }
    else record {
      node = some file;
      children = link_last (tree file last) children;
      nodes = spend (spend h);
    }

-- What tmpfs_unlink returns, the children that are left, and the node that has been taken out.
pub record Unlinked : Type 0 where
  pub ret : ℤ
  pub children : Siblings
  pub node : Option Tree

abbrev pub is_zero : ℤ → Bool
is_zero (pos n) = n == 0
is_zero _ = false

-- A directory with a child
abbrev pub is_busy : Tree → Bool
is_busy (tree inode last) = false
is_busy (tree inode (next t ts)) = inode.flags / 2 % 2 == 1

abbrev pub orphan : Tree → Tree
orphan (tree inode children) = tree (record inode { is_unlinked = true }) children

abbrev pub name_of : Tree → List ℕ
name_of (tree inode children) = inode.name

pub tmpfs_unlink : Siblings → List ℕ → Unlinked
tmpfs_unlink last name = record { ret = sub_ℕ 0 2; children = last; node = none }
tmpfs_unlink (next curr rest) name =
    let later = tmpfs_unlink rest name in
    if is_zero (k_strcmp (name_of curr) name)
    then (if is_busy curr
        then record { ret = sub_ℕ 0 39; children = next curr rest; node = none }
        else record { ret = pos 0; children = rest; node = some (orphan curr) })
    else record later { children = next curr later.children }
