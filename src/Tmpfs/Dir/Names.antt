-- ===== src/Tmpfs/Dir/Names.antt =====
-- tmpfs_create and tmpfs_unlink: the names and the blocks.
use enclave_os.Prelude.{
  ℕ, zero, suc, ◌+◌, ◌-◌, ◌≡◌, ◌≢◌, ◌≤◌, refl, ap, true, false, none, some, List, [], ◌∷◌, ◌++◌,
  arith, ◌==◌, if◌then◌else◌, length, Bool-cases, inl, inr,
}
use enclave_os.Prelude.Int.{ℤ, pos, negsuc}
use enclave_os.Klib.{k_strcmp, k_strncpy}
use enclave_os.Klib.Strings.{IsString, take, replicate, k_strcmp-eq, k_strncpy-take}
use enclave_os.Vma.{Nodes, kmalloc_node, spend}
use enclave_os.Vma.Edit.Balance.{unlinked, unlinked-spend}
use enclave_os.Tmpfs.Dir.{
  Inode, Tree, tree, Siblings, last, next, c_string, link_last, Created, is_dir_mode, tmpfs_create,
  is_zero, is_busy, orphan, name_of, tmpfs_unlink,
}

-- No node of the chain has the name.
abbrev pub Absent : List ℕ → Siblings → Type 0
Absent name last = Unit
Absent name (next t ts) = (name_of t ≢ name) × Absent name ts

-- The names in the chain are strings.
abbrev pub AreNamed : Siblings → Type 0
AreNamed last = Unit
AreNamed (next t ts) = IsString (name_of t) × AreNamed ts

zero_of_is_zero : (z : ℤ) → is_zero z ≡ true → z ≡ pos 0
zero_of_is_zero (pos n) e = ground (arith, e)
zero_of_is_zero (negsuc n) e = cc

differs : (s t : List ℕ) → IsString s → IsString t → s ≢ t → is_zero (k_strcmp s t) ≡ false
differs s t hs ht n = elim (Bool-cases (is_zero (k_strcmp s t))) [
  | inl e ↦ absurd (n ((k_strcmp-eq s t hs ht).0 (zero_of_is_zero (k_strcmp s t) e)))
  | inr e ↦ e
]

unlink_last :
    (t : Tree) (children : Siblings)
    → IsString (name_of t)
    → AreNamed children
    → Absent (name_of t) children
    → is_busy t ≡ false
    → tmpfs_unlink (link_last t children) (name_of t)
      ≡ record { ret = pos 0; children = children; node = some (orphan t) }
unfolding tmpfs_unlink link_last
unlink_last t last s w a b =
    let same : k_strcmp (name_of t) (name_of t) ≡ pos 0 = (k_strcmp-eq _ _ s s).1 refl in
    rw (same, b) refl
unlink_last t (next u us) s w a b =
    rw (differs (name_of u) (name_of t) w.0 s a.0, unlink_last t us s w.1 a.1 b) refl

take-all : (n : ℕ) (s : List ℕ) → length s ≤ n → take n s ≡ s
take-all zero [] h = refl
take-all zero (c ∷ s) h = absurd (omega arith)
take-all (suc n) [] h = refl
take-all (suc n) (c ∷ s) h = ap (λ r. c ∷ r) (take-all n s (omega arith))

c_string-zeros : (n : ℕ) → c_string (replicate n 0) ≡ []
unfolding c_string
c_string-zeros zero = refl
c_string-zeros (suc n) = refl

c_string-append : (s : List ℕ) (n : ℕ) → IsString s → c_string (s ++ replicate n 0) ≡ s
unfolding c_string
c_string-append [] n h = c_string-zeros n
c_string-append (c ∷ s) n h = ground (arith, h.0, c_string-append s n h.1)

-- A name that fits is kept.
c_string-k_strncpy : (s : List ℕ) (n : ℕ) → IsString s → length s ≤ n → c_string (k_strncpy s n) ≡ s
c_string-k_strncpy s n h k =
    rw ((k_strncpy-take s n).0, take-all n s k) (c_string-append s (n - length s) h)

-- How many of the blocks of a node stand at the address.
abbrev pub blocks : ℕ → Inode → ℕ
blocks p inode =
    (if inode.address == p then 1 else 0)
    + elim inode.private_data [ none ↦ 0 | some f ↦ if f.address == p then 1 else 0 ]

-- A create that fails has linked nothing and holds no block; one that succeeds has linked the node
-- behind the children, and its blocks are those that it got.
abbrev pub IsCreated : ℕ → Siblings → Nodes → Created → Type 0
IsCreated p children h r = elim r.node [
  | none ↦ (r.children ≡ children) × (unlinked p r.nodes ≡ unlinked p h)
  | some inode ↦
      (r.children ≡ link_last (tree inode last) children)
      × (blocks p inode + unlinked p r.nodes ≡ unlinked p h)
]

-- tmpfs_create is all or nothing: where it returns NULL, the children of the parent are as they
-- were and each block that it got from kmalloc has gone back to kfree; otherwise the new node
-- stands behind the children, and no block is lost or used twice.
pub tmpfs_create-IsCreated :
    (p : ℕ) (children : Siblings) (name : List ℕ) (mode : ℕ) (h : Nodes)
    → p ≢ 0
    → IsCreated p children h (tmpfs_create children name mode h)
unfolding tmpfs_create
tmpfs_create-IsCreated p children name mode h n =
    ground (arith, unlinked-spend p h n, unlinked-spend p (spend h) n)

-- What tmpfs_unlink gives for a name that tmpfs_create has just added.
abbrev pub IsUndone : Siblings → List ℕ → Created → Type 0
IsUndone children name r = elim r.node [
  | none ↦ ⊥
  | some inode ↦
      tmpfs_unlink r.children name
      ≡ record { ret = pos 0; children = children; node = some (orphan (tree inode last)) }
]

module _ (children : Siblings) (name : List ℕ) (mode : ℕ) (h : Nodes) where
  unlink_new :
      (inode : Inode)
      → inode.name ≡ name
      → IsString name
      → AreNamed children
      → Absent name children
      → tmpfs_unlink (link_last (tree inode last) children) name
        ≡ record { ret = pos 0; children = children; node = some (orphan (tree inode last)) }
  unlink_new inode e s w a =
      rw⁻¹ e (unlink_last (tree inode last) children (rw e s) w (rw e a) refl)

  -- Given its blocks, tmpfs_create of a name of at most 255 bytes that no child has succeeds, and
  -- tmpfs_unlink of that name then returns 0, restores the children, and takes out the new node.
  pub tmpfs_unlink-tmpfs_create :
      IsString name
      → length name ≤ 255
      → AreNamed children
      → Absent name children
      → kmalloc_node h.fresh ≢ 0
      → kmalloc_node (spend h).fresh ≢ 0
      → IsUndone children name (tmpfs_create children name mode h)
  unfolding tmpfs_create
  tmpfs_unlink-tmpfs_create s l w a got got' =
      let kept = c_string-k_strncpy name 255 s l in
      let one : (kmalloc_node h.fresh == 0) ≡ false = ground (arith, got) in
      let two : (kmalloc_node (spend h).fresh == 0) ≡ false = ground (arith, got') in
      elim (Bool-cases (is_dir_mode mode)) [
        | inl d ↦ rw (one, d) (unlink_new _ kept s w a)
        | inr f ↦ rw (one, f, two) (unlink_new _ kept s w a)
      ]
