-- ===== src/Vfs/Leak.antt =====
-- vfs.c and syscall.c: the references of a node when its file is duplicated and closed.
use enclave_os.Prelude.{
  ℕ, suc, ◌^◌, ◌≡◌, ◌≢◌, ◌<◌, refl, ap, ◌∙◌, true, some, List, [], ◌∷◌, ◌==◌, if◌then◌else◌, arith,
  length, get_or, set, Bool-cases, inl, inr, get_or-set_self, if-true,
}
use enclave_os.Vfs.{
  Vfs, OpenFile, find_file, update_file, write_node, up, down, more_refs, find_slot, share, release,
  vfs_close_fd, sys_dup_handler,
}
use enclave_os.Vfs.Files.{refs_of-find}
use enclave_os.Vfs.Count.{count-get, count-le, find_slot-free, Sound}
use enclave_os.Vfs.Sound.{share-some, release-less}

find_file-update :
    (a : ℕ) (g : OpenFile → OpenFile) (fs : List OpenFile) (of : OpenFile)
    → ((f : OpenFile) → (g f).address ≡ f.address)
    → find_file a fs ≡ some of
    → find_file a (update_file a g fs) ≡ some (g of)
unfolding find_file update_file
find_file-update a g [] of k e = absurd (ground (arith, e))
find_file-update a g (f ∷ fs) of k e = elim (Bool-cases (f.address == a)) [
  | inl h ↦
      let e' = rw h at e in
      let same : f ≡ of = ground (arith, e') in
      let there : ((g f).address == a) ≡ true = ap (λ x. x == a) (k f) ∙ h in
      rw h
        (if-true (some (g f)) (find_file a (update_file a g fs)) there ∙ ap (λ x. some (g x)) same)
  | inr h ↦ let e' = rw h at e in rw (h, h) (find_file-update a g fs of k e')
]

dup_done :
    (old_fd i : ℕ) (s : Vfs)
    → old_fd < 256
    → find_slot s.fd_table 0 ≡ some i
    → get_or s.fd_table old_fd 0 ≢ 0
    → (sys_dup_handler old_fd s).1 ≡ share (get_or s.fd_table old_fd 0) i s
unfolding sys_dup_handler
dup_done old_fd i s h e n = ground (arith, h, e, n)

close_done :
    (fd a : ℕ) (s : Vfs)
    → fd < 256
    → get_or s.fd_table fd 0 ≡ a
    → a ≢ 0
    → (vfs_close_fd fd s).1 ≡ release a (record s { fd_table = set s.fd_table fd 0 })
unfolding vfs_close_fd
close_done fd a s h e n = rw e (ground (arith, h, e, n))

module _ (k old_fd i : ℕ) (s : Vfs) (of : OpenFile) where
  -- In a state with 256 slots in the table and fewer than 2^32 - 256 descriptors of other tasks, in
  -- which each open file counts the descriptors that name it, no node has fewer references than open
  -- files or more than `k`, which is below 2^32 - 1, and no node of an open file has been freed, a dup
  -- of a descriptor of an open file with a node into a free slot, followed by a close of that slot,
  -- leaves the node with one reference more than before.
  pub sys_dup_handler-vfs_close_fd :
      Sound k s
      → suc k < 2 ^ 32
      → old_fd < 256
      → find_slot s.fd_table 0 ≡ some i
      → get_or s.fd_table old_fd 0 ≢ 0
      → find_file (get_or s.fd_table old_fd 0) s.files ≡ some of
      → of.node ≢ 0
      → ((vfs_close_fd i (sys_dup_handler old_fd s).1).1.nodes of.node).ref_count
        ≡ suc (s.nodes of.node).ref_count
  sys_dup_handler-vfs_close_fd h fits inside slot busy found nn =
      let a = get_or s.fd_table old_fd 0 in
      let g : OpenFile → OpenFile = λ f. record f { ref_count = up f.ref_count } in
      let nodes = if of.node == 0 then s.nodes else write_node of.node more_refs s.nodes in
      let s1 : Vfs = record s {
        files = update_file a g s.files;
        nodes = nodes;
        fd_table = set s.fd_table i a;
      } in
      let dup = dup_done old_fd i s inside slot busy ∙ share-some a i s of found in
      let (low, high, free) = find_slot-free s.fd_table 0 i slot in
      let sized = h.size in
      let in_table : i < length s.fd_table = omega (arith, high) in
      let close =
        close_done i a s1 (omega (arith, in_table, sized))
          (get_or-set_self s.fd_table i a 0 in_table) busy in
      let found1 = find_file-update a g s.files of (λ f. refl) found in
      let was = refs_of-find a s.files of found in
      let counted = h.refs a busy in
      let named = count-get s.fd_table old_fd a refl busy in
      let cap = count-le a s.fd_table in
      let cap' = count-le a s.elsewhere in
      let few = h.few in
      let left : down (up of.ref_count) ≢ 0 =
        λ z. absurd (omega (arith, was, counted, named, cap, cap', few, sized, z)) in
      let less = release-less a (record s1 { fd_table = set s1.fd_table i 0 }) (g of) found1 left in
      let bound = h.bound of.node in
      ap (λ x. ((vfs_close_fd i x).1.nodes of.node).ref_count) dup
      ∙ ap (λ x. (x.nodes of.node).ref_count) (close ∙ less)
      ∙ ground (arith, nn, bound, fits)
