-- ===== src/Vfs/Steps.antt =====
-- vfs.c and syscall.c: descriptors along any sequence of steps.
use enclave_os.Prelude.{
  ℕ, suc, ◌+◌, ◌%◌, ◌^◌, ◌⊎◌, ◌≡◌, ◌≢◌, ◌<◌, refl, ap, ◌∙◌, sym, false, ◌||◌, some, List, [], ◌∷◌,
  leb, ◌==◌, arith, get_or, Bool-cases, Option-cases, inl, inr,
}
use enclave_os.Vfs.{
  seek_base, Vfs, OpenFile, find_file, update_file, sys_lseek_handler, seek_file, Step, opens, dups,
  dups_to, closes, unlinks, seeks, Reach, here, next,
}
use enclave_os.Vfs.Files.{
  refs_of, users, users-update, refs_of-update_other, refs_of-update_same, refs_of-find, users-find,
}
use enclave_os.Vfs.Count.{count, count-get, Sound, Sound-weaken}
use enclave_os.Vfs.Sound.{named_file}
use enclave_os.Vfs.Dups.{vfs_close_fd-Sound, sys_dup_handler-Sound, sys_dup2_handler-Sound}
use enclave_os.Vfs.Opens.{open_node-Sound, unlink_node-Sound}

update_offset-Sound :
    (k a o : ℕ) (s : Vfs) (of : OpenFile)
    → Sound k s
    → find_file a s.files ≡ some of
    → Sound k (record s { files = update_file a (λ f. record f { offset = o }) s.files })
update_offset-Sound k a o s of h found =
    let g : OpenFile → OpenFile = λ f. record f { offset = o } in
    let same : (n : ℕ) → users n (update_file a g s.files) ≡ users n s.files =
      λ n. users-update a g (λ f. refl) (λ f. refl) n s.files in
    record {
      size = h.size;
      few = h.few;
      refs = λ b nb. elim (Bool-cases (a == b)) [
        | inl e ↦
            let q : b ≡ a = ground (arith, e) in
            ap (λ x. refs_of x (update_file a g s.files)) q
            ∙ refs_of-update_same a g (λ f. refl) (λ f. refl) s.files of found
            ∙ sym (refs_of-find a s.files of found)
            ∙ ap (λ x. refs_of x s.files) (sym q)
            ∙ h.refs b nb
        | inr e ↦
            let q : b ≢ a = λ q. absurd (ground (arith, e, q)) in
            refs_of-update_other a g (λ f. refl) (λ f. refl) b s.files q ∙ h.refs b nb
      ];
      held = λ n nn. let x = same n in let y = h.held n nn in omega (arith, x, y);
      bound = h.bound;
      live = λ n nn u. let x = same n in h.live n nn (omega (arith, x, u));
    }

found_address :
    (a : ℕ) (fs : List OpenFile) (of : OpenFile) → find_file a fs ≡ some of → of.address ≡ a
unfolding find_file
found_address a [] of e = absurd (ground (arith, e))
found_address a (f ∷ fs) of e = elim (Bool-cases (f.address == a)) [
  | inl h ↦ let e' = rw h at e in ground (arith, e', h)
  | inr h ↦ let e' = rw h at e in found_address a fs of e'
]

seek_cases :
    (fd offset whence : ℕ) (s : Vfs)
    → ((sys_lseek_handler fd offset whence s).1 ≡ s)
      ⊎ (of : OpenFile) × (o : ℕ) × (find_file (get_or s.fd_table fd 0) s.files ≡ some of)
        × ((sys_lseek_handler fd offset whence s).1
            ≡ record s { files = update_file of.address (λ f. record f { offset = o }) s.files })
unfolding sys_lseek_handler seek_file
seek_cases fd offset whence s = elim (Option-cases (find_file (get_or s.fd_table fd 0) s.files)) [
  | inl e ↦ inl (ground (arith, e))
  | inr (of, e) ↦ elim (Option-cases (seek_base whence of s)) [
    | inl b ↦ inl (ground (arith, e, b))
    | inr (base, b) ↦
        elim (Bool-cases (
          leb 256 fd
          || get_or s.fd_table fd 0 == 0
          || of.node == 0
          || leb (2 ^ 31) ((base + offset) % 2 ^ 32))) [
            | inl x ↦ inl (ground (arith, e, b, x))
            | inr x ↦ inr (of, (base + offset) % 2 ^ 32, e, ground (arith, e, b, x))
          ]
  ]
]

sys_lseek_handler-Sound :
    (k fd offset whence : ℕ) (s : Vfs)
    → Sound k s
    → Sound k (sys_lseek_handler fd offset whence s).1
sys_lseek_handler-Sound k fd offset whence s h = elim (seek_cases fd offset whence s) [
  | inl same ↦ rw same h
  | inr (of, o, found, moved) ↦
      let at = found_address (get_or s.fd_table fd 0) s.files of found in
      rw (moved, at) (update_offset-Sound k (get_or s.fd_table fd 0) o s of h found)
]

Step-Sound : (k : ℕ) (s s' : Vfs) → Step s s' → Sound k s → suc k < 2 ^ 32 → Sound (suc k) s'
Step-Sound k s _ (opens node flags address nn alive fresh) h fits =
    open_node-Sound k node flags address s h fits alive fresh
Step-Sound k s _ (dups old_fd) h fits = sys_dup_handler-Sound k old_fd s h fits
Step-Sound k s _ (dups_to old_fd new_fd) h fits = sys_dup2_handler-Sound k old_fd new_fd s h fits
Step-Sound k s _ (closes fd) h fits = Sound-weaken k _ (vfs_close_fd-Sound k fd s h (omega arith))
Step-Sound k s _ (unlinks node) h fits = Sound-weaken k _ (unlink_node-Sound k node s h)
Step-Sound k s _ (seeks fd offset whence) h fits =
    Sound-weaken k _ (sys_lseek_handler-Sound k fd offset whence s h)

pub Reach-Sound :
    (b : ℕ) (s : Vfs) (k : ℕ) (s' : Vfs)
    → Reach s k s'
    → Sound b s
    → b + k < 2 ^ 32
    → Sound (b + k) s'
Reach-Sound b s _ _ here h fits = let e : b + 0 ≡ b = omega arith in rw e h
Reach-Sound b s _ _ (next {k = k} {s' = s'} {s'' = s''} r step) h fits =
    let e : b + suc k ≡ suc (b + k) = omega arith in
    rw e (Step-Sound (b + k) s' s'' step (Reach-Sound b s k s' r h (omega arith)) (omega arith))

-- The descriptor names an open file that has not been freed, whose count is the number of descriptors
-- that name it, and whose node has not been freed.
pub record IsOpen (fd : ℕ) (s : Vfs) : Type 0 where
  pub of : OpenFile
  pub file : find_file (get_or s.fd_table fd 0) s.files ≡ some of
  pub counted :
      of.ref_count
      ≡ count (get_or s.fd_table fd 0) s.fd_table + count (get_or s.fd_table fd 0) s.elsewhere
  pub node_live : (of.node ≡ 0) ⊎ ((s.nodes of.node).freed ≡ false)

-- From a state with 256 slots in the table and fewer than 2^32 - 256 descriptors of other tasks, in
-- which each open file counts the descriptors that name it, no node has fewer references than open
-- files, no node of an open file has been freed and no node has more than `b` references, after any sequence of `k` steps of open, dup, dup2, close, unlink and lseek with
-- `b + k` below 2^32, every descriptor that is not free names an open file that has not been freed,
-- the file's count of references is the number of descriptors that name it, and its node, if not
-- NULL, has not been freed, even if it was unlinked.
pub Reach-IsOpen :
    (b k fd : ℕ) (s s' : Vfs)
    → Reach s k s'
    → Sound b s
    → b + k < 2 ^ 32
    → get_or s'.fd_table fd 0 ≢ 0
    → IsOpen fd s'
Reach-IsOpen b k fd s s' r h fits busy =
    let sound = Reach-Sound b s k s' r h fits in
    let a = get_or s'.fd_table fd 0 in
    let (of, found) = named_file (b + k) a s' sound busy (count-get s'.fd_table fd a refl busy) in
    record {
      of = of;
      file = found;
      counted = sym (refs_of-find a s'.files of found) ∙ sound.refs a busy;
      node_live = elim (Bool-cases (of.node == 0)) [
        | inl z ↦ inl (ground (arith, z))
        | inr nz ↦ inr (
            sound.live of.node (λ q. absurd (ground (arith, nz, q)))
              (users-find a s'.files of found))
      ];
    }
