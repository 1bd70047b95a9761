-- ===== src/Vfs/Dups.antt =====
-- vfs.c and syscall.c: closing and duplicating a descriptor.
use enclave_os.Prelude.{
  ℕ, suc, ◌-◌, ◌^◌, ◌⊎◌, ◌≡◌, ◌≢◌, ◌<◌, refl, ap, ◌∙◌, sym, Option, none, some, leb, ◌==◌,
  if◌then◌else◌, arith, get_or, set, Bool-cases, Option-cases, inl, inr, get_or-set_self,
  get_or-set_ne, if-true, if-false,
}
use enclave_os.Vfs.{
  release_found, Vfs, OpenFile, find_file, find_slot, share, release, vfs_close_fd, sys_dup_handler,
  sys_dup2_handler,
}
use enclave_os.Vfs.Count.{count-get, find_slot-free, Sound, Sound-weaken}
use enclave_os.Vfs.Sound.{share-Sound, release-Sound}

-- What vfs_close_fd does: nothing, or it clears the descriptor and releases the busy file.
pub close_cases :
    (fd : ℕ) (s : Vfs)
    → ((vfs_close_fd fd s).1 ≡ s)
      ⊎ (fd < 256)
        × (get_or s.fd_table fd 0 ≢ 0)
        × ((vfs_close_fd fd s).1
            ≡ release (get_or s.fd_table fd 0) (record s { fd_table = set s.fd_table fd 0 }))
unfolding vfs_close_fd
close_cases fd s = ground arith

pub vfs_close_fd-Sound :
    (k fd : ℕ) (s : Vfs) → Sound k s → k < 2 ^ 32 → Sound k (vfs_close_fd fd s).1
vfs_close_fd-Sound k fd s h fits = elim (close_cases fd s) [
  | inl same ↦ rw same h
  | inr (inside, busy, closed) ↦
      rw closed (release-Sound k (get_or s.fd_table fd 0) fd s h busy inside refl fits)
]

pub dup_cases :
    (old_fd : ℕ) (s : Vfs)
    → ((sys_dup_handler old_fd s).1 ≡ s)
      ⊎ (i : ℕ) × (find_slot s.fd_table 0 ≡ some i)
        × (get_or s.fd_table old_fd 0 ≢ 0)
        × ((sys_dup_handler old_fd s).1 ≡ share (get_or s.fd_table old_fd 0) i s)
unfolding sys_dup_handler
dup_cases old_fd s = elim (Option-cases (find_slot s.fd_table 0)) [
  | inl e ↦ inl (ground (arith, e))
  | inr (i, e) ↦ elim (Bool-cases (leb 256 old_fd)) [
    | inl h ↦ inl (ground (arith, e, h))
    | inr h ↦ elim (Bool-cases (get_or s.fd_table old_fd 0 == 0)) [
      | inl z ↦ inl (ground (arith, e, h, z))
      | inr z ↦ inr (i, e, ground (arith, z), ground (arith, e, h, z))
    ]
  ]
]

pub sys_dup_handler-Sound :
    (k old_fd : ℕ) (s : Vfs)
    → Sound k s
    → suc k < 2 ^ 32
    → Sound (suc k) (sys_dup_handler old_fd s).1
sys_dup_handler-Sound k old_fd s h fits = elim (dup_cases old_fd s) [
  | inl same ↦ rw same (Sound-weaken k s h)
  | inr (i, slot, busy, shared) ↦
      let (low, high, free) = find_slot-free s.fd_table 0 i slot in
      let sized = h.size in
      let here_free : get_or s.fd_table i 0 ≡ 0 =
        ap (λ j. get_or s.fd_table j 0) (first i) ∙ free in
      rw shared (
        share-Sound k (get_or s.fd_table old_fd 0) i s h busy (omega (arith, high, sized)) here_free
          (count-get s.fd_table old_fd (get_or s.fd_table old_fd 0) refl busy) fits)
]
  where
    first : (i : ℕ) → i ≡ i - 0
    first i = omega arith

release_found-table :
    (a : ℕ) (o : Option OpenFile) (s : Vfs) → (release_found a o s).fd_table ≡ s.fd_table
unfolding release_found
release_found-table a none s = refl
release_found-table a (some of) s = ground arith

release-table : (a : ℕ) (s : Vfs) → (release a s).fd_table ≡ s.fd_table
unfolding release
release-table a s = release_found-table a (find_file a s.files) s

-- Closing a descriptor in use leaves the other ones.
closed_table :
    (fd : ℕ) (s : Vfs)
    → fd < 256
    → get_or s.fd_table fd 0 ≢ 0
    → (vfs_close_fd fd s).1.fd_table ≡ set s.fd_table fd 0
unfolding vfs_close_fd
closed_table fd s inside busy =
    let a = get_or s.fd_table fd 0 in
    let kept = release-table a (record s { fd_table = set s.fd_table fd 0 }) in
    ground (arith, inside, busy, kept)

dup2_cases :
    (old_fd new_fd : ℕ) (s : Vfs)
    → ((sys_dup2_handler old_fd new_fd s).1 ≡ s)
      ⊎ (new_fd < 256)
        × (get_or s.fd_table old_fd 0 ≢ 0)
        × (old_fd ≢ new_fd)
        × ((sys_dup2_handler old_fd new_fd s).1
            ≡ share
                (get_or s.fd_table old_fd 0)
                new_fd
                (if get_or s.fd_table new_fd 0 == 0 then s else (vfs_close_fd new_fd s).1))
unfolding sys_dup2_handler
dup2_cases old_fd new_fd s = ground arith

pub sys_dup2_handler-Sound :
    (k old_fd new_fd : ℕ) (s : Vfs)
    → Sound k s
    → suc k < 2 ^ 32
    → Sound (suc k) (sys_dup2_handler old_fd new_fd s).1
sys_dup2_handler-Sound k old_fd new_fd s h fits = elim (dup2_cases old_fd new_fd s) [
  | inl same ↦ rw same (Sound-weaken k s h)
  | inr (inside, busy, differ, shared) ↦
      let a = get_or s.fd_table old_fd 0 in
      elim (Bool-cases (get_or s.fd_table new_fd 0 == 0)) [
        | inl z ↦
            let free : get_or s.fd_table new_fd 0 ≡ 0 = ground (arith, z) in
            let state = shared ∙ ap (share a new_fd) (if-true _ _ z) in
            rw state (
              share-Sound k a new_fd s h busy inside free (count-get s.fd_table old_fd a refl busy)
                fits)
        | inr z ↦
            let used : get_or s.fd_table new_fd 0 ≢ 0 = λ q. absurd (ground (arith, z, q)) in
            let closed = (vfs_close_fd new_fd s).1 in
            let state = shared ∙ ap (share a new_fd) (if-false _ _ z) in
            let table = closed_table new_fd s inside used in
            let sized = h.size in
            let free : get_or closed.fd_table new_fd 0 ≡ 0 =
              ap (λ l. get_or l new_fd 0) table
              ∙ get_or-set_self s.fd_table new_fd 0 0 (omega (arith, sized, inside)) in
            let still : get_or closed.fd_table old_fd 0 ≡ a =
              ap (λ l. get_or l old_fd 0) table
              ∙ get_or-set_ne s.fd_table {i = new_fd} {j = old_fd} 0 0 (λ q. differ (sym q)) in
            rw state (
              share-Sound k a new_fd closed (vfs_close_fd-Sound k new_fd s h (omega arith)) busy
                inside free (count-get closed.fd_table old_fd a still busy) fits)
      ]
]
