-- ===== src/Vfs/Files.antt =====
-- vfs.c: the list of open files.
use enclave_os.Prelude.{
  ℕ, suc, ◌≡◌, ◌≢◌, ◌≤◌, refl, ap, false, none, some, List, [], ◌∷◌, ◌==◌, if◌then◌else◌, arith,
  Bool-cases, inl, inr,
}
use enclave_os.Vfs.{OpenFile, find_file, update_file, remove_file}

-- The references of the open file at the address, and 0 if there is none.
unfoldable pub refs_of : ℕ → List OpenFile → ℕ
refs_of a [] = 0
refs_of a (f ∷ fs) = if f.address == a then f.ref_count else refs_of a fs

-- How many open files have the node.
unfoldable pub users : ℕ → List OpenFile → ℕ
users n [] = 0
users n (f ∷ fs) = let rest = users n fs in if f.node == n then suc rest else rest

pub refs_of-find :
    (a : ℕ) (fs : List OpenFile) (f : OpenFile)
    → find_file a fs ≡ some f
    → refs_of a fs ≡ f.ref_count
unfolding find_file refs_of
refs_of-find a [] f e = absurd (ground (arith, e))
refs_of-find a (g ∷ fs) f e = elim (Bool-cases (g.address == a)) [
  | inl h ↦ let e' = rw h at e in rw h (ground (arith, e'))
  | inr h ↦ let e' = rw h at e in rw h (refs_of-find a fs f e')
]

pub refs_of-none : (a : ℕ) (fs : List OpenFile) → find_file a fs ≡ none → refs_of a fs ≡ 0
unfolding find_file refs_of
refs_of-none a [] e = refl
refs_of-none a (g ∷ fs) e = elim (Bool-cases (g.address == a)) [
  | inl h ↦ let e' = rw h at e in absurd (ground (arith, e'))
  | inr h ↦ let e' = rw h at e in rw h (refs_of-none a fs e')
]

-- A write that keeps the addresses and the nodes.
module _ (a : ℕ) (g : OpenFile → OpenFile) (k : (f : OpenFile) → (g f).address ≡ f.address)
    (m : (f : OpenFile) → (g f).node ≡ f.node) where
  pub users-update : (n : ℕ) (fs : List OpenFile) → users n (update_file a g fs) ≡ users n fs
  unfolding users update_file
  users-update n [] = refl
  users-update n (f ∷ fs) = elim (Bool-cases (f.address == a)) [
    | inl h ↦ rw (h, m f, users-update n fs) refl
    | inr h ↦ rw (h, users-update n fs) refl
  ]

  pub refs_of-update_other :
      (b : ℕ) (fs : List OpenFile) → b ≢ a → refs_of b (update_file a g fs) ≡ refs_of b fs
  unfolding refs_of update_file
  refs_of-update_other b [] n = refl
  refs_of-update_other b (f ∷ fs) n = elim (Bool-cases (f.address == a)) [
    | inl h ↦
        let no : (f.address == b) ≡ false = ground (arith, h, n) in
        rw (h, k f, no, refs_of-update_other b fs n) refl
    | inr h ↦ rw (h, refs_of-update_other b fs n) refl
  ]

  pub refs_of-update_same :
      (fs : List OpenFile) (f : OpenFile)
      → find_file a fs ≡ some f
      → refs_of a (update_file a g fs) ≡ (g f).ref_count
  unfolding refs_of update_file find_file
  refs_of-update_same [] f e = absurd (ground (arith, e))
  refs_of-update_same (h ∷ fs) f e = elim (Bool-cases (h.address == a)) [
    | inl q ↦
        let e' = rw q at e in
        let same : h ≡ f = ground (arith, e') in rw (q, k h, q) (ap (λ x. (g x).ref_count) same)
    | inr q ↦ let e' = rw q at e in rw (q, q) (refs_of-update_same fs f e')
  ]

pub refs_of-remove_same : (a : ℕ) (fs : List OpenFile) → refs_of a (remove_file a fs) ≡ 0
unfolding refs_of remove_file
refs_of-remove_same a [] = refl
refs_of-remove_same a (f ∷ fs) = elim (Bool-cases (f.address == a)) [
  | inl h ↦ rw h (refs_of-remove_same a fs)
  | inr h ↦ rw (h, h) (refs_of-remove_same a fs)
]

pub refs_of-remove_other :
    (a b : ℕ) (fs : List OpenFile) → b ≢ a → refs_of b (remove_file a fs) ≡ refs_of b fs
unfolding refs_of remove_file
refs_of-remove_other a b [] n = refl
refs_of-remove_other a b (f ∷ fs) n = elim (Bool-cases (f.address == a)) [
  | inl h ↦
      let no : (f.address == b) ≡ false = ground (arith, h, n) in
      rw (h, no) (refs_of-remove_other a b fs n)
  | inr h ↦ rw (h, refs_of-remove_other a b fs n) refl
]

pub users-remove : (n a : ℕ) (fs : List OpenFile) → users n (remove_file a fs) ≤ users n fs
unfolding users remove_file
users-remove n a [] = omega arith
users-remove n a (f ∷ fs) = elim (Bool-cases (f.address == a)) [
  | inl h ↦ rw h (ground (arith, users-remove n a fs))
  | inr h ↦ rw h (ground (arith, users-remove n a fs))
]

pub users-remove_found :
    (a : ℕ) (fs : List OpenFile) (f : OpenFile)
    → find_file a fs ≡ some f
    → suc (users f.node (remove_file a fs)) ≤ users f.node fs
unfolding users remove_file find_file
users-remove_found a [] f e = absurd (ground (arith, e))
users-remove_found a (g ∷ fs) f e = elim (Bool-cases (g.address == a)) [
  | inl h ↦
      let e' = rw h at e in
      let same : g.node ≡ f.node = ground (arith, e') in
      rw (h, same) (ground (arith, users-remove f.node a fs))
  | inr h ↦ let e' = rw h at e in rw h (ground (arith, users-remove_found a fs f e'))
]

pub refs_of-open :
    (f : OpenFile) (fs : List OpenFile) (b : ℕ)
    → refs_of b (f ∷ fs) ≡ (if f.address == b then f.ref_count else refs_of b fs)
unfolding refs_of
refs_of-open f fs b = refl

pub users-open :
    (f : OpenFile) (fs : List OpenFile) (n : ℕ)
    → users n (f ∷ fs) ≡ (if f.node == n then suc (users n fs) else users n fs)
unfolding users
users-open f fs n = refl

pub users-find :
    (a : ℕ) (fs : List OpenFile) (f : OpenFile) → find_file a fs ≡ some f → 1 ≤ users f.node fs
users-find a fs f e = let one = users-remove_found a fs f e in omega (arith, one)
