-- ===== src/Vfs/Count.antt =====
-- vfs.c: how many descriptors name an open file, and when the counts are right.
use enclave_os.Prelude.{
  ℕ, zero, suc, ◌+◌, ◌-◌, ◌^◌, ◌≡◌, ◌≢◌, ◌≤◌, ◌<◌, sym, false, some, List, [], ◌∷◌, ◌==◌,
  if◌then◌else◌, arith, length, get_or, set, Bool-cases, inl, inr,
}
use enclave_os.Vfs.{Vfs, find_slot}
use enclave_os.Vfs.Files.{refs_of, users}

unfoldable pub count : ℕ → List ℕ → ℕ
count a [] = 0
count a (b ∷ bs) = let rest = count a bs in if b == a then suc rest else rest

pub count-set :
    (a v : ℕ) (l : List ℕ) (i : ℕ)
    → i < length l
    → count a (set l i v) + (if get_or l i 0 == a then 1 else 0)
      ≡ count a l + (if v == a then 1 else 0)
unfolding count
count-set a v [] i h = absurd (omega arith)
count-set a v (b ∷ bs) zero h = ground arith
count-set a v (b ∷ bs) (suc i) h = ground (arith, count-set a v bs i (omega arith))

pub count-get : (l : List ℕ) (i a : ℕ) → get_or l i 0 ≡ a → a ≢ 0 → 1 ≤ count a l
unfolding count
count-get [] i a e n = absurd (n (sym e))
count-get (b ∷ bs) zero a e n = ground (arith, e)
count-get (b ∷ bs) (suc i) a e n = ground (arith, count-get bs i a e n)

pub count-le : (a : ℕ) (l : List ℕ) → count a l ≤ length l
unfolding count
count-le a [] = omega arith
count-le a (b ∷ bs) = ground (arith, count-le a bs)

pub find_slot-free :
    (l : List ℕ) (j i : ℕ)
    → find_slot l j ≡ some i
    → (j ≤ i) × (i < j + length l) × (get_or l (i - j) 0 ≡ 0)
unfolding find_slot
find_slot-free [] j i e = absurd (ground (arith, e))
find_slot-free (a ∷ fds) j i e = elim (Bool-cases (a == 0)) [
  | inl h ↦
      let e' = rw h at e in
      let same : j ≡ i = ground (arith, e') in
      let first : i - j ≡ 0 = omega arith in
      (omega arith, omega arith, rw first (ground (arith, h)))
  | inr h ↦
      let e' = rw h at e in
      let (low, high, free) = find_slot-free fds (j + 1) i e' in
      let step : i - j ≡ suc (i - (j + 1)) = omega (arith, low) in
      (omega arith, omega arith, rw step free)
]

-- The descriptors count the references of each open file, no node has fewer references than open files,
-- a node that an open file has is not freed, and no count is above `k`.
pub record Sound (k : ℕ) (s : Vfs) : Type 0 where
  pub size : length s.fd_table ≡ 256
  pub few : 256 + length s.elsewhere < 2 ^ 32
  pub refs : (a : ℕ) → a ≢ 0 → refs_of a s.files ≡ count a s.fd_table + count a s.elsewhere
  pub held : (n : ℕ) → n ≢ 0 → users n s.files ≤ (s.nodes n).ref_count
  pub bound : (n : ℕ) → (s.nodes n).ref_count ≤ k
  pub live : (n : ℕ) → n ≢ 0 → 1 ≤ users n s.files → (s.nodes n).freed ≡ false

pub Sound-weaken : (k : ℕ) (s : Vfs) → Sound k s → Sound (suc k) s
Sound-weaken k s h = record {
  size = h.size;
  few = h.few;
  refs = h.refs;
  held = h.held;
  bound = λ n. omega (arith, h.bound n);
  live = h.live;
}
