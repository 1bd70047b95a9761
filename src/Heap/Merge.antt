-- ===== src/Heap/Merge.antt =====
-- kfree: the merge of free buddies.
use enclave_os.Prelude.{
  ℕ, zero, suc, ◌/◌, ◌≡◌, ◌≢◌, ◌≤◌, ◌⊎◌, refl, sym, ap, ◌∙◌, true, leb, arith, ◌==◌, Bool-cases,
  inl, inr,
}
use enclave_os.Heap.{Node, unused, alloc, free, split, write_node, is_free, buddy_of, merge_loop}
use enclave_os.Heap.Forest.{IsForest, Node-cases, write_same}

-- The two trees have the same allocated nodes, and the second one is a forest.
pub record Merged (tree tree' : ℕ → Node) : Type 0 where
  pub forest : IsForest tree'
  pub kept : (b : ℕ) → tree b ≡ alloc → tree' b ≡ alloc
  pub back : (b : ℕ) → tree' b ≡ alloc → tree b ≡ alloc

is_free-free : (v : Node) → is_free v ≡ true → v ≡ free
is_free-free unused e = cc
is_free-free free e = refl
is_free-free alloc e = cc
is_free-free split e = cc

buddy_of-half : (n : ℕ) → 2 ≤ n → (buddy_of n / 2 ≡ n / 2) × (buddy_of n ≢ n)
buddy_of-half n h = (ground (arith, h), ground (arith, h))

buddy_of-only : (n m : ℕ) → 2 ≤ n → m / 2 ≡ n / 2 → m ≢ n → m ≡ buddy_of n
buddy_of-only n m h e q = ground (arith, h, e, q)

abbrev merge_one : ℕ → ℕ → (ℕ → Node) → (ℕ → Node)
merge_one curr buddy tree =
    write_node (write_node (write_node tree curr unused) buddy unused) (curr / 2) free

module _ (curr buddy : ℕ) (tree : ℕ → Node) (f : IsForest tree) (l : 2 ≤ curr)
    (t : tree curr ≡ free) (u : tree buddy ≡ free) (half : buddy / 2 ≡ curr / 2)
    (only : (m : ℕ) → m / 2 ≡ curr / 2 → m ≢ curr → m ≡ buddy) where
  parent_split : tree (curr / 2) ≡ split
  parent_split = f curr l (λ z. cc (t, z))

  merge_parent : merge_one curr buddy tree (curr / 2) ≡ free
  merge_parent = write_same (write_node (write_node tree curr unused) buddy unused) (curr / 2) free

  merge_curr : merge_one curr buddy tree curr ≡ unused
  merge_curr = ground (arith, l)

  merge_buddy : merge_one curr buddy tree buddy ≡ unused
  merge_buddy = ground (arith, l, half)

  merge_else : (n : ℕ) → n ≢ curr → n ≢ buddy → n ≢ curr / 2 → merge_one curr buddy tree n ≡ tree n
  merge_else n a b c = ground (arith, a, b, c)

  -- Under a free node nothing is in use.
  under_free : (n m : ℕ) → 2 ≤ n → n / 2 ≡ m → tree m ≡ free → tree n ≡ unused
  under_free n m h q e = elim (Node-cases (tree n)) [
    | inl z ↦ z
    | inr w ↦ let s = sym (f n h w) ∙ ap tree q ∙ e in absurd (cc s)
  ]

  merge_others :
      (n : ℕ)
      → 2 ≤ n
      → merge_one curr buddy tree n ≢ unused
      → n ≢ curr / 2
      → merge_one curr buddy tree (n / 2) ≡ split
  merge_others n h w p =
      let a : n ≢ curr = λ q. w (ap (merge_one curr buddy tree) q ∙ merge_curr) in
      let b : n ≢ buddy = λ q. w (ap (merge_one curr buddy tree) q ∙ merge_buddy) in
      let same = merge_else n a b p in
      let c : n / 2 ≢ curr = λ q. w (same ∙ under_free n curr h q t) in
      let d : n / 2 ≢ buddy = λ q. w (same ∙ under_free n buddy h q u) in
      let e : n / 2 ≢ curr / 2 = λ q. b (only n q a) in
      merge_else (n / 2) c d e ∙ f n h (λ z. w (same ∙ z))

  merge_above : 2 ≤ curr / 2 → merge_one curr buddy tree (curr / 2 / 2) ≡ split
  merge_above h =
      merge_else (curr / 2 / 2) (omega (arith, h)) (omega (arith, h, half)) (omega (arith, h))
      ∙ f (curr / 2) h (λ z. let s = sym parent_split ∙ z in cc s)

  merge-IsForest : IsForest (merge_one curr buddy tree)
  merge-IsForest n h w = elim (Bool-cases (n == curr / 2)) [
    | inl here ↦
        let e : n ≡ curr / 2 = ground (arith, here) in
        ap (λ m. merge_one curr buddy tree (m / 2)) e ∙ merge_above (omega (arith, h, e))
    | inr there ↦ merge_others n h w (λ e. absurd (ground (arith, there, e)))
  ]

  merge-alloc : (b : ℕ) → tree b ≡ alloc → merge_one curr buddy tree b ≡ alloc
  merge-alloc b e =
      merge_else b (λ q. let s = sym e ∙ ap tree q ∙ t in cc s)
        (λ q. let s = sym e ∙ ap tree q ∙ u in cc s)
        (λ q. let s = sym e ∙ ap tree q ∙ parent_split in cc s)
      ∙ e

  alloc-merge : (b : ℕ) → merge_one curr buddy tree b ≡ alloc → tree b ≡ alloc
  alloc-merge b e =
      let m = merge_one curr buddy tree in
      sym (
        merge_else b (λ q. let s = sym e ∙ ap m q ∙ merge_curr in cc s)
          (λ q. let s = sym e ∙ ap m q ∙ merge_buddy in cc s)
          (λ q. let s = sym e ∙ ap m q ∙ merge_parent in cc s))
      ∙ e

merge_loop-cases :
    (fuel curr : ℕ) (tree : ℕ → Node)
    → (merge_loop (suc fuel) curr tree ≡ tree)
      ⊎ (2 ≤ curr)
        × (tree (buddy_of curr) ≡ free)
        × (merge_loop (suc fuel) curr tree
            ≡ merge_loop fuel (curr / 2) (merge_one curr (buddy_of curr) tree))
unfolding merge_loop
merge_loop-cases fuel curr tree = elim (Bool-cases (leb curr 1)) [
  | inl e ↦ inl (rw e refl)
  | inr e ↦ elim (Bool-cases (is_free (tree (buddy_of curr)))) [
    | inl x ↦ inr (ground (arith, e), is_free-free _ x, rw (e, x) refl)
    | inr x ↦ inl (rw (e, x) refl)
  ]
]

pub merge_loop-Merged :
    (fuel curr : ℕ) (tree : ℕ → Node)
    → IsForest tree
    → tree curr ≡ free
    → Merged tree (merge_loop fuel curr tree)
unfolding merge_loop
merge_loop-Merged zero curr tree f t = record { forest = f; kept = λ b e. e; back = λ b e. e }
merge_loop-Merged (suc fuel) curr tree f t = elim (merge_loop-cases fuel curr tree) [
  | inl same ↦ rw same (record { forest = f; kept = λ b e. e; back = λ b e. e })
  | inr (l, u, more) ↦
      let buddy = buddy_of curr in
      let half = (buddy_of-half curr l).0 in
      let only : (m : ℕ) → m / 2 ≡ curr / 2 → m ≢ curr → m ≡ buddy = λ m. buddy_of-only curr m l in
      let f' = merge-IsForest curr buddy tree f l t u half only in
      let up = merge_parent curr buddy tree f l t u half only in
      let m = merge_loop-Merged fuel (curr / 2) (merge_one curr buddy tree) f' up in
      rw more (record {
        forest = m.forest;
        kept = λ b e. m.kept b (merge-alloc curr buddy tree f l t u half only b e);
        back = λ b e. alloc-merge curr buddy tree f l t u half only b (m.back b e);
      })
]
