-- ===== src/Heap/Forest.antt =====
-- heap.c: the shape of the buddy tree.
use enclave_os.Prelude.{
  ℕ, zero, suc, ◌+◌, ◌*◌, ◌/◌, ◌≡◌, ◌≢◌, ◌≤◌, ◌<◌, refl, sym, ap, ◌∙◌, Option, none, some, arith,
  ◌==◌, Bool-cases, inl, inr, ◌⊎◌,
}
use enclave_os.Heap.{Node, free, split, unused, alloc, write_node, find_free, split_loop}

-- The parent of a node that is in use is split.
abbrev pub IsForest : (ℕ → Node) → Type 0
IsForest tree = (n : ℕ) → 2 ≤ n → tree n ≢ unused → tree (n / 2) ≡ split

-- A forest but for the node `curr`, under which nothing is in use.
record Descent (curr : ℕ) (tree : ℕ → Node) : Type 0 where
  pub low : 1 ≤ curr
  pub above : 2 ≤ curr → tree (curr / 2) ≡ split
  pub not_alloc : tree curr ≢ alloc
  pub others : (n : ℕ) → 2 ≤ n → n ≢ curr → tree n ≢ unused → tree (n / 2) ≡ split
  pub under : (n : ℕ) → 2 ≤ n → n / 2 ≡ curr → tree n ≡ unused

pub Node-cases : (v : Node) → (v ≡ unused) ⊎ (v ≢ unused)
Node-cases unused = inl refl
Node-cases free = inr (λ e. cc)
Node-cases alloc = inr (λ e. cc)
Node-cases split = inr (λ e. cc)

start-Descent : (n : ℕ) (tree : ℕ → Node) → IsForest tree → 1 ≤ n → tree n ≡ free → Descent n tree
start-Descent n tree f l e = record {
  low = l;
  above = λ h. f n h (λ q. cc (e, q));
  not_alloc = λ q. cc (e, q);
  others = λ m h d u. f m h u;
  under = λ m h d. elim (Node-cases (tree m)) [
    | inl q ↦ q
    | inr u ↦ let p = f m h u in let p' = ap tree (sym d) ∙ p in absurd (cc (e, p'))
  ];
}

pub write_same : (tree : ℕ → Node) (n : ℕ) (v : Node) → write_node tree n v n ≡ v
write_same tree n v = ground arith

pub write_other : (tree : ℕ → Node) (n m : ℕ) (v : Node) → m ≢ n → write_node tree n v m ≡ tree m
write_other tree n m v h = ground (arith, h)

abbrev pub down_one : ℕ → (ℕ → Node) → (ℕ → Node)
down_one curr tree = write_node (write_node tree curr split) (curr * 2 + 1) free

module _ (curr : ℕ) (tree : ℕ → Node) (d : Descent curr tree) where
  down_else : (n : ℕ) → n ≢ curr → n ≢ curr * 2 + 1 → down_one curr tree n ≡ tree n
  down_else n p q =
      write_other (write_node tree curr split) (curr * 2 + 1) n free q
      ∙ write_other tree curr n split p

  down_curr : down_one curr tree curr ≡ split
  down_curr =
      let l = d.low in
      write_other (write_node tree curr split) (curr * 2 + 1) curr free (omega arith)
      ∙ write_same tree curr split

  down_left : down_one curr tree (curr * 2) ≡ unused
  down_left =
      let l = d.low in
      down_else (curr * 2) (omega arith) (omega arith)
      ∙ d.under (curr * 2) (omega arith) (omega arith)

  child_unused : (b : ℕ) → b < 2 → tree (curr * 2 + b) ≡ unused
  child_unused b h = let l = d.low in d.under (curr * 2 + b) (omega arith) (omega arith)

  -- No child of a child is in use either.
  grandchild : (n b : ℕ) → 2 ≤ n → n ≢ curr → b < 2 → n / 2 ≡ curr * 2 + b → tree n ≡ unused
  grandchild n b h p k q = elim (Node-cases (tree n)) [
    | inl e ↦ e
    | inr u ↦ let s = sym (d.others n h p u) ∙ ap tree q ∙ child_unused b k in absurd (cc s)
  ]

  down_others :
      (n : ℕ)
      → 2 ≤ n
      → n ≢ curr * 2
      → down_one curr tree n ≢ unused
      → down_one curr tree (n / 2) ≡ split
  down_others n h p u = elim (Bool-cases (n / 2 == curr)) [
    | inl below ↦
        let q : n / 2 ≡ curr = ground (arith, below) in ap (down_one curr tree) q ∙ down_curr
    | inr away ↦
        let q : n / 2 ≢ curr = λ q. absurd (ground (arith, away, q)) in
        let l = d.low in
        elim (Bool-cases (n == curr)) [
          | inl here ↦
              let e : n ≡ curr = ground (arith, here) in
              down_else (n / 2) q (omega (arith, e, l))
              ∙ ap (λ m. tree (m / 2)) e
              ∙ d.above (omega (arith, h, e))
          | inr there ↦
              let e : n ≢ curr = λ e. absurd (ground (arith, there, e)) in
              let same = down_else n e (omega (arith, q)) in
              let r : n / 2 ≢ curr * 2 + 1 = λ r. u (same ∙ grandchild n 1 h e (omega arith) r) in
              down_else (n / 2) q r ∙ d.others n h e (λ z. u (same ∙ z))
        ]
  ]

  down_under : (n : ℕ) → 2 ≤ n → n / 2 ≡ curr * 2 → down_one curr tree n ≡ unused
  down_under n h q =
      let l = d.low in
      let e : n ≢ curr = omega (arith, l, q) in
      down_else n e (omega (arith, l, q)) ∙ grandchild n 0 h e (omega arith) (omega (arith, q))

  down-Descent : Descent (curr * 2) (down_one curr tree)
  down-Descent =
      let l = d.low in
      let half : curr * 2 / 2 ≡ curr = omega arith in
      record {
        low = omega arith;
        above = λ h. ap (down_one curr tree) half ∙ down_curr;
        not_alloc = λ q. let s = sym q ∙ down_left in cc s;
        others = λ n h p u. down_others n h p u;
        under = down_under;
      }

  -- What is allocated stays so, and elsewhere.
  down-alloc : (b : ℕ) → tree b ≡ alloc → down_one curr tree b ≡ alloc
  down-alloc b a =
      down_else b (λ q. d.not_alloc (ap tree (sym q) ∙ a))
        (λ q. let s = sym a ∙ ap tree q ∙ child_unused 1 (omega arith) in cc s)
      ∙ a

  -- The node becomes allocated.
  alloc-IsForest : IsForest (write_node tree curr alloc)
  alloc-IsForest n h u =
      let l = d.low in
      elim (Bool-cases (n == curr)) [
        | inl here ↦
            let e : n ≡ curr = ground (arith, here) in
            write_other tree curr (n / 2) alloc (omega (arith, e, h))
            ∙ ap (λ m. tree (m / 2)) e
            ∙ d.above (omega (arith, h, e))
        | inr there ↦
            let e : n ≢ curr = λ e. absurd (ground (arith, there, e)) in
            let same = write_other tree curr n alloc e in
            write_other tree curr (n / 2) alloc (λ q. u (same ∙ d.under n h q))
            ∙ d.others n h e (λ z. u (same ∙ z))
      ]

pub split_loop-suc :
    (levels curr : ℕ) (tree : ℕ → Node)
    → split_loop (suc levels) curr tree ≡ split_loop levels (curr * 2) (down_one curr tree)
unfolding split_loop
split_loop-suc levels curr tree = refl

pub split_loop-zero : (curr : ℕ) (tree : ℕ → Node) → split_loop zero curr tree ≡ (curr, tree)
unfolding split_loop
split_loop-zero curr tree = refl

-- The splits keep the shape, and every allocated node.
split_loop-Descent :
    (levels curr : ℕ) (tree : ℕ → Node)
    → Descent curr tree
    → Descent (split_loop levels curr tree).0 (split_loop levels curr tree).1
      × ((b : ℕ) → tree b ≡ alloc → (split_loop levels curr tree).1 b ≡ alloc)
split_loop-Descent zero curr tree d = rw (split_loop-zero curr tree) (d, λ b a. a)
split_loop-Descent (suc levels) curr tree d =
    let (below, kept) =
      split_loop-Descent levels (curr * 2) (down_one curr tree) (down-Descent curr tree d) in
    rw (split_loop-suc levels curr tree) (below, λ b a. kept b (down-alloc curr tree d b a))

-- The tree after a placement at the free node `node`, with the new node.
pub record Placed (node : ℕ) (tree : ℕ → Node) (new : ℕ) (tree' : ℕ → Node) : Type 0 where
  pub forest : IsForest tree'
  pub there : tree' new ≡ alloc
  pub kept : (b : ℕ) → tree b ≡ alloc → tree' b ≡ alloc
  pub fresh : (b : ℕ) → tree b ≡ alloc → b ≢ new

pub split_loop-Placed :
    (levels node : ℕ) (tree : ℕ → Node)
    → IsForest tree
    → 1 ≤ node
    → tree node ≡ free
    → Placed node tree
        (split_loop levels node tree).0
        (write_node (split_loop levels node tree).1 (split_loop levels node tree).0 alloc)
split_loop-Placed levels node tree f l e =
    let (d, kept) = split_loop-Descent levels node tree (start-Descent node tree f l e) in
    let curr = (split_loop levels node tree).0 in
    let tree1 = (split_loop levels node tree).1 in
    let apart : (b : ℕ) → tree b ≡ alloc → b ≢ curr =
      λ b a q. d.not_alloc (ap tree1 (sym q) ∙ kept b a) in
    record {
      forest = alloc-IsForest curr tree1 d;
      there = write_same tree1 curr alloc;
      kept = λ b a. write_other tree1 curr b alloc (apart b a) ∙ kept b a;
      fresh = apart;
    }

here_free :
    (v : Node) (node n : ℕ)
    → elim v as (λ _. Option ℕ) [ free ↦ some node | _ ↦ none ] ≡ some n
    → (v ≡ free) × (n ≡ node)
here_free unused node n e = cc
here_free free node n e = (refl, ground (arith, e))
here_free alloc node n e = cc
here_free split node n e = cc

below_free :
    (v : Node) (l r : Option ℕ) (node n : ℕ)
    → elim v as (λ _. Option ℕ) [
      | free ↦ some node
      | split ↦ elim l as (λ _. Option ℕ) [ some m ↦ some m | none ↦ r ]
      | _ ↦ none
    ]
      ≡ some n
    → ((v ≡ free) × (n ≡ node)) ⊎ (l ≡ some n) ⊎ (r ≡ some n)
below_free unused l r node n e = cc
below_free free l r node n e = inl (refl, ground (arith, e))
below_free alloc l r node n e = cc
below_free split (some m) r node n e = inr (inl e)
below_free split none r node n e = inr (inr e)

-- find_free returns a free node.
pub find_free-free :
    (levels node n : ℕ) (tree : ℕ → Node) → find_free levels node tree ≡ some n → tree n ≡ free
unfolding find_free
find_free-free zero node n tree e = let (f, q) = here_free (tree node) node n e in ap tree q ∙ f
find_free-free (suc levels) node n tree e = elim (below_free (tree node) _ _ node n e) [
  | inl (f, q) ↦ ap tree q ∙ f
  | inr (inl l) ↦ find_free-free levels (node * 2) n tree l
  | inr (inr r) ↦ find_free-free levels (node * 2 + 1) n tree r
]
