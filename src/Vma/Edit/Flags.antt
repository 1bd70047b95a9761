-- ===== src/Vma/Edit/Flags.antt =====
-- vma.c: what the functions that edit the list do to the flags of its areas.
use enclave_os.Prelude.{
  ℕ, ◌≡◌, refl, Bool, true, ◌&&◌, List, [], ◌∷◌, ◌++◌, arith, ltb, some, Bool-cases, inl, inr,
}
use enclave_os.Kerrno.{enomem}
use enclave_os.Vma.{
  VmaNode, Nodes, kmalloc_node, page_down, page_up, with_flags, vma_insert, insert_after,
}
use enclave_os.Vma.Edit.{
  Round, Edited, go, stop, edited, walk, unmap_round, protect_round, vma_add, vma_unmap_range,
  vma_protect_range,
}

-- The test accepts the flags of every area of the list.
abbrev pub all_flags : (ℕ → Bool) → List VmaNode → Bool
all_flags ok [] = true
all_flags ok (v ∷ vs) = ok v.flags && all_flags ok vs

all_flags-append :
    (ok : ℕ → Bool) (us vs : List VmaNode)
    → all_flags ok us ≡ true
    → all_flags ok vs ≡ true
    → all_flags ok (us ++ vs) ≡ true
all_flags-append ok [] vs h k = k
all_flags-append ok (u ∷ us) vs h k =
    let (a, b) = both (ok u.flags) (all_flags ok us) h in
    let rest = all_flags-append ok us vs b k in ground (arith, a, rest)
  where
    both : (x y : Bool) → (x && y) ≡ true → (x ≡ true) × (y ≡ true)
    both x y e = ground (arith, e)

-- A round that keeps the test on the nodes that it puts in place.
abbrev RoundKeeps : (ℕ → Bool) → (VmaNode → Nodes → Round) → Type 0
RoundKeeps ok step =
    (v : VmaNode) (h h' : Nodes) (front : List VmaNode)
    → ok v.flags ≡ true
    → step v h ≡ go front h'
    → all_flags ok front ≡ true

walk-all_flags :
    (ok : ℕ → Bool) (step : VmaNode → Nodes → Round)
    → RoundKeeps ok step
    → (vs : List VmaNode) (h : Nodes) → all_flags ok vs ≡ true
    → all_flags ok (walk step vs h).vmas ≡ true
unfolding walk
walk-all_flags ok step keeps [] h a = refl
walk-all_flags ok step keeps (v ∷ vs) h a =
    go_on (λ h'. walk-all_flags ok step keeps vs h' next) (step v h) refl
  where
    here : ok v.flags ≡ true
    here = ground (arith, a)

    next : all_flags ok vs ≡ true
    next = ground (arith, a)

    go_on :
        ((h' : Nodes) → all_flags ok (walk step vs h').vmas ≡ true)
        → (r : Round) → step v h ≡ r
        → all_flags ok
            (elim r as (λ _. Edited) [
              | go front h' ↦
                  let rest = walk step vs h' in record rest { vmas = front ++ rest.vmas }
              | stop h' ↦ edited enomem (v ∷ vs) h'
            ]).vmas
          ≡ true
    go_on rest (go front h') e =
        all_flags-append ok front (walk step vs h').vmas (keeps v h h' front here e) (rest h')
    go_on rest (stop h') e = a

unmap_round-keeps : (ok : ℕ → Bool) (start end : ℕ) → RoundKeeps ok (unmap_round start end)
unfolding unmap_round
unmap_round-keeps ok start end v h h' front o e = ground (arith, o, e)

protect_round-keeps :
    (ok : ℕ → Bool) (start end new : ℕ)
    → ((old : ℕ) → ok old ≡ true → ok (with_flags new old) ≡ true)
    → RoundKeeps ok (protect_round start end new)
unfolding protect_round
protect_round-keeps ok start end new f v h h' front o e =
    let o' = f v.flags o in ground (arith, o, o', e)

module _ (ok : ℕ → Bool) (vs : List VmaNode) (h : Nodes) (a : all_flags ok vs ≡ true) where
  pub vma_unmap_range-all_flags :
      (start end : ℕ) → all_flags ok (vma_unmap_range (some vs) start end h).vmas ≡ true
  unfolding vma_unmap_range
  vma_unmap_range-all_flags start end =
      walk-all_flags ok (unmap_round start end) (unmap_round-keeps ok start end) vs h a

  pub vma_protect_range-all_flags :
      (start end new : ℕ)
      → ((old : ℕ) → ok old ≡ true → ok (with_flags new old) ≡ true)
      → all_flags ok (vma_protect_range (some vs) start end new h).vmas ≡ true
  unfolding vma_protect_range
  vma_protect_range-all_flags start end new f =
      walk-all_flags ok (protect_round start end new) (protect_round-keeps ok start end new f) vs h
        a

insert_after-all_flags :
    (ok : ℕ → Bool) (v : VmaNode) (vs : List VmaNode)
    → ok v.flags ≡ true
    → all_flags ok vs ≡ true
    → all_flags ok (insert_after v vs) ≡ true
unfolding insert_after
insert_after-all_flags ok v [] o a = ground (arith, o)
insert_after-all_flags ok v (u ∷ us) o a =
    let (x, y) = both (ok u.flags) (all_flags ok us) a in
    ground (arith, o, x, y, insert_after-all_flags ok v us o y)
  where
    both : (x y : Bool) → (x && y) ≡ true → (x ≡ true) × (y ≡ true)
    both x y e = ground (arith, e)

vma_insert-all_flags :
    (ok : ℕ → Bool) (v : VmaNode) (vs : List VmaNode)
    → ok v.flags ≡ true
    → all_flags ok vs ≡ true
    → all_flags ok (vma_insert v vs) ≡ true
unfolding vma_insert
vma_insert-all_flags ok v [] o a = ground (arith, o)
vma_insert-all_flags ok v (u ∷ us) o a = elim (Bool-cases (ltb v.start u.start)) [
  | inl below ↦ rw below (ground (arith, o, a))
  | inr above ↦
      let x : ok u.flags ≡ true = ground (arith, a) in
      let y : all_flags ok us ≡ true = ground (arith, a) in
      rw above (ground (arith, x, insert_after-all_flags ok v us o y))
]

pub vma_add-all_flags :
    (ok : ℕ → Bool) (vs : List VmaNode) (h : Nodes)
    → all_flags ok vs ≡ true
    → (start end flags : ℕ) → ok flags ≡ true
    → all_flags ok (vma_add (some vs) start end flags h).vmas ≡ true
unfolding vma_add
vma_add-all_flags ok vs h a start end flags o =
    let new : VmaNode = record {
      node = kmalloc_node h.fresh;
      start = page_down start;
      end = page_up end;
      flags = flags;
    } in
    let put = vma_insert-all_flags ok new vs o a in ground (arith, a, put)
