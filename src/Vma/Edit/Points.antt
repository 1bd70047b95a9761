-- ===== src/Vma/Edit/Points.antt =====
-- vma_unmap_range and vma_protect_range, address by address.
use enclave_os.Prelude.{
  ℕ, ◌≡◌, refl, sym, ◌⊎◌, inl, inr, ap, Option, none, some, List, [], ◌∷◌, ◌++◌, arith,
  if◌then◌else◌, or_else, ◌/◌, ◌%◌, ◌==◌, bit_and, Bool-cases, Changed, Changed-map,
}
use enclave_os.Prelude.Bits.{bit_and_eight, eight-bit_or, zero-bit_or}
use mathlib.Core.Option
use enclave_os.Kerrno.{success, enomem}
use enclave_os.Vma.{VmaNode, Nodes, with_flags}
use enclave_os.Vma.View.{flags_at, flags_at-append, in_range}
use enclave_os.Vma.Edit.{
  Round, go, stop, Edited, edited, walk, unmap_round, protect_round, vma_unmap_range,
  vma_protect_range,
}

pub Round-cases :
    (r : Round)
    → ((front : List VmaNode) × (h : Nodes) × (r ≡ go front h)) ⊎ ((h : Nodes) × (r ≡ stop h))
Round-cases (go front h) = inl (front, h, refl)
Round-cases (stop h) = inr (h, refl)

flags_at-cons :
    (v : VmaNode) (vs : List VmaNode) (a : ℕ)
    → flags_at (v ∷ vs) a ≡ or_else (flags_at (v ∷ []) a) (flags_at vs a)
flags_at-cons v vs a = ground arith

abbrev pub prepend : List VmaNode → Edited → Edited
prepend front r = record r { vmas = front ++ r.vmas }

module _ (step : VmaNode → Nodes → Round) (v : VmaNode) (vs : List VmaNode) (h h' : Nodes) where
  pub walk-go :
      (front : List VmaNode)
      → step v h ≡ go front h'
      → walk step (v ∷ vs) h ≡ prepend front (walk step vs h')
  unfolding walk
  walk-go front e =
      ap
        (λ (r : Round). elim r [
          | go f k ↦ prepend f (walk step vs k)
          | stop k ↦ edited enomem (v ∷ vs) k
        ])
        e

  pub walk-stop : step v h ≡ stop h' → walk step (v ∷ vs) h ≡ edited enomem (v ∷ vs) h'
  unfolding walk
  walk-stop e = ground arith

-- A loop whose rounds change the flags at an address by `u` changes those of the list by `u`.
module _ (step : VmaNode → Nodes → Round) (u : ℕ → Option ℕ → Option ℕ)
    (u-none : (a : ℕ) → u a none ≡ none)
    (u-or_else : (a : ℕ) (x y : Option ℕ) → u a (or_else x y) ≡ or_else (u a x) (u a y))
    (round : (v : VmaNode) (h h' : Nodes) (front : List VmaNode) (a : ℕ)
      → step v h ≡ go front h'
      → flags_at front a ≡ u a (flags_at (v ∷ []) a)) where
  walk-flags_at :
      (vs : List VmaNode) (h : Nodes) (a : ℕ)
      → (walk step vs h).status ≡ success
      → flags_at (walk step vs h).vmas a ≡ u a (flags_at vs a)
  unfolding walk
  walk-flags_at [] h a e = sym (u-none a)
  walk-flags_at (v ∷ vs) h a e = elim (Round-cases (step v h)) [
    | inl (front, h', k) ↦
        let run = walk-go step v vs h h' front k in
        rw
          (
            run,
            flags_at-append front (walk step vs h').vmas a,
            round v h h' front a k,
            walk-flags_at vs h' a (rw run at e),
            ← u-or_else a (flags_at (v ∷ []) a) (flags_at vs a),
          )
          (ap (u a) (sym (flags_at-cons v vs a)))
    | inr (h', k) ↦ ground (arith, e, walk-stop step v vs h h' k)
  ]

unmap_round-flags_at :
    (start end : ℕ) (v : VmaNode) (h h' : Nodes) (front : List VmaNode) (a : ℕ)
    → unmap_round start end v h ≡ go front h'
    → flags_at front a ≡ (if in_range start end a then none else flags_at (v ∷ []) a)
unfolding unmap_round
unmap_round-flags_at start end v h h' front a e = ground arith

protect_round-flags_at :
    (start end new : ℕ) (v : VmaNode) (h h' : Nodes) (front : List VmaNode) (a : ℕ)
    → protect_round start end new v h ≡ go front h'
    → flags_at front a ≡ (
        if in_range start end a
        then Option.map (with_flags new) (flags_at (v ∷ []) a)
        else flags_at (v ∷ []) a)
unfolding protect_round
protect_round-flags_at start end new v h h' front a e = ground arith

-- When vma_unmap_range returns 0, no address of the range is mapped any more, and every other
-- address is mapped with the flags that it had.
pub vma_unmap_range-flags_at :
    (vs : List VmaNode) (start end : ℕ) (h : Nodes) (a : ℕ)
    → (vma_unmap_range (some vs) start end h).status ≡ success
    → flags_at (vma_unmap_range (some vs) start end h).vmas a
      ≡ (if in_range start end a then none else flags_at vs a)
unfolding vma_unmap_range
vma_unmap_range-flags_at vs start end h a e =
    walk-flags_at (unmap_round start end) (λ b o. if in_range start end b then none else o)
      (λ b. ground arith) (λ b x y. ground arith) (unmap_round-flags_at start end) vs h a e

-- The flags `f` for the old ones: VMA_READ, VMA_WRITE, VMA_EXEC and the bits above VMA_COW are those
-- of `new`, and VMA_COW is set if it was or if `new` has it.
pub record Reflagged (new old f : ℕ) : Type 0 where
  pub rights : f % 8 ≡ new % 8
  pub cow : f / 8 % 2 ≡ (if old / 8 % 2 == 1 then 1 else new / 8 % 2)
  pub rest : f / 16 ≡ new / 16

with_flags-Reflagged : (new old : ℕ) → Reflagged new old (with_flags new old)
with_flags-Reflagged new old =
    let mark = bit_and_eight old in
    elim (Bool-cases (old / 8 % 2 == 1)) [
      | inl e ↦
          let one : old / 8 % 2 ≡ 1 = ground (arith, e) in
          let set : bit_and old 8 ≡ 8 = omega (arith, mark, one) in
          let f = eight-bit_or new in
          rw set (record {
            rights = omega (arith, f);
            cow = rw one (omega (arith, f));
            rest = omega (arith, f);
          })
      | inr e ↦
          let zero_bit : old / 8 % 2 ≡ 0 = ground (arith, e) in
          let none_set : bit_and old 8 ≡ 0 = omega (arith, mark, zero_bit) in
          let f = zero-bit_or new in
          rw none_set (record {
            rights = omega (arith, f);
            cow = rw zero_bit (omega (arith, f));
            rest = omega (arith, f);
          })
    ]

module _ (vs : List VmaNode) (start end new : ℕ) (h : Nodes) (a : ℕ) where
  vma_protect_range-points :
      (vma_protect_range (some vs) start end new h).status ≡ success
      → flags_at (vma_protect_range (some vs) start end new h).vmas a ≡ (
          if in_range start end a
          then Option.map (with_flags new) (flags_at vs a)
          else flags_at vs a)
  unfolding vma_protect_range
  vma_protect_range-points e =
      walk-flags_at (protect_round start end new)
        (λ b o. if in_range start end b then Option.map (with_flags new) o else o)
        (λ b. ground arith) (λ b x y. ground arith) (protect_round-flags_at start end new) vs h a e

  -- When vma_protect_range returns 0, an address of the range that was mapped is mapped with the new
  -- VMA_READ, VMA_WRITE and VMA_EXEC and with VMA_COW if it had that or the new flags have it, an
  -- address of the range that was not mapped is not, and every other address is as it was.
  pub vma_protect_range-flags_at :
      (vma_protect_range (some vs) start end new h).status ≡ success
      → Changed
          (in_range start end a)
          (Reflagged new)
          (flags_at vs a)
          (flags_at (vma_protect_range (some vs) start end new h).vmas a)
  vma_protect_range-flags_at e =
      Changed-map (Reflagged new) (with_flags new) (with_flags-Reflagged new) (in_range start end a)
        (flags_at vs a) _ (vma_protect_range-points e)
