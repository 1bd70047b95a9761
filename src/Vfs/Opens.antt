-- ===== src/Vfs/Opens.antt =====
-- vfs.c: opening and unlinking a node.
use enclave_os.Prelude.{
  ℕ, suc, ◌-◌, ◌^◌, ◌⊎◌, ◌≡◌, ◌≢◌, ◌<◌, ap, ◌∙◌, false, none, some, ◌∷◌, ◌==◌, arith, get_or, set,
  Bool-cases, Option-cases, inl, inr, length-set,
}
use enclave_os.Vfs.{
  Vfs, OpenFile, find_file, write_node, up, down, more_refs, less_refs, find_slot, open_node,
  unlink_node,
}
use enclave_os.Vfs.Files.{refs_of, refs_of-none, refs_of-open, users-open}
use enclave_os.Vfs.Share.{count-set_from}
use enclave_os.Vfs.Count.{find_slot-free, Sound}

-- A count that goes up and down again.
down-up : (x : ℕ) → suc x < 2 ^ 32 → down (up x) ≡ x
down-up x h = omega arith

undone-Sound :
    (k n : ℕ) (s : Vfs)
    → Sound k s
    → suc k < 2 ^ 32
    → Sound (suc k) (record s { nodes = write_node n less_refs (write_node n more_refs s.nodes) })
undone-Sound k n s h fits = record {
  size = h.size;
  few = h.few;
  refs = h.refs;
  held = λ m nm. let x = h.held m nm in let b = h.bound m in ground (arith, x, b);
  bound = λ m. let b = h.bound m in ground (arith, b);
  live = λ m nm u. let x = h.live m nm u in ground (arith, x);
}

opened : ℕ → ℕ → ℕ → ℕ → Vfs → Vfs
opened node flags address i s = record s {
  nodes = write_node node more_refs s.nodes;
  files =
      record { address = address; node = node; offset = 0; flags = flags; ref_count = 1 } ∷ s.files;
  fd_table = set s.fd_table i address;
}

open_cases :
    (node flags address : ℕ) (s : Vfs)
    → ((open_node node flags address s).1
        ≡ record s { nodes = write_node node less_refs (write_node node more_refs s.nodes) })
      ⊎ (i : ℕ) × (find_slot s.fd_table 0 ≡ some i)
        × (address ≢ 0)
        × ((open_node node flags address s).1 ≡ opened node flags address i s)
unfolding open_node opened
open_cases node flags address s = elim (Option-cases (find_slot s.fd_table 0)) [
  | inl e ↦ inl (ground (arith, e))
  | inr (i, e) ↦ elim (Bool-cases (address == 0)) [
    | inl z ↦ inl (ground (arith, e, z))
    | inr z ↦ inr (i, e, ground (arith, z), ground (arith, e, z))
  ]
]

opened-Sound :
    (k node flags address i : ℕ) (s : Vfs)
    → Sound k s
    → suc k < 2 ^ 32
    → (s.nodes node).freed ≡ false
    → find_file address s.files ≡ none
    → address ≢ 0
    → i < 256
    → get_or s.fd_table i 0 ≡ 0
    → Sound (suc k) (opened node flags address i s)
unfolding opened
opened-Sound k node flags address i s h fits alive fresh na inside free =
    let of : OpenFile = record {
      address = address;
      node = node;
      offset = 0;
      flags = flags;
      ref_count = 1;
    } in
    let sized = h.size in
    record {
      size = length-set s.fd_table i address ∙ sized;
      few = h.few;
      refs = λ a za.
          let now = refs_of-open of s.files a in
          let before = h.refs a za in
          let none_left = refs_of-none address s.files fresh in
          let c = count-set_from a 0 address i s.fd_table (omega (arith, sized, inside)) free in
          elim (Bool-cases (address == a)) [
            | inl same ↦
                let q : a ≡ address = ground (arith, same) in
                let none_here = ap (λ x. refs_of x s.files) q ∙ none_left in
                ground (arith, now, before, none_here, c, same, za)
            | inr other ↦ ground (arith, now, before, c, other, za)
          ];
      held = λ n nn.
          let now = users-open of s.files n in
          let x = h.held n nn in let b = h.bound n in ground (arith, now, x, b);
      bound = λ n. let b = h.bound n in ground (arith, b);
      live = λ n nn u.
          let now = users-open of s.files n in
          let x = h.live n nn in
          elim (Bool-cases (n == node)) [
            | inl same ↦
                let q : n ≡ node = ground (arith, same) in
                let alive' = ap (λ m. (s.nodes m).freed) q ∙ alive in ground (arith, same, alive')
            | inr other ↦ let old = x (ground (arith, now, u, other)) in ground (arith, other, old)
          ];
    }

pub open_node-Sound :
    (k node flags address : ℕ) (s : Vfs)
    → Sound k s
    → suc k < 2 ^ 32
    → (s.nodes node).freed ≡ false
    → find_file address s.files ≡ none
    → Sound (suc k) (open_node node flags address s).1
open_node-Sound k node flags address s h fits alive fresh = elim (open_cases node flags address s) [
  | inl undone ↦ rw undone (undone-Sound k node s h fits)
  | inr (i, slot, na, done) ↦
      let (low, high, free) = find_slot-free s.fd_table 0 i slot in
      let sized = h.size in
      let first : i ≡ i - 0 = omega arith in
      rw done (
        opened-Sound k node flags address i s h fits alive fresh na (omega (arith, high, sized))
          (ap (λ j. get_or s.fd_table j 0) first ∙ free))
]

pub unlink_node-Sound : (k n : ℕ) (s : Vfs) → Sound k s → Sound k (unlink_node n s)
unfolding unlink_node
unlink_node-Sound k n s h = record {
  size = h.size;
  few = h.few;
  refs = h.refs;
  held = λ m nm. let x = h.held m nm in ground (arith, x);
  bound = λ m. let b = h.bound m in ground (arith, b);
  live = λ m nm u. let x = h.held m nm in let y = h.live m nm u in ground (arith, x, y, u);
}
