-- ===== src/Paging/Space/Share.antt =====
-- paging.c: the loop that shares the pages of one table with the child.
use enclave_os.Prelude.{
  ℕ, zero, suc, ◌+◌, ◌*◌, ◌/◌, ◌%◌, ◌≡◌, ◌≢◌, ◌≤◌, ◌<◌, refl, sym, ap, ◌∙◌, false, ◌&&◌, arith,
  ◌==◌, leb, ltb, if◌then◌else◌, Bool-cases, inl, inr, ==_iff,
}
use enclave_os.Pmm.{page_size}
use enclave_os.Pmm.Refs.{pmm_inc_ref-pages}
use enclave_os.Paging.{Entry, Vmm, set_entry}
use enclave_os.Paging.Walk.{is_used}
use enclave_os.Paging.Space.{cow_entry, inc_page, share_loop}

-- What the parent's entry becomes, and what the child's gets over `e`.
abbrev pub parent_entry : Entry → Entry
parent_entry pte = if pte.flags.present then cow_entry pte else pte

abbrev pub child_entry : Entry → Entry → Entry
child_entry pte e = if pte.flags.present then cow_entry pte else e

-- The entries from `lo` to `hi` of the parent's table `p` are shared with the table `c`.
pub record Shared (lo hi p c : ℕ) (s s' : Vmm) : Type 0 where
  pub parent : (k : ℕ) → lo ≤ k → k < hi → s'.words p k ≡ parent_entry (s.words p k)
  pub child : (k : ℕ) → lo ≤ k → k < hi → s'.words c k ≡ child_entry (s.words p k) (s.words c k)
  pub parent_out : (k : ℕ) → (leb lo k && ltb k hi) ≡ false → s'.words p k ≡ s.words p k
  pub child_out : (k : ℕ) → (leb lo k && ltb k hi) ≡ false → s'.words c k ≡ s.words c k
  pub rest : (g k : ℕ) → g ≢ p → g ≢ c → s'.words g k ≡ s.words g k
  pub used : (g : ℕ) → is_used g s' ≡ is_used g s
  pub pages : s'.pmm.max_page ≡ s.pmm.max_page
  pub boot : s'.boot_pd ≡ s.boot_pd

abbrev share_one : ℕ → ℕ → ℕ → Vmm → Vmm
share_one j p c s =
    if (s.words p j).flags.present
    then set_entry p j (cow_entry (s.words p j))
        (set_entry c j (cow_entry (s.words p j)) (inc_page (s.words p j).frame s))
    else s

share_loop-suc :
    (n j p c : ℕ) (s : Vmm)
    → share_loop (suc n) j p c s ≡ share_loop n (j + 1) p c (share_one j p c s)
unfolding share_loop
share_loop-suc n j p c s = refl

module _ (j p c : ℕ) (s : Vmm) (d : p ≢ c) where
  one_parent : (share_one j p c s).words p j ≡ parent_entry (s.words p j)
  unfolding set_entry
  one_parent = ground arith

  one_child : (share_one j p c s).words c j ≡ child_entry (s.words p j) (s.words c j)
  unfolding set_entry
  one_child = ground (arith, d)

  one_parent_out : (k : ℕ) → k ≢ j → (share_one j p c s).words p k ≡ s.words p k
  unfolding set_entry
  one_parent_out k q = ground (arith, q, d)

  one_child_out : (k : ℕ) → k ≢ j → (share_one j p c s).words c k ≡ s.words c k
  unfolding set_entry
  one_child_out k q = ground (arith, q, d)

  one_rest : (g k : ℕ) → g ≢ p → g ≢ c → (share_one j p c s).words g k ≡ s.words g k
  unfolding set_entry
  one_rest g k q r = ground (arith, q, r)

  one_pmm :
      ((g : ℕ) → is_used g (share_one j p c s) ≡ is_used g s)
      × ((share_one j p c s).pmm.max_page ≡ s.pmm.max_page)
      × ((share_one j p c s).boot_pd ≡ s.boot_pd)
  unfolding set_entry
  one_pmm = elim (Bool-cases (s.words p j).flags.present) [
    | inl h ↦
        let (b, m) = pmm_inc_ref-pages ((s.words p j).frame * page_size) s.pmm in
        rw h (λ g. ap (λ t. t (g / 8) (g % 8)) b, m, refl)
    | inr h ↦ rw h (λ g. refl, refl, refl)
  ]

Shared-none : (j p c : ℕ) (s : Vmm) → Shared j j p c s s
Shared-none j p c s = record {
  parent = λ k l h. absurd (omega (arith, l, h));
  child = λ k l h. absurd (omega (arith, l, h));
  parent_out = λ k q. refl;
  child_out = λ k q. refl;
  rest = λ g k q r. refl;
  used = λ g. refl;
  pages = refl;
  boot = refl;
}

Shared-next :
    (j hi p c : ℕ) (s s' : Vmm)
    → p ≢ c
    → j < hi
    → Shared (j + 1) hi p c (share_one j p c s) s'
    → Shared j hi p c s s'
Shared-next j hi p c s s' d h r =
    let (u, m, b) = one_pmm j p c s d in
    record {
      parent = λ k l q. elim (Bool-cases (k == j)) [
        | inl same ↦
            let e = (==_iff k j).0 same in
            ap (s'.words p) e
            ∙ r.parent_out j (ground arith)
            ∙ one_parent j p c s d
            ∙ ap (λ i. parent_entry (s.words p i)) (sym e)
        | inr other ↦
            let n : k ≢ j = λ e. absurd (ground (arith, other, e)) in
            r.parent k (omega (arith, l, n)) q ∙ ap parent_entry (one_parent_out j p c s d k n)
      ];
      child = λ k l q. elim (Bool-cases (k == j)) [
        | inl same ↦
            let e = (==_iff k j).0 same in
            ap (s'.words c) e
            ∙ r.child_out j (ground arith)
            ∙ one_child j p c s d
            ∙ ap (λ i. child_entry (s.words p i) (s.words c i)) (sym e)
        | inr other ↦
            let n : k ≢ j = λ e. absurd (ground (arith, other, e)) in
            r.child k (omega (arith, l, n)) q
            ∙ ap (λ e. child_entry e ((share_one j p c s).words c k)) (one_parent_out j p c s d k n)
            ∙ ap (child_entry (s.words p k)) (one_child_out j p c s d k n)
      ];
      parent_out = λ k q.
          let n : k ≢ j = λ e. absurd (ground (arith, q, e, h)) in
          r.parent_out k (ground (arith, q)) ∙ one_parent_out j p c s d k n;
      child_out = λ k q.
          let n : k ≢ j = λ e. absurd (ground (arith, q, e, h)) in
          r.child_out k (ground (arith, q)) ∙ one_child_out j p c s d k n;
      rest = λ g k q q'. r.rest g k q q' ∙ one_rest j p c s d g k q q';
      used = λ g. r.used g ∙ u g;
      pages = r.pages ∙ m;
      boot = r.boot ∙ b;
    }

pub share_loop-Shared :
    (n j hi p c : ℕ) (s : Vmm) → p ≢ c → hi ≡ j + n → Shared j hi p c s (share_loop n j p c s)
share_loop-Shared zero j hi p c s d e =
    let same : hi ≡ j = omega arith in rw same (unfold share_loop in Shared-none j p c s)
share_loop-Shared (suc n) j hi p c s d e = rw (share_loop-suc n j p c s) (
    Shared-next j hi p c s _ d (omega arith)
      (share_loop-Shared n (j + 1) hi p c (share_one j p c s) d (omega arith)))
