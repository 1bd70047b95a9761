-- ===== src/Vfs/Sound.antt =====
-- vfs.c: what every step on descriptors keeps.
use enclave_os.Prelude.{
  ℕ, suc, ◌^◌, ◌≡◌, ◌≢◌, ◌≤◌, ◌<◌, ap, ◌∙◌, true, false, some, ◌==◌, if◌then◌else◌, arith, get_or,
  set, Bool-cases, Option-cases, inl, inr,
}
use enclave_os.Prelude.{if-true, if-false}
use enclave_os.Vfs.{
  share_found, release_found, Vfs, OpenFile, find_file, update_file, remove_file, write_node, up,
  down, more_refs, drop_node, share, release,
}
use enclave_os.Vfs.Files.{refs_of-none}
use enclave_os.Vfs.Count.{count, count-get, Sound}
use enclave_os.Vfs.Share.{shared, shared-Sound}
use enclave_os.Vfs.Release.{last-Sound, less-Sound, last, less}

pub share-some :
    (a i : ℕ) (s : Vfs) (of : OpenFile)
    → find_file a s.files ≡ some of
    → share a i s ≡ record s {
      files = update_file a (λ f. record f { ref_count = up f.ref_count }) s.files;
      nodes = if of.node == 0 then s.nodes else write_node of.node more_refs s.nodes;
      fd_table = set s.fd_table i a;
    }
unfolding share share_found
share-some a i s of e = ap (λ o. share_found a i o s) e

-- A descriptor names an open file.
pub named_file :
    (k a : ℕ) (s : Vfs)
    → Sound k s
    → a ≢ 0
    → 1 ≤ count a s.fd_table
    → (of : OpenFile) × (find_file a s.files ≡ some of)
named_file k a s h na c = elim (Option-cases (find_file a s.files)) [
  | inl gone ↦
      let none_left = refs_of-none a s.files gone in
      let counted = h.refs a na in absurd (omega (arith, none_left, counted, c))
  | inr found ↦ found
]

pub share-Sound :
    (k a i : ℕ) (s : Vfs)
    → Sound k s
    → a ≢ 0
    → i < 256
    → get_or s.fd_table i 0 ≡ 0
    → 1 ≤ count a s.fd_table
    → suc k < 2 ^ 32
    → Sound (suc k) (share a i s)
unfolding shared
share-Sound k a i s h na inside free c fits =
    let (of, found) = named_file k a s h na c in
    rw (share-some a i s of found) (shared-Sound k a i s h na inside free c fits of found)

release-last :
    (a : ℕ) (s : Vfs) (of : OpenFile)
    → find_file a s.files ≡ some of
    → down of.ref_count ≡ 0
    → release a s ≡ record s {
      nodes = if of.node == 0 then s.nodes else write_node of.node drop_node s.nodes;
      files = remove_file a s.files;
    }
unfolding release release_found
release-last a s of e z =
    let yes : (down of.ref_count == 0) ≡ true = ground (arith, z) in
    ap (λ o. release_found a o s) e ∙ if-true _ _ yes

pub release-less :
    (a : ℕ) (s : Vfs) (of : OpenFile)
    → find_file a s.files ≡ some of
    → down of.ref_count ≢ 0
    → release a s
      ≡ record s { files = update_file a (λ f. record f { ref_count = down f.ref_count }) s.files }
unfolding release release_found
release-less a s of e z =
    let no : (down of.ref_count == 0) ≡ false = ground (arith, z) in
    ap (λ o. release_found a o s) e ∙ if-false _ _ no

pub release-Sound :
    (k a i : ℕ) (s : Vfs)
    → Sound k s
    → a ≢ 0
    → i < 256
    → get_or s.fd_table i 0 ≡ a
    → k < 2 ^ 32
    → Sound k (release a (record s { fd_table = set s.fd_table i 0 }))
unfolding last less
release-Sound k a i s h na inside named fits =
    let (of, found) = named_file k a s h na (count-get s.fd_table i a named na) in
    let s1 = record s { fd_table = set s.fd_table i 0 } in
    elim (Bool-cases (down of.ref_count == 0)) [
      | inl z ↦
          let zero_left : down of.ref_count ≡ 0 = ground (arith, z) in
          rw (release-last a s1 of found zero_left)
            (last-Sound k a i s h na inside named fits of found zero_left)
      | inr z ↦
          let some_left : down of.ref_count ≢ 0 = λ q. absurd (ground (arith, z, q)) in
          rw (release-less a s1 of found some_left)
            (less-Sound k a i s h na inside named fits of found some_left)
    ]
