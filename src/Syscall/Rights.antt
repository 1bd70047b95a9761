-- ===== src/Syscall/Rights.antt =====
-- syscall.c: no area may be written and be code at once.
use enclave_os.Prelude.{
  ℕ, ◌+◌, ◌*◌, ◌/◌, ◌%◌, ◌≡◌, ◌<◌, refl, Bool, true, false, not, ◌&&◌, ◌||◌, List, [], ◌∷◌, ltb,
  ◌==◌, if◌then◌else◌, arith, Bool-cases, inl, inr, accepted, accepts_below, some, Option-cases,
  ◌^◌,
}
use enclave_os.Vma.{VmaNode, with_flags, vma_find_free_area, page_up, page_down}
use enclave_os.Vma.Edit.Flags.{
  all_flags, vma_add-all_flags, vma_unmap_range-all_flags, vma_protect_range-all_flags,
}
use enclave_os.Paging.Fault.{can_read, can_write, can_exec}
use enclave_os.Syscall.{
  Process, Call, mmap, munmap, mprotect, brk, vma_flags_of, mmap_at, sys_mmap_handler,
  sys_munmap_handler, sys_mprotect_handler, set_heap_end, create_heap, move_brk, sys_brk_handler,
  find_heap, user_heap_start, end_of, syscall, run_calls,
}

-- The flags are among the four of include/vma.h, and not both VMA_WRITE and VMA_EXEC.
abbrev pub is_safe : ℕ → Bool
is_safe flags = ltb flags 16 && not (can_write flags && can_exec flags)

-- The flags from mprotect's, over the old ones.
protects : ℕ → Bool
protects i = not (is_safe (i % 8)) || not (is_safe (i / 8)) || is_safe (with_flags (i % 8) (i / 8))

with_flags-is_safe :
    (new old : ℕ)
    → new < 8
    → is_safe new ≡ true
    → is_safe old ≡ true
    → is_safe (with_flags new old) ≡ true
unfolding protects accepts_below
with_flags-is_safe new old n s o =
    let low : (old * 8 + new) % 8 ≡ new = omega arith in
    let high : (old * 8 + new) / 8 ≡ old = omega arith in
    let bound : old < 16 = ground (arith, o) in
    let all = accepted protects 128 {i = old * 8 + new} (omega arith) refl in
    ground (arith, rw (low, high) at all, s, o)

vma_flags_of-is_safe :
    (prot : ℕ)
    → (can_write prot && can_exec prot) ≡ false
    → (vma_flags_of prot < 8) × (is_safe (vma_flags_of prot) ≡ true)
unfolding vma_flags_of
vma_flags_of-is_safe prot h = go (can_read prot) (can_write prot) (can_exec prot) h
  where
    go :
        (b c d : Bool)
        → (c && d) ≡ false
        → ((if b then 1 else 0) + (if c then 2 else 0) + (if d then 4 else 0) < 8)
          × (is_safe ((if b then 1 else 0) + (if c then 2 else 0) + (if d then 4 else 0)) ≡ true)
    go true true true e = absurd (ground (arith, e))
    go false true true e = absurd (ground (arith, e))
    go true true false e = (omega arith, refl)
    go true false true e = (omega arith, refl)
    go true false false e = (omega arith, refl)
    go false true false e = (omega arith, refl)
    go false false true e = (omega arith, refl)
    go false false false e = (omega arith, refl)

-- Every area has such flags.
abbrev pub AllSafe : Process → Type 0
AllSafe p = all_flags is_safe p.vmas ≡ true

set_heap_end-all_flags :
    (end : ℕ) (vs : List VmaNode)
    → all_flags is_safe vs ≡ true
    → all_flags is_safe (set_heap_end end vs) ≡ true
unfolding set_heap_end
set_heap_end-all_flags end [] a = refl
set_heap_end-all_flags end (v ∷ vs) a =
    let x : is_safe v.flags ≡ true = ground (arith, a) in
    let y : all_flags is_safe vs ≡ true = ground (arith, a) in
    elim (Bool-cases (v.start == user_heap_start)) [
      | inl heap ↦ rw heap (ground (arith, x, y))
      | inr other ↦ rw other (ground (arith, x, set_heap_end-all_flags end vs y))
    ]

mmap_at-AllSafe :
    (map_addr len prot : ℕ) (p : Process)
    → AllSafe p
    → (can_write prot && can_exec prot) ≡ false
    → AllSafe (mmap_at map_addr len prot p).1
unfolding mmap_at
mmap_at-AllSafe map_addr len prot p a h =
    let (_, safe) = vma_flags_of-is_safe prot h in
    let added =
      vma_add-all_flags is_safe p.vmas p.nodes a map_addr ((map_addr + len) % 2 ^ 32)
        (vma_flags_of prot) safe in
    ground (arith, added)

sys_mmap_handler-AllSafe :
    (addr len prot flags : ℕ) (p : Process)
    → AllSafe p
    → AllSafe (sys_mmap_handler addr len prot flags p).1
unfolding sys_mmap_handler
sys_mmap_handler-AllSafe addr len prot flags p a =
    elim (Bool-cases (can_write prot && can_exec prot)) [
      | inl both ↦ ground (arith, a, both)
      | inr one ↦
          let found = vma_find_free_area (some p.vmas) (page_up len) in
          let x = mmap_at-AllSafe found (page_up len) prot p a one in
          let y = mmap_at-AllSafe (page_down addr) (page_up len) prot p a one in
          ground (arith, a, one, x, y)
    ]

sys_munmap_handler-AllSafe :
    (addr len : ℕ) (p : Process) → AllSafe p → AllSafe (sys_munmap_handler addr len p).1
unfolding sys_munmap_handler
sys_munmap_handler-AllSafe addr len p a =
    let x = vma_unmap_range-all_flags is_safe p.vmas p.nodes a (page_down addr) (end_of addr len) in
    ground (arith, a, x)

sys_mprotect_handler-AllSafe :
    (addr len prot : ℕ) (p : Process) → AllSafe p → AllSafe (sys_mprotect_handler addr len prot p).1
unfolding sys_mprotect_handler
sys_mprotect_handler-AllSafe addr len prot p a =
    elim (Bool-cases (can_write prot && can_exec prot)) [
      | inl both ↦ ground (arith, a, both)
      | inr one ↦
          let (low, safe) = vma_flags_of-is_safe prot one in
          let x =
            vma_protect_range-all_flags is_safe p.vmas p.nodes a (page_down addr) (end_of addr len)
              (vma_flags_of prot)
              (λ old o. with_flags-is_safe (vma_flags_of prot) old low safe o) in
          ground (arith, a, one, x)
    ]

create_heap-AllSafe : (new_brk : ℕ) (p : Process) → AllSafe p → AllSafe (create_heap new_brk p).1
unfolding create_heap
create_heap-AllSafe new_brk p a =
    let x = vma_add-all_flags is_safe p.vmas p.nodes a user_heap_start new_brk 3 refl in
    ground (arith, a, x)

move_brk-AllSafe :
    (new_brk : ℕ) (heap : VmaNode) (p : Process) → AllSafe p → AllSafe (move_brk new_brk heap p).1
unfolding move_brk
move_brk-AllSafe new_brk heap p a =
    let x = set_heap_end-all_flags new_brk p.vmas a in ground (arith, a, x)

sys_brk_handler-AllSafe :
    (new_brk : ℕ) (p : Process) → AllSafe p → AllSafe (sys_brk_handler new_brk p).1
unfolding sys_brk_handler
sys_brk_handler-AllSafe new_brk p a = elim (Option-cases (find_heap p.vmas)) [
  | inl e ↦ let x = create_heap-AllSafe new_brk p a in ground (arith, a, e, x)
  | inr (heap, e) ↦ let x = move_brk-AllSafe new_brk heap p a in ground (arith, a, e, x)
]

syscall-AllSafe : (c : Call) (p : Process) → AllSafe p → AllSafe (syscall c p).1
unfolding syscall
syscall-AllSafe (mmap addr len prot flags) p a = sys_mmap_handler-AllSafe addr len prot flags p a
syscall-AllSafe (munmap addr len) p a = sys_munmap_handler-AllSafe addr len p a
syscall-AllSafe (mprotect addr len prot) p a = sys_mprotect_handler-AllSafe addr len prot p a
syscall-AllSafe (brk new_brk) p a = sys_brk_handler-AllSafe new_brk p a

-- If the areas of a process have flags below 16 and none may be written and is code at once, that is
-- so after any sequence of calls of mmap, munmap, mprotect and brk with any arguments, whether they
-- succeed or fail.
pub run_calls-AllSafe : (cs : List Call) (p : Process) → AllSafe p → AllSafe (run_calls cs p)
unfolding run_calls
run_calls-AllSafe [] p a = a
run_calls-AllSafe (c ∷ cs) p a = run_calls-AllSafe cs (syscall c p).1 (syscall-AllSafe c p a)
