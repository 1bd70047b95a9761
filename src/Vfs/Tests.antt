-- ===== src/Vfs/Tests.antt =====
-- Runs on descriptors, from a state in which none is in use.
use enclave_os.Prelude.{
  ℕ, zero, suc, ◌+◌, ◌≡◌, ◌≢◌, refl, false, List, [], ◌∷◌, get_or, arith, some,
}
use enclave_os.Vfs.{
  Vfs, OpenFile, open_node, find_slot, find_file, update_file, remove_file, share, share_found,
  release, release_found, drop_node, vfs_close_fd, sys_dup_handler, unlink_node, opens, dups,
  closes, unlinks, Reach, here, next,
}
use enclave_os.Vfs.Files.{refs_of, users}
use enclave_os.Vfs.Count.{count, Sound}
use enclave_os.Vfs.Steps.{IsOpen, Reach-IsOpen, Reach-Sound}
use enclave_os.Vfs.Leak.{sys_dup_handler-vfs_close_fd}

abbrev zeros : ℕ → List ℕ
zeros zero = []
zeros (suc n) = 0 ∷ zeros n

abbrev start : Vfs
start = record {
  fd_table = zeros 256;
  elsewhere = [];
  files = [];
  nodes = λ n. record { ref_count = 0; is_unlinked = false; size = 0; freed = false };
}

count-zeros : (a n : ℕ) → a ≢ 0 → count a (zeros n) ≡ 0
unfolding count
count-zeros a zero h = refl
count-zeros a (suc n) h = ground (arith, h, count-zeros a n h)

nobody : (n : ℕ) → users n [] ≡ 0
unfolding users
nobody n = refl

no_files : (a n : ℕ) → a ≢ 0 → refs_of a [] ≡ count a (zeros n) + count a []
unfolding refs_of
no_files a n h = let z = count-zeros a n h in let e = count-zeros a 0 h in omega (arith, z, e)

start-Sound : Sound 0 start
start-Sound = record {
  size = refl;
  few = omega arith;
  refs = λ a h. no_files a 256 h;
  held = λ n h. let z = nobody n in omega (arith, z);
  bound = λ n. omega arith;
  live = λ n h u. refl;
}

-- The node 7 is opened and duplicated, the first descriptor is closed, and the file is unlinked.
abbrev state_1 : Vfs
state_1 = (open_node 7 0 0xD0000008 start).1

abbrev state_2 : Vfs
state_2 = (sys_dup_handler 0 state_1).1

abbrev state_3 : Vfs
state_3 = (vfs_close_fd 0 state_2).1

abbrev state_4 : Vfs
state_4 = unlink_node 7 state_3

run : Reach state_1 3 state_4
run = next (next (next here (dups 0)) (closes 0)) (unlinks 7)

still_open : get_or state_4.fd_table 1 0 ≡ 0xD0000008
unfolding open_node find_slot find_file update_file remove_file share share_found release
    release_found drop_node vfs_close_fd sys_dup_handler unlink_node
still_open = refl

abbrev file_1 : OpenFile
file_1 = record { address = 0xD0000008; node = 7; offset = 0; flags = 0; ref_count = 1 }

run_1 : Reach start 1 state_1
unfolding find_file
run_1 = next here (opens 7 0 0xD0000008 (omega arith) refl refl)

state_1-Sound : Sound 1 state_1
state_1-Sound = Reach-Sound 0 start 1 state_1 run_1 start-Sound (omega arith)

-- A file is already open in the first state.
Reach-IsOpen_example : IsOpen 1 state_4
Reach-IsOpen_example =
    Reach-IsOpen 1 3 1 state_1 state_4 run state_1-Sound (omega arith) (rw still_open (omega arith))

descriptor_0 : get_or state_1.fd_table 0 0 ≡ 0xD0000008
unfolding open_node find_slot
descriptor_0 = refl

second_slot : find_slot state_1.fd_table 0 ≡ some 1
unfolding open_node find_slot
second_slot = refl

found_1 : find_file (get_or state_1.fd_table 0 0) state_1.files ≡ some file_1
unfolding open_node find_slot find_file
found_1 = refl

sys_dup_handler-vfs_close_fd_example :
    ((vfs_close_fd 1 (sys_dup_handler 0 state_1).1).1.nodes 7).ref_count
    ≡ suc (state_1.nodes 7).ref_count
sys_dup_handler-vfs_close_fd_example =
    sys_dup_handler-vfs_close_fd 1 0 1 state_1 file_1 state_1-Sound (omega arith) (omega arith)
      second_slot (rw descriptor_0 (omega arith)) found_1 (omega arith)
