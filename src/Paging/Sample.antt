-- ===== src/Paging/Sample.antt =====
-- A directory with one table and one page that two directories share.
use enclave_os.Prelude.{
  ℕ, ◌+◌, ◌*◌, refl, true, arith, ltb, ◌==◌, ◌&&◌, if◌then◌else◌, some, [], ◌∷◌,
}
use enclave_os.Pmm.{Pmm}
use enclave_os.Paging.{Flags, Vmm, no_flags, zero_entry, table_flags}
use enclave_os.Paging.Walk.{IsTree}
use enclave_os.Paging.Fault.{Space}
use enclave_os.Paging.Fault.Copy.{Counted}

-- Of sixteen pages the first four are in use; page 3 has two references.
abbrev pub pool : Pmm
pool = record {
  bitmap = λ k b. ltb (8 * k + b) 4;
  refcounts = λ i. if i == 3 then 2 else if ltb i 4 then 1 else 0;
  total_available_pages = 16;
  used_pages = 4;
  max_page = 16;
  total_allocs = 4;
  total_frees = 0;
}

abbrev pub shared_flags : Flags
shared_flags = record no_flags { present = true; user = true; cow = true }

-- Page 1 is the directory, page 2 its table for the index 5, and page 3 is shown by its entry 7.
abbrev pub machine : Vmm
machine = record {
  words = λ f i.
      if f == 1 && i == 5
      then record { frame = 2; flags = table_flags }
      else if f == 2 && i == 7
      then record { frame = 3; flags = shared_flags }
      else zero_entry;
  pmm = pool;
  boot_pd = 0;
}

abbrev pub address : ℕ
address = 5 * 0x400000 + 7 * 0x1000

abbrev pub writer : Space
writer = record {
  pdir = some 1;
  vmas = record { node = 0xD0000008; start = 0x1400000; end = 0x1800000; flags = 3 } ∷ [];
}

pub machine-IsTree : IsTree 1 machine
machine-IsTree = record {
  limit = omega arith;
  root = refl;
  tables = λ d p. ground (arith, p);
  below = λ d p e. ground (arith, p, e);
  once = λ d d' p p' e. ground (arith, p, p');
}

pub machine-Counted : Counted 1 address machine
machine-Counted = record {
  tree = machine-IsTree;
  idle = λ g u. ground (arith, u);
  apart = λ e. absurd (ground (arith, e));
}
