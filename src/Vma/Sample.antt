-- ===== src/Vma/Sample.antt =====
-- An ordered list of three areas for the tests of vma.c, and supplies of nodes.
use enclave_os.Prelude.{List, [], ◌∷◌, arith}
use enclave_os.Vma.{VmaNode, Nodes}
use enclave_os.Vma.View.{Above}

abbrev pub code : VmaNode
code = record { node = 1; start = 0x1000; end = 0x3000; flags = 5 }

abbrev pub heap : VmaNode
heap = record { node = 2; start = 0x10000; end = 0x18000; flags = 11 }

abbrev pub mapped : VmaNode
mapped = record { node = 3; start = 0x40000000; end = 0x40002000; flags = 1 }

abbrev pub vmas : List VmaNode
vmas = code ∷ heap ∷ mapped ∷ []

abbrev pub rich : Nodes
rich = record { fresh = 7 ∷ 8 ∷ 9 ∷ []; freed = [] }

abbrev pub poor : Nodes
poor = record { fresh = 7 ∷ []; freed = [] }

abbrev pub empty : Nodes
empty = record { fresh = []; freed = [] }

pub vmas-Above : Above 0 vmas
vmas-Above = omega arith
