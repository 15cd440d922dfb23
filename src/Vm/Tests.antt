-- ===== src/Vm/Tests.antt =====
-- Page tables on a small memory.
use cse_536_advanced_operati.Base.{
  ℕ, zero, suc, ◌+◌, ◌-◌, ◌/◌, ◌%◌, ◌≡◌, refl, Bool, List, [], ◌∷◌, ret, arith,
}
use cse_536_advanced_operati.Vm.Memory.{Memory}
use cse_536_advanced_operati.Vm.Table.{PageTable, empty_table, mappages}
use cse_536_advanced_operati.Vm.Table.Range.{MappedRange, mappages-MappedRange}

abbrev pages : ℕ → ℕ → List ℕ
pages zero a = []
pages (suc n) a = a ∷ pages n (a + 4096)

abbrev memory : Memory
memory = record { byte = λ a. a % 256; freelist = pages 8 0x8200_0000; end_addr = 0x8010_0000 }

mappages-MappedRange_example :
    (w : Bool × PageTable × Memory) × (mappages empty_table 0x1800 0x1000 0x8100_0000 22 memory
      ≡ ret w)
    × MappedRange empty_table
        (0x1800 / 4096)
        ((0x1800 + 0x1000 - 1) / 4096 - 0x1800 / 4096)
        0x8100_0000
        22
        memory
        w
mappages-MappedRange_example =
    mappages-MappedRange empty_table 0x1800 0x1000 0x8100_0000 22 memory (omega arith) (omega arith)
      (λ k l u. refl) (omega arith)
