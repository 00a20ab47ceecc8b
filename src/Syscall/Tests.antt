-- ===== src/Syscall/Tests.antt =====
-- The theorems of the system calls at a string, a range and a heap.
use kernel_smp.Base.{ℕ, ◌≡◌, ◌⊎◌, refl, none, ◌==◌, if◌then◌else◌, arith}
use kernel_smp.Vmm.{zero_entry}
use kernel_smp.Vma.{black}
use kernel_smp.Vma.Map.{Space}
use kernel_smp.Syscall.{Heap, sys_malloc}
use kernel_smp.Syscall.Break.{IsHeap, Granted, sys_malloc_lem}

-- "Hi" at 0x400000.
abbrev text : ℕ → ℕ
text p = if p == 0x400000 then 72 else if p == 0x400001 then 105 else 0

abbrev heap : Heap
heap = record { heap_start = 0x401000; heap_curr = 0x401010; heap_end = 0x405000 }

abbrev space : Space
space = record {
  areas = record {
    area = λ p. record {
      vm_start = 0;
      vm_end = 0;
      vm_flags = 0;
      left = 0;
      right = 0;
      parent = 0;
      color = black;
      next = 0;
      prev = 0;
    };
    tree_root = 0;
    list_head = 0;
    count = 0;
  };
  vmm = record {
    tables = λ t i. zero_entry;
    pmm = record { bitmap = 4096; bitmap_size = 0; bytes = λ i. 0 };
    hint = none;
  };
  cr3 = 0;
}

abbrev grown : Heap
grown = record { heap_start = 0x401000; heap_curr = 0x401080; heap_end = 0x405000 }

sys_malloc_lem_example :
    IsHeap grown
    × (grown.heap_start ≡ heap.heap_start)
    × (Granted 100 heap grown heap.heap_curr ⊎ ((heap.heap_curr ≡ 0) × (grown ≡ heap)))
unfolding sys_malloc
sys_malloc_lem_example =
    sys_malloc_lem 1 0 100 heap grown space space 0x401010
      (record { low = omega arith; high = omega arith; aligned = refl; whole = refl }) (omega arith)
      (omega arith) refl
