-- ===== src/Elf/Tests.antt =====
-- A program with one segment of a page, behind an area with the same flags, and a segment of two
-- pages that is copied.
use kernel_smp.Base.{
  ℕ, ◌+◌, ◌*◌, ◌/◌, ◌%◌, ◌<◌, ◌≡◌, ◌≢◌, refl, [], ◌∷◌, Option, some, none, ◌==◌, if◌then◌else◌,
  phys_to_virt, arith,
}
use kernel_smp.Base.Bytes.{every_below, bit_on, set_bit, ctz}
use kernel_smp.Pmm.{
  pmm_alloc_frame, alloc_scan, pmm_set_frame, pmm_alloc_frames, scan_qwords, scan_bits, qword_full,
  free_run, mark_run,
}
use kernel_smp.Vmm.{
  TableMemory, zero_entry, table_flags, flags_of, vmm_map_unlocked, leaf_table, descend,
  vmm_virtual_to_physical,
}
use kernel_smp.Vmm.Space.{vmm_map_range, vmm_map_range_unlocked, map_pages}
use kernel_smp.Vma.{black}
use kernel_smp.Vma.Map.{
  Space, vma_map, find_neighbour, overlaps, create, expand_area, back, vmm_opts,
}
use kernel_smp.Syscall.{Heap}
use kernel_smp.Elf.{Image, Loaded, load_segments, elf_load, elf_copy_segment, start_loading}
use kernel_smp.Elf.Placed.{PlacedIn, elf_copy_segment_lem}

-- Every page is frame 5.
abbrev all_mapped : TableMemory
all_mapped t i = record { frame = 5; flags = table_flags }

mapped : (p : ℕ) → p < 5000 → vmm_virtual_to_physical all_mapped 4096 (0x400000 + p) ≢ 0
unfolding vmm_virtual_to_physical
mapped p h e = absurd (omega (arith, e))

elf_copy_segment_lem_example :
    PlacedIn (elf_copy_segment all_mapped 4096 0x400000 0x1000 5000) 0x1000 4500 (
      phys_to_virt (vmm_virtual_to_physical all_mapped 4096 (0x400000 + 4500 / 4096 * 4096))
      + 4500 % 4096)
elf_copy_segment_lem_example =
    elf_copy_segment_lem all_mapped 4096 0x400000 0x1000 5000 4500 refl (omega arith) (omega arith)
      mapped (omega arith)

abbrev space : Space
space = record {
  areas = record {
    area = λ p. record {
      vm_start = 0x400000;
      vm_end = 0x402000;
      vm_flags = 11;
      left = 0;
      right = 0;
      parent = 0;
      color = black;
      next = 0;
      prev = 0;
    };
    tree_root = 64;
    list_head = 64;
    count = 1;
  };
  vmm = record {
    tables = λ t i. zero_entry;
    pmm = record { bitmap = 4096; bitmap_size = 16; bytes = λ i. if i == 0 then 3 else 0 };
    hint = some 0;
  };
  cr3 = 4096;
}

abbrev image : Image
image = record {
  elf_data = 0x9000;
  e_ident = λ i. if i == 0 then 0x7F else if i == 1 then b'E' else if i == 2 then b'L' else b'F';
  e_entry = 0x402000;
  phdr =
      record {
        p_type = 1;
        p_flags = 6;
        p_offset = 64;
        p_vaddr = 0x402000;
        p_filesz = 0;
        p_memsz = 100;
      }
      ∷ [];
}

abbrev no_heap : Heap
no_heap = record { heap_start = 0; heap_curr = 0; heap_end = 0 }

-- There is no memory for the descriptor of the heap.
abbrev loading : Option Loaded
loading = elf_load 2 (λ i. 128) 0 image no_heap space

abbrev program : Loaded
program = elim loading [
  | some r ↦ r
  | none ↦ record { heap = no_heap; state = start_loading space; entry = 0 }
]

loads : loading ≡ some program
unfolding elf_load load_segments vma_map find_neighbour overlaps create expand_area back vmm_opts
    vmm_map_range vmm_map_range_unlocked map_pages vmm_map_unlocked leaf_table descend
    pmm_alloc_frame alloc_scan pmm_set_frame pmm_alloc_frames scan_qwords scan_bits qword_full
    free_run mark_run bit_on set_bit ctz flags_of every_below
loads = refl

entered : program.entry ≡ 0x402000
unfolding elf_load load_segments vma_map find_neighbour overlaps create expand_area back vmm_opts
    vmm_map_range vmm_map_range_unlocked map_pages vmm_map_unlocked leaf_table descend
    pmm_alloc_frame alloc_scan pmm_set_frame pmm_alloc_frames scan_qwords scan_bits qword_full
    free_run mark_run bit_on set_bit ctz flags_of every_below
entered = refl

ends_at : program.state.max_vaddr ≡ 0x402064
unfolding elf_load load_segments vma_map find_neighbour overlaps create expand_area back vmm_opts
    vmm_map_range vmm_map_range_unlocked map_pages vmm_map_unlocked leaf_table descend
    pmm_alloc_frame alloc_scan pmm_set_frame pmm_alloc_frames scan_qwords scan_bits qword_full
    free_run mark_run bit_on set_bit ctz flags_of every_below
ends_at = refl
