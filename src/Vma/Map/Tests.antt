-- ===== src/Vma/Map/Tests.antt =====
-- The theorem of `vma_map` where it grows an area by a page.
use kernel_smp.Base.{ℕ, ◌%◌, ◌≡◌, ◌≢◌, ◌⊎◌, refl, none, some, ◌==◌, if◌then◌else◌, arith, update}
use kernel_smp.Base.Bytes.{every_below, bit_on, set_bit, ctz}
use kernel_smp.Pmm.{
  pmm_alloc_frame, alloc_scan, pmm_set_frame, pmm_alloc_frames, scan_qwords, scan_bits, qword_full,
  free_run, mark_run,
}
use kernel_smp.Vmm.{zero_entry, flags_of, vmm_map_unlocked, leaf_table, descend}
use kernel_smp.Vmm.Space.{vmm_map_range, vmm_map_range_unlocked, map_pages}
use kernel_smp.Vma.{Areas, black, set}
use kernel_smp.Vma.Tree.Ranges.{range, ranges}
use kernel_smp.Vma.Map.{Space, vma_map, find_neighbour, expand_area, back, vmm_opts}
use kernel_smp.Vma.Map.Overlap.{Listed, Apart, vma_map_lem}

abbrev one : Areas
one = record {
  area = λ p. record {
    vm_start = 0x400000;
    vm_end = 0x402000;
    vm_flags = 3;
    left = 0;
    right = 0;
    parent = 0;
    color = black;
    next = 0;
    prev = 0;
  };
  tree_root = 64;
  list_head = 64;
  count = 1;
}

abbrev space : Space
space = record {
  areas = one;
  vmm = record {
    tables = λ t i. zero_entry;
    pmm = record { bitmap = 4096; bitmap_size = 16; bytes = λ i. if i == 0 then 3 else 0 };
    hint = some 0;
  };
  cr3 = 4096;
}

abbrev size : ℕ
size = 100

-- What the mapping of a page behind the area leaves.
abbrev after : Space
after = elim (vma_map 2 128 0x402000 size 3 space) [ none ↦ space | some (s, r) ↦ s ]

vma_map_lem_example :
    (size ≢ 0)
    × (0x402000 % 4096 ≡ 0)
    × (((p : ℕ) × Listed one p 2 64
          × ((one.area p).vm_end ≡ 0x402000)
          × ((one.area p).vm_flags ≡ 3)
          × (after.areas ≡ set one p (λ v. record v { vm_end = 0x403000 })))
        ⊎ (((p : ℕ) → Listed one p 2 64 → Apart one p 0x402000 0x403000)
            × ◌≢◌ {A = ℕ} 128 0
            × (ranges after.areas
                ≡ (128, update (λ p. range (one.area p)) 128 (0x402000, 0x403000, 3, 64)))))
unfolding vma_map find_neighbour expand_area back vmm_opts vmm_map_range vmm_map_range_unlocked
    map_pages vmm_map_unlocked leaf_table descend pmm_alloc_frame alloc_scan pmm_set_frame
    pmm_alloc_frames scan_qwords scan_bits qword_full free_run mark_run bit_on set_bit ctz flags_of
    every_below
vma_map_lem_example = vma_map_lem 2 128 0x402000 size 3 space after (omega arith) refl
