-- ===== src/Pmm/Init/Tests.antt =====
-- The theorem of `pmm_init` at a memory map of one region.
use kernel_smp.Base.{◌+◌, ◌-◌, ◌/◌, ◌≤◌, refl, [], ◌∷◌, page_size, arith}
use kernel_smp.Base.Bytes.{bit_on, set_bit, clear_bit}
use kernel_smp.Pmm.{used, pmm_set_frame, pmm_unset_frame}
use kernel_smp.Pmm.Init.{
  BootInfo, pmm_init, find_bitmap, highest_addr, fill_ff, unlock_pages, unlock_regions, is_usable,
  lock_range,
}
use kernel_smp.Pmm.Init.Free.{bitmap_bytes, kernel_pages, Usable, Outside, pmm_init-free}

abbrev machine : BootInfo
machine = record {
  memory_map = record { type = 7; physical_start = 0x200000; num_pages = 8 } ∷ [];
  kernel_base = 0x100000;
  kernel_size = 4096;
}

pmm_init-free_example :
    Usable machine.memory_map 514
    × (256 ≤ 514)
    × Outside 514 0x100000 (kernel_pages machine)
    × Outside 514 0x200000 ((bitmap_bytes machine + page_size - 1) / page_size)
unfolding pmm_init find_bitmap highest_addr fill_ff unlock_pages unlock_regions is_usable lock_range
    pmm_set_frame pmm_unset_frame used bit_on set_bit clear_bit
pmm_init-free_example =
    pmm_init-free machine (λ i. 0) 514 (λ i. omega arith) (λ e. absurd (omega (arith, e)))
      (omega arith) (omega arith) (omega arith) refl
