-- ===== src/Pmm/Init.antt =====
-- `pmm_init` of kernel/memory/pmm.c, which builds the bitmap from the memory map of the firmware,
-- with the descriptor of common/efi_descriptor.h. The map is the list of its descriptors.
pub mod Free
mod Tests
use kernel_smp.Base.{
  ℕ, zero, suc, ◌+◌, ◌-◌, ◌*◌, ◌/◌, ◌%◌, ◌^◌, ◌≤◌, ◌<◌, ◌≡◌, ◌≢◌, ◌∙◌, sym, ◌⊎◌, inl, inr, refl,
  Bool, true, false, not, ◌&&◌, ◌||◌, arith, ℕ_discrete, dec_lt, ◌==◌, ==→eq, ==_refl, ne→==, leb,
  ltb, leb→le, update, Bool-cases, page_size, u64, page_align_up, if◌then◌else◌, List, [], ◌∷◌,
}
use kernel_smp.Base.Bytes.{bit_on_full}
use kernel_smp.Pmm.{Pmm, used, pmm_set_frame, pmm_unset_frame}
use kernel_smp.Pmm.Frames.{used-set_frame, used-unset_frame, mark-byte, unmark-byte}

pub record Descriptor : Type 0 where
  pub type : ℕ
  pub physical_start : ℕ
  pub num_pages : ℕ

pub record BootInfo : Type 0 where
  pub memory_map : List Descriptor
  pub kernel_base : ℕ
  pub kernel_size : ℕ

abbrev pub conventional_memory : ℕ
conventional_memory = 7

abbrev pub boot_services_data : ℕ
boot_services_data = 4

-- The first pass: the end of the highest region.
pub highest_addr : ℕ → List Descriptor → ℕ
highest_addr highest [] = highest
highest_addr highest (d ∷ ds) =
    let end_addr = u64 (d.physical_start + u64 (d.num_pages * page_size)) in
    highest_addr (if ltb highest end_addr then end_addr else highest) ds

-- The second pass: where the bitmap goes, or NULL.
pub find_bitmap : ℕ → List Descriptor → ℕ
find_bitmap size [] = 0
find_bitmap size (d ∷ ds) =
    if d.type == conventional_memory && leb size (u64 (d.num_pages * page_size))
    then page_align_up d.physical_start
    else find_bitmap size ds

pub fill_ff : ℕ → (ℕ → ℕ) → ℕ → ℕ
fill_ff zero bytes = bytes
fill_ff (suc n) bytes = update (fill_ff n bytes) n 0xFF

-- The third pass, page by page: `n` rounds from page `j` of a region on.
pub unlock_pages : ℕ → ℕ → ℕ → Pmm → Pmm
unlock_pages zero j start s = s
unlock_pages (suc n) j start s =
    let addr = u64 (start + j * page_size) in
    unlock_pages n (suc j) start (if leb 0x100000 addr then pmm_unset_frame s addr else s)

pub is_usable : Descriptor → Bool
is_usable d = d.type == conventional_memory || d.type == boot_services_data

pub unlock_regions : List Descriptor → Pmm → Pmm
unlock_regions [] s = s
unlock_regions (d ∷ ds) s =
    unlock_regions ds (if is_usable d then unlock_pages d.num_pages 0 d.physical_start s else s)

-- A loop `for (addr = …; …; addr += PAGE_SIZE) pmm_set_frame(addr)` of `n` rounds.
pub lock_range : ℕ → ℕ → Pmm → Pmm
lock_range zero addr s = s
lock_range (suc n) addr s = lock_range n (u64 (addr + page_size)) (pmm_set_frame s addr)

pub pmm_init : BootInfo → (ℕ → ℕ) → Pmm
pmm_init bi memory =
    let size = highest_addr 0 bi.memory_map / page_size / 8 in
    let bitmap = find_bitmap size bi.memory_map in
    let empty : Pmm = record {
      bitmap = bitmap;
      bitmap_size = size;
      bytes = if bitmap == 0 then memory else fill_ff size memory;
    } in
    let unlocked = unlock_regions bi.memory_map empty in
    let low = lock_range (0x100000 / page_size) 0 unlocked in
    let kernel =
      lock_range ((bi.kernel_size + page_size + page_size - 1) / page_size) bi.kernel_base low in
    lock_range ((size + page_size - 1) / page_size) bitmap kernel
