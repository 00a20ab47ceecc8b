-- ===== src/Vmm/Space.antt =====
-- Ranges and address spaces of kernel/memory/vmm.c, with the lock `vmm_lock_` held throughout. The
-- result `none` is a panic of the kernel.
use kernel_smp.Base.{
  ℕ, zero, suc, ◌+◌, ◌-◌, ◌*◌, ◌/◌, ◌^◌, Bool, true, false, ◌&&◌, Option, none, some, ltb, leb,
  ◌==◌, if◌then◌else◌, update, u64, sub64, page_size, page_align_down, page_align_up, hhdm_offset,
}
use kernel_smp.Pmm.{pmm_alloc_frame, pmm_free_frame}
use kernel_smp.Vmm.{
  Flags, Entry, zero_entry, frame_of, address, pml4_idx, pdpt_idx, pd_idx, Vmm, write_entry,
  table_flags, flags_of, vmm_map_unlocked, vmm_unmap_unlocked,
}

-- `(size + PAGE_SIZE - 1) / PAGE_SIZE`
abbrev pub pages : ℕ → ℕ
pages size = sub64 (u64 (size + page_size)) 1 / page_size

-- `n` pages from the `i`-th on.
pub unmap_pages : ℕ → ℕ → ℕ → ℕ → Vmm → Vmm
unmap_pages pml4 virt i zero s = s
unmap_pages pml4 virt i (suc n) s =
    unmap_pages pml4 virt (suc i) n (vmm_unmap_unlocked pml4 (u64 (virt + i * page_size)) s)

pub vmm_unmap_range_unlocked : ℕ → ℕ → ℕ → Vmm → Vmm
vmm_unmap_range_unlocked pml4 virt size s = unmap_pages pml4 virt 0 (pages size) s

unfoldable pub map_pages : ℕ → ℕ → ℕ → Flags → ℕ → ℕ → Vmm → Vmm × Bool
map_pages pml4 virt phys flags i zero s = (s, true)
map_pages pml4 virt phys flags i (suc n) s =
    let (s', done) =
      vmm_map_unlocked pml4 (u64 (virt + i * page_size)) (u64 (phys + i * page_size)) flags s in
    let rest = map_pages pml4 virt phys flags (suc i) n s' in
    let undone = if ltb 0 i then vmm_unmap_range_unlocked pml4 virt (i * page_size) s' else s' in
    if done then rest else (undone, false)

unfoldable pub vmm_map_range_unlocked : ℕ → ℕ → ℕ → ℕ → Flags → Vmm → Vmm × Bool
vmm_map_range_unlocked pml4 virt phys size flags s = map_pages pml4 virt phys flags 0 (pages size) s

-- What a public operation does with the report: a kernel mapping that fails is a panic, and any
-- other failure is dropped.
abbrev pub report : ℕ → Vmm × Bool → Option Vmm
report virt (s, done) = if done then some s else if leb hhdm_offset virt then none else some s

pub vmm_map : ℕ → ℕ → ℕ → ℕ → Vmm → Option Vmm
vmm_map pml4 virt phys flags s = report virt (vmm_map_unlocked pml4 virt phys (flags_of flags) s)

unfoldable pub vmm_map_range : ℕ → ℕ → ℕ → ℕ → ℕ → Vmm → Option Vmm
vmm_map_range pml4 virt phys size flags s =
    report virt (vmm_map_range_unlocked pml4 virt phys size (flags_of flags) s)

-- `vmm_unmap` and `vmm_unmap_range` flush the other CPUs as well.
pub vmm_unmap : ℕ → ℕ → Vmm → Vmm
vmm_unmap pml4 virt s = vmm_unmap_unlocked pml4 virt s

pub vmm_unmap_range : ℕ → ℕ → ℕ → Vmm → Vmm
vmm_unmap_range pml4 virt size s = vmm_unmap_range_unlocked pml4 virt size s

-- The address of the device, and the state. Bit 7 selects write-combining.
pub vmm_map_device : ℕ → ℕ → ℕ → ℕ → Vmm → Option (Vmm × ℕ)
vmm_map_device pml4 virt phys size s =
    let phys_aligned = page_align_down phys in
    let offset = phys - phys_aligned in
    let full_size = page_align_up (u64 (size + offset)) in
    elim (vmm_map_range pml4 virt phys_aligned full_size (1 + 2 + 2 ^ 7 + 2 ^ 63) s) [
      | none ↦ none
      | some s' ↦ some (s', u64 (virt + offset))
    ]

-- A level of `vmm_map_huge`: an allocation that fails is not noticed, and frame 0 is the new table.
pub huge_level : ℕ → ℕ → Vmm → Vmm × ℕ
huge_level t i s =
    let r = pmm_alloc_frame s.hint s.pmm in
    let new_entry : Entry = record { frame = frame_of r.addr; flags = table_flags } in
    if (s.tables t i).flags.present then (s, address (s.tables t i)) else (
      record {
        tables = write_entry (update s.tables r.addr (λ _. zero_entry)) t i new_entry;
        pmm = r.pmm;
        hint = r.hint;
      },
      address new_entry,
    )

pub vmm_map_huge : ℕ → ℕ → ℕ → Flags → Vmm → Vmm
vmm_map_huge pml4 virt phys flags s =
    let (s₁, pdpt) = huge_level pml4 (pml4_idx virt) s in
    let (s₂, pd) = huge_level pdpt (pdpt_idx virt) s₁ in
    let e : Entry = record {
      frame = frame_of phys;
      flags = record flags { present = true; huge = true };
    } in
    record s₂ { tables = write_entry s₂.tables pd (pd_idx virt) e }

-- The upper half of the new table is that of the kernel's.
unfoldable pub vmm_create_user_pml4 : ℕ → Vmm → Vmm × ℕ
vmm_create_user_pml4 kernel_pml4 s =
    let r = pmm_alloc_frame s.hint s.pmm in
    let table : ℕ → Entry =
      λ i. if leb 256 i && ltb i 512 then s.tables kernel_pml4 i else zero_entry in
    let s' = record s { pmm = r.pmm; hint = r.hint } in
    if r.addr == 0 then (s', 0) else (record s' { tables = update s.tables r.addr table }, r.addr)

abbrev pub free_frame : ℕ → Vmm → Vmm
free_frame frame s =
    let (pmm, hint) = pmm_free_frame frame s.hint s.pmm in record s { pmm = pmm; hint = hint }

-- `n` entries of table `t` from the `i`-th on: what is done for an entry that is present.
pub each_present : (Entry → Vmm → Vmm) → ℕ → ℕ → ℕ → Vmm → Vmm
each_present f t i zero s = s
each_present f t i (suc n) s =
    let e = s.tables t i in
    let s' = if e.flags.present then f e s else s in each_present f t (suc i) n s'

pub free_page : Entry → Vmm → Vmm
free_page e s = free_frame (address e) s

pub free_table : Bool → Entry → Vmm → Vmm
free_table free_frames e s =
    let huge = if free_frames then free_page e s else s in
    let emptied = if free_frames then each_present free_page (address e) 0 512 s else s in
    if e.flags.huge then huge else free_page e emptied

pub free_directory : Bool → Entry → Vmm → Vmm
free_directory free_frames e s =
    let huge = if free_frames then free_page e s else s in
    if e.flags.huge
    then huge
    else free_page e (each_present (free_table free_frames) (address e) 0 512 s)

pub free_pdpt : Bool → Entry → Vmm → Vmm
free_pdpt free_frames e s =
    free_page e (each_present (free_directory free_frames) (address e) 0 512 s)

pub vmm_destroy_user_pml4 : ℕ → Bool → Vmm → Vmm
vmm_destroy_user_pml4 cr3 free_frames s =
    free_frame cr3 (each_present (free_pdpt free_frames) cr3 0 256 s)
