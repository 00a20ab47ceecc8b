-- ===== src/Vmm.antt =====
-- kernel/memory/vmm.c and kernel/include/memory/vmm.h: the four levels of page tables. A table is
-- known by its physical address, so `vmm_get_table` is the identity; an entry is split into the
-- fields of its word. `invlpg` and the flush of the other CPUs are effects on their caches only.
pub mod Tree
pub mod Descend
pub mod Lookup
pub mod Levels
pub mod Translate
pub mod Space
pub mod Unmap
use kernel_smp.Base.{
  ℕ, zero, suc, ◌+◌, ◌-◌, ◌*◌, ◌/◌, ◌%◌, ◌^◌, ◌≡◌, Bool, true, false, not, ◌&&◌, ◌||◌, Option, none,
  some, ltb, leb, ◌==◌, if◌then◌else◌, update, u64, page_size, page_align_down, page_align_up,
  hhdm_offset, phys_to_virt,
}
use kernel_smp.Pmm.{Pmm, pmm_alloc_frame, pmm_free_frame}

-- The flags of an entry that the kernel uses: bits 0, 1, 2, 7 and 63. Bit 7 is the page size in a
-- directory, and selects the caching of a page in a table.
pub record Flags : Type 0 where
  pub present : Bool
  pub writable : Bool
  pub user : Bool
  pub huge : Bool
  pub nx : Bool

-- A word of flags, as the callers pass it.
abbrev pub bit : ℕ → ℕ → Bool
bit n k = n / 2 ^ k % 2 == 1

unfoldable pub flags_of : ℕ → Flags
flags_of w = record {
  present = bit w 0;
  writable = bit w 1;
  user = bit w 2;
  huge = bit w 7;
  nx = bit w 63;
}

-- `frame` is what `VMM_ADDR_MASK` keeps: bits 12 to 39.
pub record Entry : Type 0 where
  pub frame : ℕ
  pub flags : Flags

abbrev pub zero_flags : Flags
zero_flags = record { present = false; writable = false; user = false; huge = false; nx = false }

abbrev pub zero_entry : Entry
zero_entry = record { frame = 0; flags = zero_flags }

abbrev pub frame_of : ℕ → ℕ
frame_of phys = phys / page_size % 2 ^ 28

-- `entry & VMM_ADDR_MASK`
abbrev pub address : Entry → ℕ
address e = e.frame * page_size

abbrev pub pml4_idx : ℕ → ℕ
pml4_idx addr = addr / 2 ^ 39 % 512

abbrev pub pdpt_idx : ℕ → ℕ
pdpt_idx addr = addr / 2 ^ 30 % 512

abbrev pub pd_idx : ℕ → ℕ
pd_idx addr = addr / 2 ^ 21 % 512

abbrev pub pt_idx : ℕ → ℕ
pt_idx addr = addr / 2 ^ 12 % 512

abbrev pub TableMemory : Type 0
TableMemory = ℕ → ℕ → Entry

pub record Vmm : Type 0 where
  pub tables : TableMemory
  pub pmm : Pmm
  pub hint : Option ℕ

abbrev pub write_entry : TableMemory → ℕ → ℕ → Entry → TableMemory
write_entry m t i e = update m t (update (m t) i e)

-- `PTE_PRESENT | PTE_WRITABLE | PTE_USER`
abbrev pub table_flags : Flags
table_flags = record { present = true; writable = true; user = true; huge = false; nx = false }

-- The state after a round, and the table below, or `none` when no frame is left.
pub record Descent : Type 0 where
  pub state : Vmm
  pub below : Option ℕ

-- One level of `_vmm_map_unlocked`: the table below entry `i` of `t`, allocated if it is missing.
unfoldable pub descend : Flags → ℕ → ℕ → Vmm → Descent
descend flags t i s =
    let entry = s.tables t i in
    let r = pmm_alloc_frame s.hint s.pmm in
    let new_entry : Entry = record { frame = frame_of r.addr; flags = table_flags } in
    let cleared = update s.tables r.addr (λ _. zero_entry) in
    let kept : Entry = record {
      frame = entry.frame;
      flags = record (entry.flags) {
        user = entry.flags.user || flags.user;
        writable = entry.flags.writable || flags.writable;
      };
    } in
    if entry.flags.present
    then record {
      state = record s { tables = write_entry s.tables t i kept };
      below = some (address kept);
    }
    else if r.addr == 0
    then record { state = record s { pmm = r.pmm; hint = r.hint }; below = none }
    else record {
      state = record { tables = write_entry cleared t i new_entry; pmm = r.pmm; hint = r.hint };
      below = some (address new_entry);
    }

infixl 5 ◌>>=◌
abbrev pub ◌>>=◌ : Descent → (ℕ → Vmm → Descent) → Descent
d >>= f = elim d.below [ none ↦ d | some t ↦ f t d.state ]

-- The page table that holds the leaf of `virt`.
unfoldable pub leaf_table : ℕ → ℕ → Flags → Vmm → Descent
leaf_table pml4 virt flags s =
    (descend flags pml4 (pml4_idx virt) s >>= λ pdpt. descend flags pdpt (pdpt_idx virt)) >>= λ pd.
    descend flags pd (pd_idx virt)

abbrev pub leaf : ℕ → Flags → Entry
leaf phys flags = record { frame = frame_of phys; flags = record flags { present = true } }

unfoldable pub vmm_map_unlocked : ℕ → ℕ → ℕ → Flags → Vmm → Vmm × Bool
vmm_map_unlocked pml4 virt phys flags s =
    let d = leaf_table pml4 virt flags s in
    elim d.below [
      | none ↦ (d.state, false)
      | some pt ↦ (
        record (d.state) { tables = write_entry d.state.tables pt (pt_idx virt) (leaf phys flags) },
        true,
      )
    ]

-- The table below an entry that is present.
abbrev pub follow : TableMemory → ℕ → ℕ → Option ℕ
follow m t i = if (m t i).flags.present then some (address (m t i)) else none

abbrev pub ◌>?◌ : Option ℕ → (ℕ → Option ℕ) → Option ℕ
◌>?◌ o f = elim o [ none ↦ none | some t ↦ f t ]

abbrev pub find_directory : TableMemory → ℕ → ℕ → Option ℕ
find_directory m pml4 virt =
    ◌>?◌ (follow m pml4 (pml4_idx virt)) λ pdpt. follow m pdpt (pdpt_idx virt)

abbrev pub find_table : TableMemory → ℕ → ℕ → Option ℕ
find_table m pml4 virt = ◌>?◌ (find_directory m pml4 virt) λ pd. follow m pd (pd_idx virt)

pub vmm_unmap_unlocked : ℕ → ℕ → Vmm → Vmm
vmm_unmap_unlocked pml4 virt s = elim (find_table s.tables pml4 virt) [
  | none ↦ s
  | some pt ↦ record s { tables = write_entry s.tables pt (pt_idx virt) zero_entry }
]

-- `entry & 0xFFFFFFFFFE000000`: the bits of the frame from 25 on, and bit 63.
abbrev pub huge_base : Entry → ℕ
huge_base e = e.frame / 2 ^ 13 * 2 ^ 25 + (if e.flags.nx then 2 ^ 63 else 0)

-- 0 stands for "not mapped", also for a page that is mapped to physical address 0.
unfoldable pub vmm_virtual_to_physical : TableMemory → ℕ → ℕ → ℕ
vmm_virtual_to_physical m pml4 virt = elim (find_directory m pml4 virt) [
  | none ↦ 0
  | some pd ↦
      let entry = m pd (pd_idx virt) in
      let small : ℕ = elim (follow m pd (pd_idx virt)) [
        | none ↦ 0
        | some pt ↦
            let e = m pt (pt_idx virt) in
            if e.flags.present then u64 (address e + virt % 4096) else 0
      ] in
      if entry.flags.huge then u64 (huge_base entry + virt % 2 ^ 21) else small
]
