-- ===== src/Vma/Map.antt =====
-- `vma_map` of kernel/memory/vma.c.
pub mod Result
pub mod Overlap
mod Tests
use kernel_smp.Base.{
  ℕ, zero, suc, ◌+◌, ◌*◌, ◌/◌, ◌%◌, ◌^◌, ◌≡◌, Bool, true, false, not, ◌&&◌, Option, none, some, ltb,
  ◌==◌, if◌then◌else◌, update, u32, u64, page_align_up,
}
use kernel_smp.Pmm.{pmm_alloc_frames}
use kernel_smp.Vmm.{Vmm, bit}
use kernel_smp.Vmm.Space.{vmm_map_range}
use kernel_smp.Vma.{Area, Areas, Color, red, set}
use kernel_smp.Vma.Tree.{tree_insert, vma_insert_fixup}

pub data Status : Type 0 where
  ok : Status
  invalid : Status  -- -1
  overlap : Status  -- -2
  no_descriptor : Status  -- -3
  no_memory : Status  -- -4

-- The state that `vma_map` works on. What `kmalloc` returns is an argument: the address of the
-- new descriptor, 0 when there is none.
pub record Space : Type 0 where
  pub areas : Areas
  pub vmm : Vmm
  pub cr3 : ℕ

-- The first area of the list that ends at `addr` with the same flags, 0 if there is none.
unfoldable pub find_neighbour : ℕ → Areas → ℕ → ℕ → ℕ → Option ℕ
find_neighbour zero s addr flags curr = none
find_neighbour (suc n) s addr flags curr =
    let v = s.area curr in
    let rest = find_neighbour n s addr flags v.next in
    if curr == 0
    then some 0
    else if v.vm_end == addr && v.vm_flags == flags
    then some curr
    else rest

-- Whether an area of the list overlaps `addr … addr + size`.
unfoldable pub overlaps : ℕ → Areas → ℕ → ℕ → ℕ → Option Bool
overlaps zero s addr size curr = none
overlaps (suc n) s addr size curr =
    let v = s.area curr in
    let rest = overlaps n s addr size v.next in
    if curr == 0
    then some false
    else if ltb addr v.vm_end && ltb v.vm_start (u64 (addr + size))
    then some true
    else rest

-- `uint32_t vmm_opts`: bit 63 does not fit, so `PTE_NX` is lost.
unfoldable pub vmm_opts : ℕ → ℕ
vmm_opts flags =
    let writable = if bit flags 1 then 2 else 0 in
    let nx = if bit flags 2 then 0 else 2 ^ 63 in u32 (1 + 4 + writable + nx)

-- The physical memory of an area: frames in a row, mapped at `addr`. `memset` of the frames is an
-- effect on their contents only.
unfoldable pub back : ℕ → ℕ → ℕ → Space → Option (Space × Bool)
back addr size flags s =
    let (pmm, phys) = pmm_alloc_frames (size / 4096) s.vmm.pmm in
    let vmm = record (s.vmm) { pmm = pmm } in
    let mapped : Option (Space × Bool) =
      elim (vmm_map_range s.cr3 addr phys size (vmm_opts flags) vmm) [
        | none ↦ none
        | some vmm' ↦ some (record s { vmm = vmm' }, true)
      ] in
    if phys == 0 then some (record s { vmm = vmm }, false) else mapped

abbrev pub grow : ℕ → ℕ → Areas → Areas
grow p size s = set s p (λ v. record v { vm_end = u64 (v.vm_end + size) })

-- The descriptor of a new area, at the head of the list.
pub link : ℕ → ℕ → ℕ → ℕ → Areas → Areas
link new addr size flags s =
    let blank : Area = record {
      vm_start = addr;
      vm_end = u64 (addr + size);
      vm_flags = flags;
      left = 0;
      right = 0;
      parent = 0;
      color = red;
      next = s.list_head;
      prev = 0;
    } in
    let s₁ = set s new (λ _. blank) in
    let s₂ = if s.list_head == 0 then s₁ else set s₁ s.list_head (λ v. record v { prev = new }) in
    record s₂ { list_head = new }

pub insert : ℕ → ℕ → Areas → Option Areas
insert n new s =
    let placed =
      if s.tree_root == 0
      then some (record s { tree_root = new })
      else tree_insert n new s.tree_root s in
    elim placed [
      | none ↦ none
      | some s' ↦ elim (vma_insert_fixup n new s') [
        | none ↦ none
        | some s'' ↦ some (record s'' { count = suc s''.count })
      ]
    ]

-- The path that makes a new descriptor, after the overlap test.
unfoldable pub create : ℕ → ℕ → ℕ → ℕ → ℕ → Space → Option (Space × Status)
create n new addr size flags s =
    let made : Option (Space × Status) = elim (back addr size flags s) [
      | none ↦ none
      | some (s', false) ↦ some (s', no_memory)
      | some (s', true) ↦ elim (insert n new (link new addr size flags s'.areas)) [
        | none ↦ none
        | some areas ↦ some (record s' { areas = areas }, ok)
      ]
    ] in
    if new == 0 then some (s, no_descriptor) else made

-- The path that grows the area `p`.
unfoldable pub expand_area : ℕ → ℕ → ℕ → ℕ → Space → Option (Space × Status)
expand_area p addr size flags s = elim (back addr size flags s) [
  | none ↦ none
  | some (s', false) ↦ some (s', invalid)
  | some (s', true) ↦ some (record s' { areas = grow p size s'.areas }, ok)
]

unfoldable pub vma_map : ℕ → ℕ → ℕ → ℕ → ℕ → Space → Option (Space × Status)
vma_map n new addr size₀ flags s =
    let size = page_align_up size₀ in
    let checked : Option (Space × Status) = elim (overlaps n s.areas addr size s.areas.list_head) [
      | none ↦ none
      | some true ↦ some (s, overlap)
      | some false ↦ create n new addr size flags s
    ] in
    let found : Option (Space × Status) =
      elim (find_neighbour n s.areas addr flags s.areas.list_head) [
        | none ↦ none
        | some p ↦ if p == 0 then checked else expand_area p addr size flags s
      ] in
    if size₀ == 0
    then some (s, invalid)
    else if not (addr % 4096 == 0)
    then some (s, invalid)
    else found
