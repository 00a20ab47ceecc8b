-- ===== src/Vma/Unmap.antt =====
-- `vma_unmap` and `vma_destroy_all` of kernel/memory/vma.c.
use kernel_smp.Base.{
  ℕ, zero, suc, ◌+◌, ◌-◌, true, ◌&&◌, Option, none, some, ltb, leb, ◌==◌, if◌then◌else◌, u64,
  page_size,
}
use kernel_smp.Vmm.{Vmm, vmm_virtual_to_physical}
use kernel_smp.Vmm.Space.{vmm_unmap, free_frame, vmm_destroy_user_pml4}
use kernel_smp.Vma.{Areas, set, vma_find}
use kernel_smp.Vma.Tree.{tree_remove}
use kernel_smp.Vma.Map.{Space, Status, ok, invalid}

-- `for (vaddr = addr; vaddr < unmap_end; vaddr += PAGE_SIZE)`
pub release_pages : ℕ → ℕ → ℕ → ℕ → Vmm → Option Vmm
release_pages zero pml4 vaddr unmap_end s = none
release_pages (suc n) pml4 vaddr unmap_end s =
    let phys = vmm_virtual_to_physical s.tables pml4 vaddr in
    let s' = if phys == 0 then s else free_frame phys (vmm_unmap pml4 vaddr s) in
    let rest = release_pages n pml4 (u64 (vaddr + page_size)) unmap_end s' in
    if ltb vaddr unmap_end then rest else some s

pub unlink_area : ℕ → Areas → Areas
unlink_area p s =
    let v = s.area p in
    let s₁ = if v.prev == 0 then s else set s v.prev (λ w. record w { next = v.next }) in
    let s₂ = if v.next == 0 then s₁ else set s₁ v.next (λ w. record w { prev = v.prev }) in
    if s₂.list_head == p then record s₂ { list_head = v.next } else s₂

-- The descriptor goes from the list and from the tree; `kfree` of it is not modelled.
pub remove : ℕ → ℕ → Areas → Option Areas
remove n p s = elim (tree_remove n p (unlink_area p s)) [
  | none ↦ none
  | some s' ↦ some (record s' { count = s'.count - 1 })
]

-- What becomes of the descriptor: a tail is cut off, the whole area goes, or all is as it was.
pub trim : ℕ → ℕ → ℕ → ℕ → Areas → Option Areas
trim n p addr unmap_end s =
    let v = s.area p in
    let cut = set s p (λ w. record w { vm_end = addr }) in
    if ltb v.vm_start addr && leb v.vm_end unmap_end
    then some cut
    else if leb addr v.vm_start && leb v.vm_end unmap_end
    then remove n p s
    else some s

pub vma_unmap : ℕ → ℕ → ℕ → Space → Option (Space × Status)
vma_unmap n addr size s =
    let unmap_end = u64 (addr + size) in
    let release : ℕ → Option (Space × Status) = λ p.
      elim (release_pages n s.cr3 addr unmap_end s.vmm) [
        | none ↦ none
        | some vmm ↦ elim (trim n p addr unmap_end s.areas) [
          | none ↦ none
          | some areas ↦ some (record s { areas = areas; vmm = vmm }, ok)
        ]
      ] in
    let found : Option (Space × Status) = elim (vma_find n s.areas addr) [
      | none ↦ none
      | some p ↦ if p == 0 then some (s, invalid) else release p
    ] in
    if size == 0 then some (s, ok) else found

-- Every descriptor of the list is freed; `next` is read before.
pub vma_destroy_all : Space → Space
vma_destroy_all s =
    let empty = record (s.areas) { list_head = 0; tree_root = 0; count = 0 } in
    if s.cr3 == 0
    then record s { areas = empty }
    else record { areas = empty; vmm = vmm_destroy_user_pml4 s.cr3 true s.vmm; cr3 = 0 }
