-- ===== src/Elf.antt =====
-- kernel/fs/elf.c: the loader of programs. An image is its header and its program headers; what is
-- copied out of it is a list of calls of `memcpy`.
pub mod Placed
pub mod Above
mod Tests
use kernel_smp.Base.{
  ℕ, zero, suc, ◌+◌, ◌-◌, ◌*◌, ◌/◌, ◌%◌, Bool, true, false, not, ◌&&◌, List, [], ◌∷◌, ◌++◌, Option,
  none, some, ltb, ◌==◌, if◌then◌else◌, u64, page_align_down, phys_to_virt,
}
use kernel_smp.Vmm.{TableMemory, bit, vmm_virtual_to_physical}
use kernel_smp.Vma.Map.{Space, Status, ok, vma_map}
use kernel_smp.Syscall.{Heap, heap_flags}

-- `Elf64_Phdr`, without the fields that are not read.
pub record Segment : Type 0 where
  pub p_type : ℕ
  pub p_flags : ℕ
  pub p_offset : ℕ
  pub p_vaddr : ℕ
  pub p_filesz : ℕ
  pub p_memsz : ℕ

-- An image at `elf_data`: the bytes of `e_ident`, the entry point, and the `e_phnum` program headers.
pub record Image : Type 0 where
  pub elf_data : ℕ
  pub e_ident : ℕ → ℕ
  pub e_entry : ℕ
  pub phdr : List Segment

-- A call `memcpy(dest, src, size)`
pub record Copy : Type 0 where
  pub dest : ℕ
  pub src : ℕ
  pub size : ℕ

-- The loop of `elf_copy_segment` in the tables of `cr3`, with `copied` bytes done. The fuel bounds
-- the bytes that are left.
pub copy_loop : ℕ → TableMemory → ℕ → ℕ → ℕ → ℕ → ℕ → List Copy
copy_loop zero m cr3 vaddr src filesz copied = []
copy_loop (suc n) m cr3 vaddr src filesz copied =
    let curr_vaddr = u64 (vaddr + copied) in
    let offset = curr_vaddr % 4096 in
    let room = 4096 - offset in
    let to_copy = if ltb (filesz - copied) room then filesz - copied else room in
    let dest_phys = vmm_virtual_to_physical m cr3 curr_vaddr in
    let rest = copy_loop n m cr3 vaddr src filesz (copied + to_copy) in
    let call : Copy = record {
      dest = u64 (phys_to_virt dest_phys + offset);
      src = u64 (src + copied);
      size = to_copy;
    } in
    if not (ltb copied filesz) then [] else if dest_phys == 0 then [] else call ∷ rest

pub elf_copy_segment : TableMemory → ℕ → ℕ → ℕ → ℕ → List Copy
elf_copy_segment m cr3 vaddr src filesz = copy_loop filesz m cr3 vaddr src filesz 0

-- The flags of the area: `VMA_USER`, and one for each of `PF_R`, `PF_W` and `PF_X`.
abbrev pub vma_flags : ℕ → ℕ
vma_flags p_flags =
    8
    + (if bit p_flags 2 then 1 else 0)
    + (if bit p_flags 1 then 2 else 0)
    + (if bit p_flags 0 then 4 else 0)

-- The state of the loop over the program headers.
pub record Loading : Type 0 where
  pub space : Space
  pub copies : List Copy
  pub max_vaddr : ℕ

abbrev pub seg_end : Segment → ℕ
seg_end p = u64 (p.p_vaddr + p.p_memsz)

-- A segment that is mapped in `s`.
abbrev pub loaded : ℕ → Segment → Space → Loading → Loading
loaded elf_data p s l = record {
  space = s;
  copies =
      l.copies
      ++ (if ltb 0 p.p_filesz
          then elf_copy_segment s.vmm.tables s.cr3 p.p_vaddr (u64 (elf_data + p.p_offset))
              p.p_filesz
          else []);
  max_vaddr = if ltb l.max_vaddr (seg_end p) then seg_end p else l.max_vaddr;
}

-- The loop, from header `i` on; `new i` is the memory for the descriptor of its area. The Boolean
-- says whether all were mapped, and `none` is a fault of `vma_map`, with its fuel.
pub load_segments : ℕ → (ℕ → ℕ) → ℕ → ℕ → List Segment → Loading → Option (Loading × Bool)
load_segments fuel new elf_data i [] l = some (l, true)
load_segments fuel new elf_data i (p ∷ ps) l =
    let mapped : Option (Loading × Bool) =
      elim (vma_map fuel (new i) p.p_vaddr p.p_memsz (vma_flags p.p_flags) l.space) [
        | none ↦ none
        | some (s, ok) ↦ load_segments fuel new elf_data (suc i) ps (loaded elf_data p s l)
        | some (s, _) ↦ some (record l { space = s }, false)
      ] in
    let skipped = load_segments fuel new elf_data (suc i) ps l in
    if p.p_type == 1 then mapped else skipped

-- `memcmp(header->e_ident, "\x7F" "ELF", 4) == 0`
abbrev pub is_elf : (ℕ → ℕ) → Bool
is_elf e = e 0 == 0x7F && (e 1 == b'E' && (e 2 == b'L' && e 3 == b'F'))

-- The heap lies behind the last segment, and has four pages.
abbrev pub heap_above : ℕ → Heap
heap_above max_vaddr =
    let start = page_align_down (u64 (max_vaddr + 4096)) in
    record { heap_start = start; heap_curr = start; heap_end = u64 (start + 4 * 4096) }

-- What is left when `elf_load` returns; `entry` is its result, 0 for a failure.
pub record Loaded : Type 0 where
  pub heap : Heap
  pub state : Loading
  pub entry : ℕ

abbrev pub start_loading : Space → Loading
start_loading s = record { space = s; copies = []; max_vaddr = 0 }

-- `new_heap` is the memory for the descriptor of the heap. Whether the heap could be mapped is
-- not looked at.
pub elf_load : ℕ → (ℕ → ℕ) → ℕ → Image → Heap → Space → Option Loaded
elf_load fuel new new_heap image heap s =
    let h : Loading → Heap = λ l. heap_above l.max_vaddr in
    let run : Option Loaded =
      elim (load_segments fuel new image.elf_data 0 image.phdr (start_loading s)) [
        | none ↦ none
        | some (l, false) ↦ some (record { heap = heap; state = l; entry = 0 })
        | some (l, true) ↦
            elim (vma_map fuel new_heap (h l).heap_start (4 * 4096) heap_flags l.space) [
              | none ↦ none
              | some (s', _) ↦
                  some
                    (record { heap = h l; state = record l { space = s' }; entry = image.e_entry })
            ]
      ] in
    if is_elf image.e_ident
    then run
    else some (record { heap = heap; state = start_loading s; entry = 0 })
