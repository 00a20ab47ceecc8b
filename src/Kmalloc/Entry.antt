-- ===== src/Kmalloc/Entry.antt =====
-- `kmalloc_init`, `kmalloc` and `kfree` of kernel/memory/kmalloc.c: the slabs serve up to 2048 bytes, the
-- list of blocks serves the rest. The magic of a page that is no slab is the word that is there.
use kernel_smp.Base.{ℕ, Option, none, some, leb, ◌==◌, if◌then◌else◌, page_align_down}
use kernel_smp.Kmalloc.{KernelHeap, heap_init, kmalloc_large, kfree_large}
use kernel_smp.Slab.{Slabs, Frames, slab_magic, slab_init, slab_alloc, slab_free}

pub kmalloc_init : Slabs → KernelHeap → Frames → Option (Slabs × KernelHeap × Frames)
kmalloc_init s h (pmm, hint) = elim (heap_init hint pmm h) [
  | none ↦ none
  | some (h', r) ↦ (let (s', frames') = slab_init s (r.pmm, r.hint) in some (s', h', frames'))
]

-- The allocation from the list of blocks.
abbrev pub from_blocks :
    ℕ → ℕ → Slabs → KernelHeap → Frames → Option (Slabs × KernelHeap × Frames × ℕ)
from_blocks fuel size s h (pmm, hint) = elim (kmalloc_large fuel size h pmm) [
  | none ↦ none
  | some (h', pmm', ptr) ↦ some (s, h', (pmm', hint), ptr)
]

-- The result is NULL where there is no memory, and for a size of 0.
pub kmalloc : ℕ → ℕ → Slabs → KernelHeap → Frames → Option (Slabs × KernelHeap × Frames × ℕ)
kmalloc fuel size s h frames =
    let (s', frames', ptr) = slab_alloc size s frames in
    if size == 0
    then some (s, h, frames, 0)
    else if leb size 2048
    then (if ptr == 0 then from_blocks fuel size s' h frames' else some (s', h, frames', ptr))
    else from_blocks fuel size s h frames

-- `none` is a panic.
pub kfree : ℕ → Slabs → KernelHeap → Option (Slabs × KernelHeap)
kfree ptr s h =
    let slab_side : Option (Slabs × KernelHeap) = elim (slab_free ptr s) [
      | none ↦ none
      | some s' ↦ some (s', h)
    ] in
    let block_side : Option (Slabs × KernelHeap) = elim (kfree_large ptr h) [
      | none ↦ none
      | some h' ↦ some (s, h')
    ] in
    if ptr == 0
    then some (s, h)
    else if s.magic (page_align_down ptr) == slab_magic
    then slab_side
    else block_side
