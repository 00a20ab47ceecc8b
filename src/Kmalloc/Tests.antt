-- ===== src/Kmalloc/Tests.antt =====
-- A heap of three blocks, and the theorems of kernel/memory/kmalloc.c at it.
use kernel_smp.Base.{
  ℕ, ◌+◌, ◌≡◌, refl, true, false, some, [], ◌∷◌, ◌++◌, arith, update, phys_to_virt, inl,
  if◌then◌else◌, ◌==◌,
}
use kernel_smp.Pmm.{Pmm, pmm_alloc_frames, scan_qwords, qword_full, scan_bits, free_run}
use kernel_smp.Base.Bytes.{every_below, bit_on}
use kernel_smp.Kmalloc.{Header, KernelHeap, header_size, kmalloc_large, kfree_large}
use kernel_smp.Kmalloc.Segments.{Block, header_of}
use kernel_smp.Kmalloc.Allocate.{carve}
use kernel_smp.Kmalloc.Fit.{Holds, kmalloc_large-fit}
use kernel_smp.Kmalloc.Expand.{frames_block, kmalloc_large-grow}
use kernel_smp.Kmalloc.Release.{released, kfree_large_lem}
use kernel_smp.Kmalloc.Coalesced.{IsCoalesced, kfree_large-IsCoalesced, kfree_large-kmalloc_large}

abbrev front : Block
front = record { addr = 0x10000; size = 4096; is_free = false }

-- Right behind the first block.
abbrev middle : Block
middle = record { addr = 0x11028; size = 8192; is_free = true }

abbrev rear : Block
rear = record { addr = 0x40000; size = 4056; is_free = false }

abbrev few : Pmm
few = record { bitmap = 4096; bitmap_size = 16; bytes = λ i. if i == 0 then 3 else 0 }

abbrev blank : ℕ → Header
blank p = record { magic = 0; size = 0; is_free = false; next = 0; prev = 0 }

abbrev heap : KernelHeap
heap = record {
  header =
      update
        (update (update blank 0x10000 (header_of 0 front 0x11028)) 0x11028
          (header_of 0x10000 middle 0x40000))
        0x40000 (header_of 0x11028 rear 0);
  heap_start = 0x10000;
}

heap-Holds : Holds heap (front ∷ middle ∷ rear ∷ [])
heap-Holds = (
  refl,
  (omega arith, refl, (omega arith, refl, (omega arith, refl, tt))),
  (
    omega arith,
    (inl (omega arith), (inl (omega arith), tt)),
    (omega arith, (inl (omega arith), tt), (omega arith, tt, tt)),
  ),
)

kmalloc_large-fit_example :
    (h' : KernelHeap) × (kmalloc_large 9 3000 heap few ≡ some (h', few, 0x11050))
    × Holds h' ((front ∷ []) ++ (carve 3008 middle ++ rear ∷ []))
kmalloc_large-fit_example =
    kmalloc_large-fit 9 3000 heap few (front ∷ []) middle (rear ∷ []) heap-Holds (refl, tt) refl
      (omega arith) (omega arith)

kmalloc_large-grow_example :
    (h' : KernelHeap) × (kmalloc_large 9 9000 heap few
      ≡ some (h', (pmm_alloc_frames 3 few).0, phys_to_virt 8192 + header_size))
    × Holds h' ((front ∷ middle ∷ rear ∷ []) ++ carve 9008 (frames_block 9008 8192))
unfolding pmm_alloc_frames scan_qwords qword_full every_below scan_bits free_run bit_on
kmalloc_large-grow_example =
    kmalloc_large-grow 9 9000 8192 heap few (pmm_alloc_frames 3 few).0 (front ∷ middle ∷ rear ∷ [])
      heap-Holds (refl, (refl, (refl, tt))) (omega arith) (omega arith) refl (omega arith)
      (omega arith)
      (
        omega arith,
        (inl (omega arith), (inl (omega arith), (inl (omega arith), tt))),
        (
          omega arith,
          (inl (omega arith), (inl (omega arith), tt)),
          (omega arith, (inl (omega arith), tt), (omega arith, tt, tt)),
        ),
      )

kfree_large_lem_example :
    (h' : KernelHeap) × (kfree_large 0x10028 heap ≡ some h')
    × Holds h' (record { addr = 0x10000; size = 12328; is_free = true } ∷ rear ∷ [])
kfree_large_lem_example = kfree_large_lem heap [] front (middle ∷ rear ∷ []) heap-Holds refl

kfree_large-IsCoalesced_example :
    (h' : KernelHeap) × (kfree_large 0x40028 heap ≡ some h')
    × Holds h' (released (front ∷ middle ∷ []) rear [])
    × IsCoalesced (released (front ∷ middle ∷ []) rear [])
kfree_large-IsCoalesced_example =
    kfree_large-IsCoalesced heap (front ∷ middle ∷ []) rear [] heap-Holds refl (refl, (refl, tt))

kfree_large-kmalloc_large_example :
    (h' h'' : KernelHeap) × (ptr : ℕ) × (kmalloc_large 9 3000 heap few ≡ some (h', few, ptr))
    × (kfree_large ptr h' ≡ some h'')
    × Holds h'' (front ∷ middle ∷ rear ∷ [])
kfree_large-kmalloc_large_example =
    kfree_large-kmalloc_large 9 3000 heap few (front ∷ []) middle (rear ∷ []) heap-Holds
      (refl, (refl, tt)) (refl, tt) refl (omega arith) (omega arith)

front_freed : (h' : KernelHeap) × (kfree_large 0x10028 heap ≡ some h')
front_freed =
    let (h', e, _) = kfree_large_lem heap [] front (middle ∷ rear ∷ []) heap-Holds refl in (h', e)
