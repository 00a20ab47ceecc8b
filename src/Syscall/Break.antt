-- ===== src/Syscall/Break.antt =====
-- What `sys_malloc_handler` of kernel/syscall/syscall_funcs.c promises of the heap of a task.
use kernel_smp.Base.{
  ℕ, ◌+◌, ◌^◌, ◌%◌, ◌≤◌, ◌<◌, ◌≡◌, ◌⊎◌, inl, inr, false, some, leb, ◌==◌, u64, sub64, page_align_up,
  align_16, arith, Bool-cases, Option-cases, refl, leb→le,
}
use kernel_smp.Vma.Map.{Space, Status, ok, vma_map}
use kernel_smp.Syscall.{Heap, sys_malloc, heap_flags}

-- A heap that is in order: the top is a multiple of 16 between the ends, and the end a page.
pub record IsHeap (h : Heap) : Type 0 where
  pub low : h.heap_start ≤ h.heap_curr
  pub high : h.heap_curr ≤ h.heap_end
  pub aligned : h.heap_curr % 16 ≡ 0
  pub whole : h.heap_end % 4096 ≡ 0

-- What is granted: the old top, with the whole size below the new one.
pub record Granted (size : ℕ) (h h' : Heap) (r : ℕ) : Type 0 where
  pub address : r ≡ h.heap_curr
  pub room : r + size ≤ h'.heap_curr

aligned_room :
    (curr end size : ℕ)
    → curr % 16 ≡ 0
    → end % 4096 ≡ 0
    → size < 2 ^ 47
    → curr ≤ end
    → end < 2 ^ 47
    → u64 (curr + align_16 size) ≤ end
    → (curr + size ≤ u64 (curr + align_16 size))
      × (curr ≤ u64 (curr + align_16 size))
      × (u64 (curr + align_16 size) % 16 ≡ 0)
aligned_room curr end size a b c d e f = (omega arith, omega arith, omega arith)

extended_room :
    (curr end size : ℕ)
    → curr % 16 ≡ 0
    → end % 4096 ≡ 0
    → size < 2 ^ 47
    → curr ≤ end
    → end < 2 ^ 47
    → end < u64 (curr + align_16 size)
    → (curr + size ≤ u64 (curr + align_16 size))
      × (u64 (curr + align_16 size) ≤ u64 (end + page_align_up (sub64 (u64 (curr + size)) end)))
      × (u64 (curr + align_16 size) % 16 ≡ 0)
      × (u64 (end + page_align_up (sub64 (u64 (curr + size)) end)) % 4096 ≡ 0)
extended_room curr end size a b c d e f = (omega arith, omega arith, omega arith, omega arith)

-- On a heap in order below `2 ^ 47`, and for a size below `2 ^ 47`, a `sys_malloc` that returns leaves the heap in order and its
-- start in place. It grants the old top with room for the size, or it returns 0 and the heap is as
-- it was.
pub sys_malloc_lem :
    (fuel new size : ℕ) (h h' : Heap) (s s' : Space) (r : ℕ)
    → IsHeap h
    → h.heap_end < 2 ^ 47
    → size < 2 ^ 47
    → sys_malloc fuel new size h s ≡ some (h', s', r)
    → IsHeap h' × (h'.heap_start ≡ h.heap_start) × (Granted size h h' r ⊎ ((r ≡ 0) × (h' ≡ h)))
unfolding sys_malloc
sys_malloc_lem fuel new size h h' s s' r v low small e = elim (Bool-cases (size == 0)) [
  | inl z ↦ kept v (ground arith) (ground arith)
  | inr nz ↦ elim (Bool-cases (leb (u64 (h.heap_curr + align_16 size)) h.heap_end)) [
    | inl fits ↦
        let (a, b, c) =
          aligned_room h.heap_curr h.heap_end size v.aligned v.whole small v.high low
            (leb→le _ _ fits) in
        moved _ h.heap_end (ground arith) (ground arith) (omega (arith, v.low, b)) (leb→le _ _ fits)
          c v.whole a
    | inr more ↦
        let (a, b, c, d) =
          extended_room h.heap_curr h.heap_end size v.aligned v.whole small v.high low
            (over _ _ more) in
        elim (Option-cases (
          vma_map fuel new h.heap_end (page_align_up (sub64 (u64 (h.heap_curr + size)) h.heap_end))
            heap_flags s)) [
              | inl stuck ↦ ground arith
              | inr ((s₁, ok), m) ↦
                  moved _ _ (ground arith) (ground arith) (omega (arith, v.low, a)) b c d a
              | inr ((s₁, Status.invalid), m) ↦ kept v (ground arith) (ground arith)
              | inr ((s₁, Status.overlap), m) ↦ kept v (ground arith) (ground arith)
              | inr ((s₁, Status.no_descriptor), m) ↦ kept v (ground arith) (ground arith)
              | inr ((s₁, Status.no_memory), m) ↦ kept v (ground arith) (ground arith)
            ]
  ]
]
  where
    over : (a b : ℕ) → leb a b ≡ false → b < a
    over a b x = ground arith

    moved :
        (curr end : ℕ)
        → h' ≡ record { heap_start = h.heap_start; heap_curr = curr; heap_end = end }
        → r ≡ h.heap_curr
        → h.heap_start ≤ curr
        → curr ≤ end
        → curr % 16 ≡ 0
        → end % 4096 ≡ 0
        → h.heap_curr + size ≤ curr
        → IsHeap h' × (h'.heap_start ≡ h.heap_start) × (Granted size h h' r ⊎ ((r ≡ 0) × (h' ≡ h)))
    moved curr end same top a b c d room = rw same (
      record { low = a; high = b; aligned = c; whole = d },
      refl,
      inl (record { address = top; room = rw top room }),
    )

    kept :
        IsHeap h
        → h' ≡ h
        → r ≡ 0
        → IsHeap h' × (h'.heap_start ≡ h.heap_start) × (Granted size h h' r ⊎ ((r ≡ 0) × (h' ≡ h)))
    kept v same z = rw same (v, refl, inr (z, refl))
