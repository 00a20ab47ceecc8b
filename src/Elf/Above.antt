-- ===== src/Elf/Above.antt =====
-- The heap that `elf_load` leaves behind the segments of a program.
use kernel_smp.Base.{
  ℕ, suc, ◌+◌, ◌*◌, ◌%◌, ◌^◌, ◌≤◌, ◌<◌, ◌≡◌, ◌≢◌, refl, sym, subst, ap, List, [], ◌∷◌, All, Bool,
  true, false, Bool-cases, inl, inr, Option, some, Option-cases, ◌==◌, arith,
}
use mathlib.Core.Option.{none-ne-some, some-injective}
use kernel_smp.Vma.Map.{Space, ok, invalid, overlap, no_descriptor, no_memory, vma_map}
use kernel_smp.Syscall.{Heap, heap_flags}
use kernel_smp.Elf.{
  Segment, Image, Loading, Loaded, load_segments, loaded, vma_flags, seg_end, heap_above, elf_load,
  start_loading, is_elf,
}

-- A segment that is loaded ends at `top` or below.
abbrev pub EndsBelow : ℕ → Segment → Type 0
EndsBelow top p = (p.p_type ≡ 1) → seg_end p ≤ top

not_loaded :
    (l r : Loading) → ¬ ◌≡◌ {A = Option (Loading × Bool)} (some (l, false)) (some (r, true))
not_loaded l r e = cc

module _ (fuel : ℕ) (new : ℕ → ℕ) (elf_data : ℕ) where
  load_segments_max :
      (i : ℕ) (ps : List Segment) (l r : Loading)
      → load_segments fuel new elf_data i ps l ≡ some (r, true)
      → (l.max_vaddr ≤ r.max_vaddr) × All (EndsBelow r.max_vaddr) ps
  unfolding load_segments
  load_segments_max i [] l r e = (ground arith, tt)
  load_segments_max i (p ∷ ps) l r e = elim (Bool-cases (p.p_type == 1)) [
    | inr other ↦
        let (grows, ends) = load_segments_max (suc i) ps l r (rw other at e) in
        (grows, ((λ t. ground arith), ends))
    | inl is_load ↦
        elim (Option-cases
          (vma_map fuel (new i) p.p_vaddr p.p_memsz (vma_flags p.p_flags) l.space)) [
            | inl f ↦ absurd (none-ne-some (r, true) (rw (is_load, f) at e))
            | inr ((s, ok), f) ↦
                let (grows, ends) =
                  load_segments_max (suc i) ps (loaded elf_data p s l) r (rw (is_load, f) at e) in
                (ground arith, ((λ t. ground arith), ends))
            | inr ((s, invalid), f) ↦
                absurd (not_loaded (record l { space = s }) r (rw (is_load, f) at e))
            | inr ((s, overlap), f) ↦
                absurd (not_loaded (record l { space = s }) r (rw (is_load, f) at e))
            | inr ((s, no_descriptor), f) ↦
                absurd (not_loaded (record l { space = s }) r (rw (is_load, f) at e))
            | inr ((s, no_memory), f) ↦
                absurd (not_loaded (record l { space = s }) r (rw (is_load, f) at e))
          ]
  ]

-- What a program that was loaded has: its segments end below its heap, which starts at a page, is at
-- most a page above the last of them, and has four pages.
pub record IsAbove (segments : List Segment) (heap : Heap) : Type 0 where
  pub top : ℕ
  pub ends : All (EndsBelow top) segments
  pub above : top < heap.heap_start
  pub near : heap.heap_start ≤ top + 4096
  pub aligned : heap.heap_start % 4096 ≡ 0
  pub empty : heap.heap_curr ≡ heap.heap_start
  pub size : heap.heap_end ≡ heap.heap_start + 4 * 4096

heap_above-IsAbove :
    (l : Loading) (segments : List Segment)
    → All (EndsBelow l.max_vaddr) segments
    → l.max_vaddr + 5 * 4096 < 2 ^ 64
    → IsAbove segments (heap_above l.max_vaddr)
heap_above-IsAbove l segments ends fits = record {
  top = l.max_vaddr;
  ends = ends;
  above = omega arith;
  near = omega arith;
  aligned = omega arith;
  empty = refl;
  size = omega arith;
}

entry_0 :
    {h : Heap} {l : Loading} {r : Loaded}
    → some (record { heap = h; state = l; entry = 0 }) ≡ some r
    → 0 ≡ r.entry
entry_0 e = ap (λ (x : Loaded). x.entry) (some-injective _ _ e)

-- A program that `elf_load` reports as loaded, whose segments leave room for a heap, has its heap
-- above each of them.
pub elf_load-IsAbove :
    (fuel : ℕ) (new : ℕ → ℕ) (new_heap : ℕ) (image : Image) (heap : Heap) (s : Space) (r : Loaded)
    → elf_load fuel new new_heap image heap s ≡ some r
    → r.entry ≢ 0
    → r.state.max_vaddr + 5 * 4096 < 2 ^ 64
    → IsAbove image.phdr r.heap
unfolding elf_load
elf_load-IsAbove fuel new new_heap image heap s r e real fits =
    elim (Bool-cases (is_elf image.e_ident)) [
      | inr other ↦ absurd (real (sym (entry_0 (rw other at e))))
      | inl elf ↦
          elim (Option-cases
            (load_segments fuel new image.elf_data 0 image.phdr (start_loading s))) [
              | inl f ↦ absurd (none-ne-some r (rw (elf, f) at e))
              | inr ((l, false), f) ↦ absurd (real (sym (entry_0 (rw (elf, f) at e))))
              | inr ((l, true), f) ↦
                  elim (Option-cases (
                    vma_map fuel new_heap (heap_above l.max_vaddr).heap_start (4 * 4096) heap_flags
                      l.space)) [
                        | inl h ↦ absurd (none-ne-some r (rw (elf, f, h) at e))
                        | inr ((s', st), h) ↦
                            let ends =
                              (load_segments_max fuel new image.elf_data 0 image.phdr
                                (start_loading s) l f).1 in
                            subst
                              (λ (x : Loaded).
                                x.state.max_vaddr + 5 * 4096 < 2 ^ 64 → IsAbove image.phdr x.heap)
                              (some-injective _ _ (rw (elf, f, h) at e))
                              (λ room. heap_above-IsAbove l image.phdr ends room) fits
                      ]
            ]
    ]
