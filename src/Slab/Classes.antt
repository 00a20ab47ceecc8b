-- ===== src/Slab/Classes.antt =====
-- `slab_alloc` of kernel/memory/slab.c: the choice of a cache by the size.
use kernel_smp.Base.{
  ℕ, zero, suc, ◌+◌, ◌≤◌, ◌<◌, ◌≡◌, inl, inr, refl, sym, subst, leb, leb→le, arith, Bool-cases,
  ℕ_discrete,
}
use kernel_smp.Slab.{Slabs, Frames, slab_cache_alloc, alloc_from, slab_alloc, cache_size}

-- Cache `i` is the first one whose objects have room for `size` bytes.
abbrev pub Serves : ℕ → ℕ → Type 0
Serves size i = (size ≤ cache_size i) × ((j : ℕ) → j < i → cache_size j < size)

alloc_from_lem :
    (n i last size : ℕ) (s : Slabs) (frames : Frames)
    → last ≡ i + n
    → size ≤ cache_size last
    → ((j : ℕ) → j < i → cache_size j < size)
    → (k : ℕ) × (k ≤ last)
      × Serves size k
      × (alloc_from (suc n) i size s frames ≡ slab_cache_alloc k s frames)
unfolding alloc_from
alloc_from_lem zero i last size s frames at le skipped =
    let here : size ≤ cache_size i = subst (λ k. size ≤ cache_size k) (omega (arith, at)) le in
    (i, omega (arith, at), (here, skipped), ground (arith, here))
alloc_from_lem (suc n) i last size s frames at le skipped =
    elim (Bool-cases (leb size (cache_size i))) [
      | inl here ↦ (i, omega (arith, at), (leb→le size (cache_size i) here, skipped), rw here)
      | inr small ↦
          let skipped' : (j : ℕ) → j < suc i → cache_size j < size = λ j lt. elim (ℕ_discrete j i) [
            | yes e ↦ subst (λ k. cache_size k < size) (sym e) (ground (arith, small))
            | no ne ↦ skipped j (omega (arith, lt, ne))
          ] in
          let (k, below, serves, e) =
            alloc_from_lem n (suc i) last size s frames (omega (arith, at)) le skipped' in
          (k, below, serves, rw small e)
    ]

-- A request of at most 2048 bytes goes to the first cache whose objects have room for it.
pub slab_alloc_lem :
    (size : ℕ) (s : Slabs) (frames : Frames)
    → size ≤ 2048
    → (i : ℕ) × (i < 8) × Serves size i × (slab_alloc size s frames ≡ slab_cache_alloc i s frames)
unfolding slab_alloc
slab_alloc_lem size s frames le =
    let (k, below, serves, e) =
      alloc_from_lem 7 0 7 size s frames refl le (λ j lt. absurd (omega (arith, lt))) in
    (k, omega (arith, below), serves, e)
