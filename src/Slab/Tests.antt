-- ===== src/Slab/Tests.antt =====
-- A cache of objects of 1024 bytes with two pages, and the theorems of kernel/memory/slab.c at it.
use kernel_smp.Base.{
  length, ℕ, ◌+◌, ◌/◌, ◌≤◌, ◌≡◌, refl, inl, some, none, List, [], ◌∷◌, All, arith, ◌==◌,
  if◌then◌else◌, update,
}
use kernel_smp.Pmm.{Pmm, pmm_alloc_frame, alloc_scan}
use kernel_smp.Base.Bytes.{ctz}
use kernel_smp.Slab.{Slabs, slab_grow, slab_cache_alloc, slab_free, slab_magic}
use kernel_smp.Slab.Cache.{Keeps}
use kernel_smp.Slab.Take.{left_partial, left_full}
use kernel_smp.Slab.Alloc.{Handed, slab_cache_alloc_lem}
use kernel_smp.Slab.Free.{lists_after, max_objs, Returned, slab_free_lem}
use kernel_smp.Slab.Return.{slab_free-slab_cache_alloc}
use kernel_smp.Slab.Grow.{grid}
use kernel_smp.Slab.Refill.{new_page, slab_grow_lem}

-- Page 0xA000 has the objects 0xA040 and 0xA840 free, and 0xA440 in use; page 0xB000 is full.
abbrev two_pages : Slabs
two_pages = record {
  magic = λ q. slab_magic;
  parent_cache = λ q. 6;
  free_list = λ q. if q == 0xA000 then 0xA040 else 0;
  free_count = λ q. if q == 0xA000 then 2 else 0;
  next = λ q. 0;
  prev = λ q. 0;
  object = λ o. if o == 0xA040 then 0xA840 else 0;
  caches =
      λ i. record { obj_size = 1024; partial_slabs = 0xA000; full_slabs = 0xB000; empty_slabs = 0 };
}

abbrev objects : ℕ → List ℕ
objects q = if q == 0xA000 then 0xA040 ∷ 0xA840 ∷ [] else []

two_pages-Keeps : Keeps two_pages 6 (0xA000 ∷ []) (0xB000 ∷ []) [] objects
two_pages-Keeps = (
  (
    (refl, (omega arith, refl, refl, tt), (tt, tt)),
    (refl, (omega arith, refl, refl, tt), (tt, tt)),
    (refl, tt, tt),
    ((omega arith, tt), tt),
    (tt, tt),
    (tt, tt),
  ),
  (
    (
      (
        (refl, omega arith, (refl, omega arith, refl)),
        ((omega arith, tt), (tt, tt)),
        (refl, (refl, tt)),
        refl,
        omega arith,
        refl,
        refl,
      ),
      omega arith,
    ),
    tt,
  ),
  (((refl, tt, tt, refl, omega arith, refl, refl), refl), tt),
  tt,
)

abbrev few : Pmm
few = record { bitmap = 4096; bitmap_size = 16; bytes = λ i. if i == 0 then 3 else 0 }

slab_cache_alloc_lem_example : Handed two_pages 6 (few, none) 0xA000 [] (0xB000 ∷ []) [] objects
slab_cache_alloc_lem_example =
    slab_cache_alloc_lem two_pages 6 (few, none) 0xA000 [] (0xA000 ∷ []) (0xB000 ∷ []) [] objects
      two_pages-Keeps refl

slab_free_lem_example :
    (s' : Slabs) × Returned two_pages s' 6 0xA440 (0xA000 ∷ []) (0xB000 ∷ []) [] objects
slab_free_lem_example =
    slab_free_lem two_pages 6 0xA440 (0xA000 ∷ []) (0xB000 ∷ []) [] objects two_pages-Keeps
      (inl ([], [], refl)) (omega arith) (omega arith, (omega arith, tt)) (omega arith)

slab_free-slab_cache_alloc_example :
    (o : ℕ) × (os : List ℕ) × (s' : Slabs) × (s'' : Slabs) × (slab_cache_alloc 6 two_pages
        (few, none)
      ≡ (s', (few, none), o))
    × (slab_free o s' ≡ some s'')
    × (let (partial', full', empty') =
          lists_after 0xA000
            (length os)
            (max_objs s' 6)
            (left_partial os 0xA000 [])
            (left_full os 0xA000 (0xB000 ∷ []))
            [] in
        Keeps s'' 6 partial' full' empty' objects)
slab_free-slab_cache_alloc_example =
    slab_free-slab_cache_alloc two_pages 6 (few, none) 0xA000 [] (0xA000 ∷ []) (0xB000 ∷ []) []
      objects two_pages-Keeps refl

slab_grow_lem_example :
    let virt = new_page (some 0) few in
    let objs = grid (virt + 64) 1024 (4032 / 1024) in
    Keeps
      (slab_grow (some 0) 6 two_pages few).0
      6
      (0xA000 ∷ [])
      (0xB000 ∷ [])
      (virt ∷ [])
      (update objects virt objs)
    × All (λ o. (virt + 64 ≤ o) × (o + 1024 ≤ virt + 4096)) objs
unfolding pmm_alloc_frame alloc_scan ctz
slab_grow_lem_example =
    slab_grow_lem (some 0) 6 two_pages few (0xA000 ∷ []) (0xB000 ∷ []) [] objects two_pages-Keeps
      (omega arith) (omega arith) refl (omega arith) (omega arith, tt) (omega arith, tt) tt
