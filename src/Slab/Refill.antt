-- ===== src/Slab/Refill.antt =====
-- `slab_grow` of kernel/memory/slab.c on what a cache keeps: a new empty page.
use kernel_smp.Base.{
  ℕ, zero, suc, ◌+◌, ◌*◌, ◌/◌, ◌%◌, ◌≤◌, ◌<◌, ◌^◌, ◌≡◌, ◌≢◌, refl, sym, subst, ◌∙◌, List, ◌∷◌, All,
  Option, length, arith, update, update_ne, update_self, u64, sub64, phys_to_virt,
}
use native.Mathlib.Nat.{div-mul-le_self, lt-div-mul-add}
use kernel_smp.Pmm.{Pmm, pmm_alloc_frame}
use kernel_smp.RunQueue.Chain.{NotIn, Chain, Chain-frame}
use kernel_smp.Slab.{
  Slabs, SlabCache, carve_objects, first_object, slab_grow, slab_list_push, slab_magic,
}
use kernel_smp.Slab.Apart.{Apart-cons, Apart-sym}
use kernel_smp.Slab.Push.{slab_list_push_lem, slab_list_push-others}
use kernel_smp.Slab.Cache.{PageHas, KeepsAt, IsPage, Keeps, pages-others, head-Apart}
use kernel_smp.Slab.Grow.{
  grid, length-grid, grid-Distinct, objs-within, objs-page, kept_elsewhere, objs-Chain,
}

-- The page with its objects, before it is in a list.
abbrev made : ℕ → ℕ → ℕ → ℕ → Slabs → Slabs
made i virt size more s = record s {
  magic = update s.magic virt slab_magic;
  parent_cache = update s.parent_cache virt i;
  free_list = update s.free_list virt (virt + 64);
  free_count = update s.free_count virt (suc more);
  object = carve_objects more size (virt + 64) s.object;
}

abbrev grown : ℕ → ℕ → ℕ → ℕ → Slabs → Slabs
grown i virt size more s =
    let c = s.caches i in
    let (pushed, list) = slab_list_push c.empty_slabs virt (made i virt size more s) in
    record pushed { caches = update s.caches i (record c { empty_slabs = list }) }

slab_grow-eq :
    (hint : Option ℕ) (i : ℕ) (s : Slabs) (pmm : Pmm) (size more virt : ℕ)
    → (s.caches i).obj_size ≡ size
    → 4032 / size ≡ suc more
    → phys_to_virt (pmm_alloc_frame hint pmm).addr ≡ virt
    → virt % 4096 ≡ 0
    → virt + 4096 < 2 ^ 64
    → more < 4096
    → (slab_grow hint i s pmm).0 ≡ grown i virt size more s
unfolding slab_grow
slab_grow-eq hint i s pmm size more virt sized number at aligned low small =
    let start : first_object virt ≡ virt + 64 = omega (arith, aligned) in
    let room : sub64 (u64 (virt + 4096)) (virt + 64) ≡ 4032 = omega arith in
    let count : sub64 (suc more) 1 ≡ more = omega arith in
    rw (at, start, room, sized, number, count)

module _ (s : Slabs) (i virt size more : ℕ) (free : ℕ → List ℕ) (pos : 0 < size)
    (aligned : virt % 4096 ≡ 0) (nz : 0 < virt) (low : virt + 4096 < 2 ^ 64)
    (fits : suc more * size ≤ 4032) (small : more < 4095) where
  abbrev objs : List ℕ
  objs = grid (virt + 64) size (suc more)

  IsPage-made : IsPage (made i virt size more s) i (update free virt objs) virt
  IsPage-made =
      subst (PageHas (made i virt size more s) i virt) (sym (update_self free virt objs)) (
        subst (λ p. Chain (carve_objects more size (virt + 64) s.object) p objs)
            (sym (update_self s.free_list virt (virt + 64)))
            (objs-Chain virt size more pos aligned nz low fits s.object),
        grid-Distinct (virt + 64) size (suc more) pos,
        objs-page virt size more pos aligned nz low fits objs
            (objs-within virt size more pos aligned nz low fits),
        update_self s.free_count virt (suc more) ∙ sym (length-grid (virt + 64) size (suc more)),
        omega (arith, length-grid (virt + 64) size (suc more)),
        update_self s.magic virt slab_magic,
        update_self s.parent_cache virt i,
      )

  IsPage-other :
      (other : ℕ)
      → virt ≢ other
      → IsPage s i free other
      → IsPage (made i virt size more s) i (update free virt objs) other
  IsPage-other other ne (c, d, inside, count, few, m, p) =
      subst (PageHas (made i virt size more s) i other) (sym (update_ne free virt other objs ne)) (
        subst (λ p. Chain (carve_objects more size (virt + 64) s.object) p (free other))
            (sym (update_ne s.free_list virt other (virt + 64) ne))
            (Chain-frame s.object (carve_objects more size (virt + 64) s.object) (s.free_list other)
              (free other)
              (kept_elsewhere virt size more pos aligned nz low fits s.object other (free other) ne
                inside)
              c),
        d,
        inside,
        update_ne s.free_count virt other (suc more) ne ∙ count,
        few,
        update_ne s.magic virt other slab_magic ne ∙ m,
        update_ne s.parent_cache virt other i ne ∙ p,
      )

  Keeps-grown :
      (partial full empty : List ℕ)
      → Keeps s i partial full empty free
      → NotIn virt partial
      → NotIn virt full
      → NotIn virt empty
      → Keeps (grown i virt size more s) i partial full (virt ∷ empty) (update free virt objs)
  unfolding slab_list_push
  Keeps-grown partial full empty ((lp, lf, le, pf, pe, fe), pp, ff, ee) out_p out_f out_e =
      let c = s.caches i in
      let m = made i virt size more s in
      let some_free : 0 < length (update free virt objs virt) =
        rw (update_self free virt objs) (omega arith) in
      let others = λ (Q : ℕ → Type 0) (pages : List ℕ).
        pages-others Q s m i virt free objs pages IsPage-other in
      let far = λ (zs : List ℕ). head-Apart c.empty_slabs empty zs le.0 in
      subst
        (λ (d : SlabCache).
          KeepsAt (grown i virt size more s) d i partial full (virt ∷ empty)
            (update free virt objs))
        (sym (update_self s.caches i _))
        (
          (
            slab_list_push-others m c.empty_slabs virt c.partial_slabs partial out_p
                (far partial (Apart-sym partial empty pe)) lp,
            slab_list_push-others m c.empty_slabs virt c.full_slabs full out_f
                (far full (Apart-sym full empty fe)) lf,
            slab_list_push_lem m c.empty_slabs virt empty (λ e. omega (arith, e)) out_e le,
            pf,
            Apart-cons partial empty virt out_p pe,
            Apart-cons full empty virt out_f fe,
          ),
          others (λ n. 0 < n) partial out_p pp,
          others (λ n. n ≡ 0) full out_f ff,
          ((IsPage-made, some_free), others (λ n. 0 < n) empty out_e ee),
        )

-- A frame from the allocator, at its virtual address.
abbrev pub new_page : Option ℕ → Pmm → ℕ
new_page hint pmm = phys_to_virt (pmm_alloc_frame hint pmm).addr

by_number :
    (n size : ℕ)
    → 0 < size
    → size ≤ 4032
    → n * size ≤ 4032
    → 4032 < n * size + size
    → (more : ℕ) × (n ≡ suc more) × (suc more * size ≤ 4032) × (more < 4095)
by_number zero size pos le fits next = absurd (grind arith)
by_number (suc more) size pos le fits next = (more, refl, fits, grind (arith, fits, pos))

-- The number of objects in a page is not 0, and they fit behind the header.
objects_fit :
    (size : ℕ)
    → 0 < size
    → size ≤ 4032
    → (more : ℕ) × (4032 / size ≡ suc more) × (suc more * size ≤ 4032) × (more < 4095)
objects_fit size pos le =
    let fits = div-mul-le_self 4032 size in
    let next = lt-div-mul-add {a = 4032} {b = size} pos in
    by_number (4032 / size) size pos le fits next

-- A new page of a cache: `slab_grow` puts it in front of the empty pages, all its objects free. They are
-- the multiples of the object size behind the 64 bytes of its header, as many as fit, and each lies
-- in the page. All other pages and free objects of the cache are as before.
pub slab_grow_lem :
    (hint : Option ℕ) (i : ℕ) (s : Slabs) (pmm : Pmm) (partial full empty : List ℕ)
    (free : ℕ → List ℕ)
    → Keeps s i partial full empty free
    → 0 < (s.caches i).obj_size
    → (s.caches i).obj_size ≤ 4032
    → (pmm_alloc_frame hint pmm).addr % 4096 ≡ 0
    → (pmm_alloc_frame hint pmm).addr < 2 ^ 46
    → NotIn (new_page hint pmm) partial
    → NotIn (new_page hint pmm) full
    → NotIn (new_page hint pmm) empty
    → let virt = new_page hint pmm in
      let size = (s.caches i).obj_size in
      let objs = grid (virt + 64) size (4032 / size) in
      Keeps (slab_grow hint i s pmm).0 i partial full (virt ∷ empty) (update free virt objs)
      × All (λ o. (virt + 64 ≤ o) × (o + size ≤ virt + 4096)) objs
slab_grow_lem hint i s pmm partial full empty free keeps pos le aligned low out_p out_f out_e =
    let virt = new_page hint pmm in
    let size = (s.caches i).obj_size in
    let (more, number, fits, small) = objects_fit size pos le in
    let grew : (slab_grow hint i s pmm).0 ≡ grown i virt size more s =
      slab_grow-eq hint i s pmm size more virt refl number refl (omega (arith, aligned, low))
        (omega (arith, low)) (omega (arith, small)) in
    let kept =
      Keeps-grown s i virt size more free pos (omega (arith, aligned, low)) (omega (arith, low))
        (omega (arith, low)) fits small partial full empty keeps out_p out_f out_e in
    let inside =
      objs-within virt size more pos (omega (arith, aligned, low)) (omega (arith, low))
        (omega (arith, low)) fits in
    (
      subst
          (λ n.
            Keeps (slab_grow hint i s pmm).0 i partial full (virt ∷ empty)
              (update free virt (grid (virt + 64) size n)))
          (sym number)
          (subst
            (λ g.
              Keeps g i partial full (virt ∷ empty)
                (update free virt (grid (virt + 64) size (suc more))))
            (sym grew) kept),
      subst (λ n. All (λ o. (virt + 64 ≤ o) × (o + size ≤ virt + 4096)) (grid (virt + 64) size n))
          (sym number) inside,
    )
