-- ===== src/Slab/Alloc.antt =====
-- `slab_cache_alloc` of kernel/memory/slab.c where the cache has a page with a free object.
use kernel_smp.Base.{
  ℕ, ◌<◌, ◌≡◌, ◌≢◌, refl, sym, subst, ◌∙◌, ap, true, false, inl, inr, List, [], ◌∷◌, ◌++◌, length,
  arith, ◌==◌, update, update_self, page_align_down, ne→==,
}
use mathlib.Core.List.{head-eq_of_cons-eq}
use kernel_smp.RunQueue.Chain.{NotIn}
use kernel_smp.Slab.{
  Slabs, SlabCache, Frames, slab_list_remove, slab_list_push, use_empty, refill, partial_slab,
  slab_cache_alloc,
}
use kernel_smp.Slab.Apart.{Apart-sym, Apart-nil}
use kernel_smp.Slab.Cache.{InUse, KeepsAt, Keeps, move_lem}
use kernel_smp.Slab.Take.{first_page, left_partial, left_full, take_object_lem}

-- The page becomes the first of the partial ones.
abbrev empty_moved : ℕ → ℕ → Slabs → Slabs
empty_moved i pg s =
    let c = s.caches i in
    let (removed, empty) = slab_list_remove c.empty_slabs pg s in
    let (pushed, partial) = slab_list_push c.partial_slabs pg removed in
    record pushed {
      caches = update s.caches i (record c { empty_slabs = empty; partial_slabs = partial });
    }

use_empty-eq :
    (s : Slabs) (i pg : ℕ)
    → (s.caches i).empty_slabs ≡ pg
    → use_empty i s ≡ (empty_moved i pg s, pg)
unfolding use_empty
use_empty-eq s i pg e = ap (λ q. (empty_moved i q s, q)) e

-- The first empty page becomes the only partial one.
Keeps-empty :
    (s : Slabs) (i pg : ℕ) (es full : List ℕ) (free : ℕ → List ℕ)
    → Keeps s i [] full (pg ∷ es) free
    → Keeps (empty_moved i pg s) i (pg ∷ []) full es free
unfolding slab_list_remove slab_list_push
Keeps-empty s i pg es full free ((lp, lf, le, pf, pe, fe), _, ff, (page, ee)) =
    let c = s.caches i in
    let (_, (nz, _, _, _), _) = le in
    let (le', lp', lf', ep', ef', pf') =
      move_lem s c.empty_slabs c.partial_slabs c.full_slabs pg [] es [] full nz le lp lf
        (Apart-nil (pg ∷ es)) (Apart-sym full (pg ∷ es) fe) tt in
    subst (λ (d : SlabCache). KeepsAt (empty_moved i pg s) d i (pg ∷ []) full es free)
      (sym (update_self s.caches i _))
      ((lp', lf', le', pf', Apart-sym es (pg ∷ []) ep', Apart-sym es full ef'), (page, tt), ff, ee)

partial_slab-partial :
    (s : Slabs) (i pg : ℕ) (frames : Frames)
    → (s.caches i).partial_slabs ≡ pg
    → pg ≢ 0
    → partial_slab i s frames ≡ (s, frames, pg)
unfolding partial_slab
partial_slab-partial s i pg frames e nz = rw (e, ne→== pg 0 nz)

partial_slab-empty :
    (s : Slabs) (i pg : ℕ) (frames : Frames)
    → (s.caches i).partial_slabs ≡ 0
    → (s.caches i).empty_slabs ≡ pg
    → pg ≢ 0
    → partial_slab i s frames ≡ (empty_moved i pg s, frames, pg)
unfolding partial_slab
partial_slab-empty s i pg frames none_partial e nz =
    let some_empty : ((s.caches i).empty_slabs == 0) ≡ false = rw e (ne→== pg 0 nz) in
    let kept : refill i s frames ≡ (s, frames) = rw some_empty in
    let no_partial : ((s.caches i).partial_slabs == 0) ≡ true = rw none_partial in
    let ready : partial_slab i s frames ≡ ((use_empty i s).0, frames, (use_empty i s).1) =
      rw (no_partial, kept) in
    ready ∙ ap (λ (r : Slabs × ℕ). (r.0, frames, r.1)) (use_empty-eq s i pg e)

some_object : (objs : List ℕ) → 0 < length objs → (o : ℕ) × (os : List ℕ) × (objs ≡ o ∷ os)
some_object [] more = absurd (omega arith)
some_object (o ∷ os) more = (o, os, refl)

-- An object of page `pg` is handed out. Before that, the other partial pages were `ps`, and `empty` the
-- empty ones that are left.
abbrev pub Handed : Slabs → ℕ → Frames → ℕ → List ℕ → List ℕ → List ℕ → (ℕ → List ℕ) → Type 0
Handed s i frames pg ps full empty free =
    (o : ℕ) × (os : List ℕ) × (s' : Slabs) × (free pg ≡ o ∷ os)
    × (page_align_down o ≡ pg)
    × (o ≢ 0)
    × NotIn o os
    × (length os < 4095)
    × (slab_cache_alloc i s frames ≡ (s', frames, o))
    × Keeps s' i (left_partial os pg ps) (left_full os pg full) empty (update free pg os)

pub in_use :
    (os : List ℕ) (pg : ℕ) (ps full : List ℕ)
    → InUse pg (left_partial os pg ps) (left_full os pg full)
in_use [] pg ps full = inr ([], full, refl)
in_use (o ∷ os) pg ps full = inl ([], ps, refl)

-- With the page at hand that the object is taken from.
slab_cache_alloc_page :
    (s ready : Slabs) (i : ℕ) (frames : Frames) (pg : ℕ) (ps full empty : List ℕ)
    (free : ℕ → List ℕ)
    → Keeps ready i (pg ∷ ps) full empty free
    → partial_slab i s frames ≡ (ready, frames, pg)
    → Handed s i frames pg ps full empty free
unfolding slab_cache_alloc
slab_cache_alloc_page s ready i frames pg ps full empty free keeps at =
    let (_, ((page, more), _), _, _) = keeps in
    let (o, os, e) = some_object (free pg) more in
    let (s', took, keeps') = take_object_lem ready i pg o os ps full empty free e keeps in
    let ((_, nz, _), (out, _), (inside, _), _, small, _, _) =
      first_page ready i pg o os ps full empty free e keeps in
    (o, os, s', e, inside, nz, out, omega (arith, small), rw (at, took), keeps')

abbrev pub drop_first : List ℕ → List ℕ
drop_first [] = []
drop_first (x ∷ xs) = xs

-- The empty pages that are left: one is used only where no page is partial.
abbrev pub empty_left : List ℕ → List ℕ → List ℕ
empty_left [] empty = drop_first empty
empty_left (p ∷ ps) empty = empty

-- Where the cache has a page with a free object, `slab_cache_alloc` hands out the first free object of
-- the first such page, partial pages before empty ones, and takes no frame. The object is no longer
-- free, and the other free objects are as before. A page of which objects are left is the first of
-- the partial pages, and one that has none left is the first of the full ones. All other pages stay in
-- their lists and in order.
pub slab_cache_alloc_lem :
    (s : Slabs) (i : ℕ) (frames : Frames) (pg : ℕ) (rest partial full empty : List ℕ)
    (free : ℕ → List ℕ)
    → Keeps s i partial full empty free
    → partial ++ empty ≡ pg ∷ rest
    → Handed s i frames pg (drop_first partial) full (empty_left partial empty) free
slab_cache_alloc_lem s i frames pg rest (p ∷ ps) full empty free keeps e =
    let ((lp, _, _, _, _, _), _, _, _) = keeps in
    subst (λ q. Handed s i frames q ps full empty free) (head-eq_of_cons-eq e)
      (slab_cache_alloc_page s s i frames p ps full empty free keeps
        (partial_slab-partial s i p frames lp.0 lp.1.0))
slab_cache_alloc_lem s i frames pg rest [] full [] free keeps e = cc
slab_cache_alloc_lem s i frames pg rest [] full (q ∷ es) free keeps e =
    let ((lp, _, le, _, _, _), _, _, _) = keeps in
    subst (λ r. Handed s i frames r [] full es free) (head-eq_of_cons-eq e)
      (slab_cache_alloc_page s (empty_moved i q s) i frames q [] full es free
        (Keeps-empty s i q es full free keeps) (partial_slab-empty s i q frames lp.0 le.0 le.1.0))
