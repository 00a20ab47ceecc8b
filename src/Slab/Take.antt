-- ===== src/Slab/Take.antt =====
-- `take_object`, the second part of `slab_cache_alloc` of kernel/memory/slab.c: an object of a page.
use kernel_smp.Base.{
  ℕ, suc, ◌<◌, ◌≡◌, ◌≢◌, refl, sym, subst, ◌∙◌, List, [], ◌∷◌, All, length, arith, update,
  update_ne, update_self, sub64, ne→==,
}
use kernel_smp.RunQueue.Chain.{NotIn}
use kernel_smp.Slab.{Slabs, SlabCache, slab_list_remove, slab_list_push, take_object}
use kernel_smp.Slab.Cache.{PageHas, KeepsAt, IsPage, Keeps, move_lem, pages-others}

-- The first object is gone from the list of page `pg`.
abbrev without_first : ℕ → Slabs → Slabs
without_first pg s = record s {
  free_list = update s.free_list pg (s.object (s.free_list pg));
  free_count = update s.free_count pg (sub64 (s.free_count pg) 1);
}

-- The page becomes the first of the full ones.
abbrev full_moved : ℕ → ℕ → Slabs → Slabs
full_moved i pg s =
    let c = s.caches i in
    let (removed, partial) = slab_list_remove c.partial_slabs pg s in
    let (pushed, full) = slab_list_push c.full_slabs pg removed in
    record pushed {
      caches = update s.caches i (record c { partial_slabs = partial; full_slabs = full });
    }

module _ (s : Slabs) (i pg o : ℕ) (os : List ℕ) (page : PageHas s i pg (o ∷ os)) where
  PageHas-first : s.free_list pg ≡ o
  PageHas-first = page.0.0

  PageHas-count : sub64 (s.free_count pg) 1 ≡ length os
  PageHas-count = let (_, _, _, count, small, _, _) = page in rw count (omega (arith, small))

  PageHas-without : PageHas (without_first pg s) i pg os
  PageHas-without =
      let ((first_o, nz, c), (out, d), (here, inside), count, small, m, p) = page in
      (
        rw (update_self s.free_list pg (s.object (s.free_list pg)), first_o) c,
        d,
        inside,
        update_self s.free_count pg (sub64 (s.free_count pg) 1) ∙ PageHas-count,
        omega (arith, small),
        m,
        p,
      )

IsPage-elsewhere :
    (s : Slabs) (i pg other : ℕ) (free : ℕ → List ℕ) (os : List ℕ)
    → pg ≢ other
    → IsPage s i free other
    → IsPage (without_first pg s) i (update free pg os) other
IsPage-elsewhere s i pg other free os ne page =
    rw
      (
        update_ne free pg other os ne,
        update_ne s.free_list pg other (s.object (s.free_list pg)) ne,
        update_ne s.free_count pg other (sub64 (s.free_count pg) 1) ne,
      )
      page

take_object-left :
    (s : Slabs) (i pg o o' : ℕ) (os : List ℕ)
    → PageHas s i pg (o ∷ o' ∷ os)
    → take_object i pg s ≡ (without_first pg s, o)
unfolding take_object
take_object-left s i pg o o' os page =
    let some_left : update s.free_count pg (sub64 (s.free_count pg) 1) pg ≡ suc (length os) =
      update_self s.free_count pg (sub64 (s.free_count pg) 1)
      ∙ PageHas-count s i pg o (o' ∷ os) page in
    rw (some_left, ne→== (suc (length os)) 0 (λ e. omega (arith, e)), page.0.0)

take_object-none_left :
    (s : Slabs) (i pg o : ℕ)
    → PageHas s i pg (o ∷ [])
    → take_object i pg s ≡ (full_moved i pg (without_first pg s), o)
unfolding take_object
take_object-none_left s i pg o page =
    let none_left : update s.free_count pg (sub64 (s.free_count pg) 1) pg ≡ 0 =
      update_self s.free_count pg (sub64 (s.free_count pg) 1) ∙ PageHas-count s i pg o [] page in
    rw (none_left, page.0.0)

module _ (s : Slabs) (i pg o : ℕ) (os ps full empty : List ℕ) (free : ℕ → List ℕ)
    (some_free : free pg ≡ o ∷ os) (keeps : Keeps s i (pg ∷ ps) full empty free) where
  pub first_page : PageHas s i pg (o ∷ os)
  first_page = let (_, ((page, _), _), _, _) = keeps in subst (PageHas s i pg) some_free page

  pages_after :
      (Q : ℕ → Type 0) (pages : List ℕ)
      → NotIn pg pages
      → All (λ q. IsPage s i free q × Q (length (free q))) pages
      → All
          (λ q.
            IsPage (without_first pg s) i (update free pg os) q × Q (length (update free pg os q)))
          pages
  pages_after Q pages out all =
      pages-others Q s (without_first pg s) i pg free os pages
        (λ q ne page. IsPage-elsewhere s i pg q free os ne page) out all

  IsPage-after : IsPage (without_first pg s) i (update free pg os) pg
  IsPage-after =
      subst (PageHas (without_first pg s) i pg) (sym (update_self free pg os))
        (PageHas-without s i pg o os first_page)

  Keeps-left : 0 < length os → Keeps (without_first pg s) i (pg ∷ ps) full empty (update free pg os)
  Keeps-left more =
      let (lists, (_, pp), ff, ee) = keeps in
      let ((_, _, (out, _)), _, _, (out_f, _), (out_e, _), _) = lists in
      (
        lists,
        ((IsPage-after, rw (update_self free pg os) more), pages_after (λ n. 0 < n) ps out pp),
        pages_after (λ n. n ≡ 0) full out_f ff,
        pages_after (λ n. 0 < n) empty out_e ee,
      )

  Keeps-none_left :
      length os ≡ 0
      → Keeps (full_moved i pg (without_first pg s)) i ps (pg ∷ full) empty (update free pg os)
  unfolding slab_list_remove slab_list_push
  Keeps-none_left none_left =
      let ((lp, lf, le, pf, pe, fe), (_, pp), ff, ee) = keeps in
      let (_, (nz, _, _, _), (out, _)) = lp in
      let c = s.caches i in
      let t = without_first pg s in
      let (lp', lf', le', pf', pe', fe') =
        move_lem t c.partial_slabs c.full_slabs c.empty_slabs pg [] ps full empty nz lp lf le pf pe
          fe in
      subst
        (λ (d : SlabCache).
          KeepsAt (full_moved i pg t) d i ps (pg ∷ full) empty (update free pg os))
        (sym (update_self s.caches i _))
        (
          (lp', lf', le', pf', pe', fe'),
          pages_after (λ n. 0 < n) ps out pp,
          (
            (IsPage-after, rw (update_self free pg os) none_left),
            pages_after (λ n. n ≡ 0) full pf.0 ff,
          ),
          pages_after (λ n. 0 < n) empty pe.0 ee,
        )

-- The partial and the full pages once page `pg` has only `os` left.
abbrev pub left_partial : List ℕ → ℕ → List ℕ → List ℕ
left_partial [] pg ps = ps
left_partial (o ∷ os) pg ps = pg ∷ ps

abbrev pub left_full : List ℕ → ℕ → List ℕ → List ℕ
left_full [] pg full = pg ∷ full
left_full (o ∷ os) pg full = full

pub take_object_lem :
    (s : Slabs) (i pg o : ℕ) (os ps full empty : List ℕ) (free : ℕ → List ℕ)
    → free pg ≡ o ∷ os
    → Keeps s i (pg ∷ ps) full empty free
    → (s' : Slabs) × (take_object i pg s ≡ (s', o))
      × Keeps s' i (left_partial os pg ps) (left_full os pg full) empty (update free pg os)
take_object_lem s i pg o [] ps full empty free e keeps = (
  full_moved i pg (without_first pg s),
  take_object-none_left s i pg o (first_page s i pg o [] ps full empty free e keeps),
  Keeps-none_left s i pg o [] ps full empty free e keeps refl,
)
take_object_lem s i pg o (o' ∷ os) ps full empty free e keeps = (
  without_first pg s,
  take_object-left s i pg o o' os (first_page s i pg o (o' ∷ os) ps full empty free e keeps),
  Keeps-left s i pg o (o' ∷ os) ps full empty free e keeps (omega arith),
)
