-- ===== src/Slab/Given.antt =====
-- The page of a freed object in `slab_cache_free` of kernel/memory/slab.c, and its move to another list.
use kernel_smp.Base.{
  ℕ, ◌+◌, ◌<◌, ◌≡◌, ◌≢◌, refl, sym, subst, ◌∙◌, ap, List, [], ◌∷◌, ◌++◌, All, All-append, All-parts,
  length, arith, update, update_ne, update_self, u64, page_align_down,
}
use kernel_smp.RunQueue.Chain.{NotIn, Chain-frame, All-update}
use kernel_smp.Slab.{Slabs, SlabCache, slab_list_remove, slab_list_push}
use kernel_smp.Slab.Apart.{Apart-sym, Distinct-parts, Apart-parts}
use kernel_smp.Slab.Linked.{Linked-parts}
use kernel_smp.Slab.Cache.{
  PageHas, KeepsAt, IsPage, HasFree, NoneFree, Keeps, move_lem, pages-others,
}

-- The object is the first free one of page `pg`.
abbrev pub with_first : ℕ → ℕ → Slabs → Slabs
with_first pg ptr s = record s {
  object = update s.object ptr (s.free_list pg);
  free_list = update s.free_list pg ptr;
  free_count = update s.free_count pg (u64 (s.free_count pg + 1));
}

-- What lies in another page is not the object.
NotIn-page :
    (ptr other : ℕ) (objs : List ℕ)
    → page_align_down ptr ≢ other
    → All (λ o. page_align_down o ≡ other) objs
    → NotIn ptr objs
NotIn-page ptr other [] ne inside = tt
NotIn-page ptr other (o ∷ os) ne (here, inside) =
    (λ e. ne (ap (λ n. page_align_down n) e ∙ here), NotIn-page ptr other os ne inside)

module _ (s : Slabs) (i ptr : ℕ) (free : ℕ → List ℕ) where
  abbrev pub pg : ℕ
  pg = page_align_down ptr

  abbrev pub freed : ℕ → List ℕ
  freed = update free pg (ptr ∷ free pg)

  IsPage-elsewhere :
      (other : ℕ) → pg ≢ other → IsPage s i free other → IsPage (with_first pg ptr s) i freed other
  IsPage-elsewhere other ne (c, d, inside, count, small, m, p) =
      let same = update_ne free pg other (ptr ∷ free pg) ne in
      subst (PageHas (with_first pg ptr s) i other) (sym same) (
        rw (update_ne s.free_list pg other ptr ne) (
            Chain-frame s.object (update s.object ptr (s.free_list pg)) (s.free_list other)
              (free other)
              (All-update s.object ptr (s.free_list pg) (free other)
                (NotIn-page ptr other (free other) ne inside))
              c),
        d,
        inside,
        update_ne s.free_count pg other (u64 (s.free_count pg + 1)) ne ∙ count,
        small,
        m,
        p,
      )

  IsPage-given :
      ptr ≢ 0
      → NotIn ptr (free pg)
      → length (free pg) < 4095
      → IsPage s i free pg
      → IsPage (with_first pg ptr s) i freed pg
  IsPage-given nz out room (c, d, inside, count, small, m, p) =
      subst (PageHas (with_first pg ptr s) i pg) (sym (update_self free pg (ptr ∷ free pg))) (
        (
          update_self s.free_list pg ptr,
          nz,
          rw (update_self s.object ptr (s.free_list pg)) (
              Chain-frame s.object (update s.object ptr (s.free_list pg)) (s.free_list pg) (free pg)
                (All-update s.object ptr (s.free_list pg) (free pg) out) c),
        ),
        (out, d),
        (refl, inside),
        update_self s.free_count pg (u64 (s.free_count pg + 1)) ∙ rw count (omega (arith, room)),
        omega (arith, room),
        m,
        p,
      )

  pub freed_count :
      IsPage s i free pg
      → update s.free_count pg (u64 (s.free_count pg + 1)) pg ≡ length (free pg) + 1
  freed_count (_, _, _, count, small, _, _) =
      update_self s.free_count pg (u64 (s.free_count pg + 1)) ∙ rw count (omega (arith, small))

  others :
      (Q : ℕ → Type 0) (pages : List ℕ)
      → NotIn pg pages
      → All (λ q. IsPage s i free q × Q (length (free q))) pages
      → All (λ q. IsPage (with_first pg ptr s) i freed q × Q (length (freed q))) pages
  others Q pages out all =
      pages-others Q s (with_first pg ptr s) i pg free (ptr ∷ free pg) pages IsPage-elsewhere out
        all

-- The page moves from the full to the partial ones.
abbrev pub to_partial : ℕ → ℕ → Slabs → Slabs
to_partial i pg s =
    let c = s.caches i in
    let (removed, full) = slab_list_remove c.full_slabs pg s in
    let (pushed, partial) = slab_list_push c.partial_slabs pg removed in
    record pushed {
      caches = update s.caches i (record c { full_slabs = full; partial_slabs = partial });
    }

-- The page moves from the partial to the empty ones.
abbrev pub to_empty : ℕ → ℕ → Slabs → Slabs
to_empty i pg s =
    let c = s.caches i in
    let (removed, partial) = slab_list_remove c.partial_slabs pg s in
    let (pushed, empty) = slab_list_push c.empty_slabs pg removed in
    record pushed {
      caches = update s.caches i (record c { partial_slabs = partial; empty_slabs = empty });
    }

module _ (s : Slabs) (i ptr : ℕ) (xs ys rest empty : List ℕ) (free : ℕ → List ℕ) (nz : ptr ≢ 0)
    (out : NotIn ptr (free (page_align_down ptr)))
    (room : length (free (page_align_down ptr)) < 4095) where
  abbrev pub slab : ℕ
  slab = page_align_down ptr

  abbrev pub after : Slabs
  after = with_first slab ptr s

  -- The page had no free object.
  pub Keeps-was_full :
      Keeps s i rest (xs ++ slab ∷ ys) empty free
      → Keeps (to_partial i slab after) i (slab ∷ rest) (xs ++ ys) empty (freed s i ptr free)
  unfolding slab_list_remove slab_list_push
  Keeps-was_full ((lp, lf, le, pf, pe, fe), pp, ff, ee) =
      let c = s.caches i in
      let (fx, ((page, _), fy)) = All-parts (NoneFree s i free) xs (slab ∷ ys) ff in
      let (dx, (out_ys, dy), dis) = Distinct-parts xs (slab ∷ ys) lf.2 in
      let out_xs = (Apart-sym xs (slab ∷ ys) dis).0 in
      let (_, (out_e, _)) = Apart-parts xs (slab ∷ ys) empty fe in
      let fp = Apart-sym rest (xs ++ slab ∷ ys) pf in
      let (_, (out_p, _)) = Apart-parts xs (slab ∷ ys) rest fp in
      let (lf', lp', le', fp', fe', pe') =
        move_lem after c.full_slabs c.partial_slabs c.empty_slabs slab xs ys rest empty
          (Linked-parts s.next s.prev 0 xs (slab ∷ ys) 0 lf.1).1.0 lf lp le fp fe pe in
      subst
        (λ (d : SlabCache).
          KeepsAt (to_partial i slab after) d i (slab ∷ rest) (xs ++ ys) empty (freed s i ptr free))
        (sym (update_self s.caches i _))
        (
          (lp', lf', le', Apart-sym (xs ++ ys) (slab ∷ rest) fp', pe', fe'),
          (
            (
              IsPage-given s i ptr free nz out room page,
              rw (update_self free slab (ptr ∷ free slab)) (omega arith),
            ),
            others s i ptr free (λ n. 0 < n) rest out_p pp,
          ),
          All-append (NoneFree after i (freed s i ptr free)) xs ys
              (others s i ptr free (λ n. n ≡ 0) xs out_xs fx)
              (others s i ptr free (λ n. n ≡ 0) ys out_ys fy),
          others s i ptr free (λ n. 0 < n) empty out_e ee,
        )

  -- The page had a free object, and still has one in use.
  pub Keeps-stays :
      Keeps s i (xs ++ slab ∷ ys) rest empty free
      → Keeps after i (xs ++ slab ∷ ys) rest empty (freed s i ptr free)
  Keeps-stays ((lp, lf, le, pf, pe, fe), pp, ff, ee) =
      let (px, ((page, _), py)) = All-parts (HasFree s i free) xs (slab ∷ ys) pp in
      let (_, (out_ys, _), dis) = Distinct-parts xs (slab ∷ ys) lp.2 in
      let out_xs = (Apart-sym xs (slab ∷ ys) dis).0 in
      let (_, (out_f, _)) = Apart-parts xs (slab ∷ ys) rest pf in
      let (_, (out_e, _)) = Apart-parts xs (slab ∷ ys) empty pe in
      let more : 0 < length (freed s i ptr free slab) =
        rw (update_self free slab (ptr ∷ free slab)) (omega arith) in
      (
        (lp, lf, le, pf, pe, fe),
        All-append (HasFree after i (freed s i ptr free)) xs (slab ∷ ys)
            (others s i ptr free (λ n. 0 < n) xs out_xs px)
            (
              (IsPage-given s i ptr free nz out room page, more),
              others s i ptr free (λ n. 0 < n) ys out_ys py,
            ),
        others s i ptr free (λ n. n ≡ 0) rest out_f ff,
        others s i ptr free (λ n. 0 < n) empty out_e ee,
      )

  -- The page had all its other objects free.
  pub Keeps-now_empty :
      Keeps s i (xs ++ slab ∷ ys) rest empty free
      → Keeps (to_empty i slab after) i (xs ++ ys) rest (slab ∷ empty) (freed s i ptr free)
  unfolding slab_list_remove slab_list_push
  Keeps-now_empty keeps =
      let c = s.caches i in
      let ((lp, lf, le, pf, pe, fe), pp, ff, ee) = Keeps-stays keeps in
      let (px, (page, py)) = All-parts (HasFree after i (freed s i ptr free)) xs (slab ∷ ys) pp in
      let (lp', le', lf', pe', pf', ef') =
        move_lem after c.partial_slabs c.empty_slabs c.full_slabs slab xs ys empty rest
          (Linked-parts s.next s.prev 0 xs (slab ∷ ys) 0 lp.1).1.0 lp le lf pe pf
          (Apart-sym rest empty fe) in
      subst
        (λ (d : SlabCache).
          KeepsAt (to_empty i slab after) d i (xs ++ ys) rest (slab ∷ empty) (freed s i ptr free))
        (sym (update_self s.caches i _))
        (
          (lp', lf', le', pf', pe', Apart-sym (slab ∷ empty) rest ef'),
          All-append (HasFree after i (freed s i ptr free)) xs ys px py,
          ff,
          (page, ee),
        )
