-- ===== src/Slab/Free.antt =====
-- `slab_cache_free` and `slab_free` of kernel/memory/slab.c.
use kernel_smp.Base.{
  ==_refl, ℕ, ◌+◌, ◌-◌, ◌/◌, ◌<◌, ◌≡◌, ◌≢◌, sym, subst, ◌∙◌, ap, false, some, List, [], ◌∷◌, ◌++◌,
  All-parts, length, arith, ◌==◌, if◌then◌else◌, update, u64, page_align_down, ne→==, inl, inr,
  Bool-cases,
}
use kernel_smp.RunQueue.Chain.{Distinct, NotIn}
use kernel_smp.Slab.{Slabs, slab_size, slab_cache_free, slab_free}
use kernel_smp.Slab.Apart.{Apart-sym, Distinct-parts}
use kernel_smp.Slab.Cache.{InUse, IsPage, HasFree, NoneFree, Keeps}
use kernel_smp.Slab.Given.{
  with_first, to_partial, to_empty, freed, freed_count, Keeps-was_full, Keeps-stays,
  Keeps-now_empty,
}

NotIn-before : (q : ℕ) (xs ys : List ℕ) → Distinct (xs ++ q ∷ ys) → NotIn q xs
NotIn-before q xs ys d =
    let (_, _, apart) = Distinct-parts xs (q ∷ ys) d in (Apart-sym xs (q ∷ ys) apart).0

-- A list without one of its pages.
abbrev pub without : ℕ → List ℕ → List ℕ
without q [] = []
without q (x ∷ xs) = if x == q then xs else x ∷ without q xs

without-middle : (q : ℕ) (xs ys : List ℕ) → NotIn q xs → without q (xs ++ q ∷ ys) ≡ xs ++ ys
without-middle q [] ys out = rw ==_refl
without-middle q (x ∷ xs) ys (ne, out) =
    rw (ne→== x q (λ e. ne (sym e)), without-middle q xs ys out)

-- The partial, full and empty pages after a free, when `slab` had `count` of `max` objects free.
abbrev pub lists_after : ℕ → ℕ → ℕ → List ℕ → List ℕ → List ℕ → List ℕ × List ℕ × List ℕ
lists_after slab count max partial full empty =
    if count == 0
    then (slab ∷ partial, without slab full, empty)
    else if count + 1 == max
    then (without slab partial, full, slab ∷ empty)
    else (partial, full, empty)

-- The number of objects that `slab_cache_free` expects in an empty page.
abbrev pub max_objs : Slabs → ℕ → ℕ
max_objs s i = (4096 - slab_size) / (s.caches i).obj_size

-- The object was given back: it is the first free one of its page, and the page is in its new place.
abbrev pub Returned : Slabs → Slabs → ℕ → ℕ → List ℕ → List ℕ → List ℕ → (ℕ → List ℕ) → Type 0
Returned s s' i ptr partial full empty free =
    let slab = page_align_down ptr in
    let (partial', full', empty') =
      lists_after slab (length (free slab)) (max_objs s i) partial full empty in
    (slab_free ptr s ≡ some s')
    × Keeps s' i partial' full' empty' (update free slab (ptr ∷ free slab))

slab_free-page :
    (s : Slabs) (i ptr : ℕ) (free : ℕ → List ℕ)
    → ptr ≢ 0
    → IsPage s i free (page_align_down ptr)
    → slab_free ptr s ≡ some (slab_cache_free i ptr s)
unfolding slab_free
slab_free-page s i ptr free nz (_, _, _, _, _, magic, parent) = rw (ne→== ptr 0 nz, magic, parent)

module _ (s : Slabs) (i ptr : ℕ) (free : ℕ → List ℕ)
    (page : IsPage s i free (page_align_down ptr)) where
  free-was_full :
      length (free (page_align_down ptr)) ≡ 0
      → slab_cache_free i ptr s
        ≡ to_partial i (page_align_down ptr) (with_first (page_align_down ptr) ptr s)
  unfolding slab_cache_free
  free-was_full none_free =
      let slab = page_align_down ptr in
      let one : update s.free_count slab (u64 (s.free_count slab + 1)) slab ≡ 1 =
        freed_count s i ptr free page ∙ ap (λ n. n + 1) none_free in
      rw one

  free-was_partial :
      0 < length (free (page_align_down ptr))
      → slab_cache_free i ptr s ≡ (
          if length (free (page_align_down ptr)) + 1 == (4096 - slab_size) / (s.caches i).obj_size
          then to_empty i (page_align_down ptr) (with_first (page_align_down ptr) ptr s)
          else with_first (page_align_down ptr) ptr s)
  unfolding slab_cache_free
  free-was_partial some_free =
      let not_one : (length (free (page_align_down ptr)) + 1 == 1) ≡ false =
        ne→== _ 1 (λ e. omega (arith, e)) in
      rw (freed_count s i ptr free page, not_one)

-- An object that is in use, of a page of the cache, is given back: `slab_free` finds the cache by the
-- page, and the object becomes the first free one of that page. A page that was full becomes the first
-- of the partial pages, and a partial page of which now all objects are free becomes the first of the empty
-- ones. All other pages and free objects stay as they are.
pub slab_free_lem :
    (s : Slabs) (i ptr : ℕ) (partial full empty : List ℕ) (free : ℕ → List ℕ)
    → Keeps s i partial full empty free
    → InUse (page_align_down ptr) partial full
    → ptr ≢ 0
    → NotIn ptr (free (page_align_down ptr))
    → length (free (page_align_down ptr)) < 4095
    → (s' : Slabs) × Returned s s' i ptr partial full empty free
slab_free_lem s i ptr partial full empty free keeps (inr (xs, ys, e)) nz out room =
    let keeps' = subst (λ l. Keeps s i partial l empty free) e keeps in
    let slab = page_align_down ptr in
    let ((_, lf, _, _, _, _), _, ff, _) = keeps' in
    let (_, ((page, none_free), _)) = All-parts (NoneFree s i free) xs (slab ∷ ys) ff in
    let out_xs = NotIn-before slab xs ys lf.2 in
    let s' = to_partial i slab (with_first slab ptr s) in
    let lists : lists_after slab (length (free slab)) (max_objs s i) partial full empty
        ≡ (slab ∷ partial, xs ++ ys, empty) =
      rw (none_free, e, without-middle slab xs ys out_xs) in
    (
      s',
      (
        slab_free-page s i ptr free nz page ∙ ap some (free-was_full s i ptr free page none_free),
        subst (λ (l : List ℕ × List ℕ × List ℕ). Keeps s' i l.0 l.1 l.2 (freed s i ptr free))
            (sym lists) (Keeps-was_full s i ptr xs ys partial empty free nz out room keeps'),
      ),
    )
slab_free_lem s i ptr partial full empty free keeps (inl (xs, ys, e)) nz out room =
    let keeps' = subst (λ l. Keeps s i l full empty free) e keeps in
    let slab = page_align_down ptr in
    let ((lp, _, _, _, _, _), pp, _, _) = keeps' in
    let (_, ((page, more), _)) = All-parts (HasFree s i free) xs (slab ∷ ys) pp in
    let out_xs = NotIn-before slab xs ys lp.2 in
    let found = slab_free-page s i ptr free nz page in
    let given = free-was_partial s i ptr free page more in
    let some_free : (length (free slab) == 0) ≡ false = ne→== _ 0 (λ z. omega (arith, z, more)) in
    elim (Bool-cases (length (free slab) + 1 == max_objs s i)) [
      | inl last_one ↦
          let s' = to_empty i slab (with_first slab ptr s) in
          let lists : lists_after slab (length (free slab)) (max_objs s i) partial full empty
              ≡ (xs ++ ys, full, slab ∷ empty) =
            rw (some_free, last_one, e, without-middle slab xs ys out_xs) in
          (
            s',
            (
              found ∙ ap some (given ∙ rw last_one),
              subst (λ (l : List ℕ × List ℕ × List ℕ). Keeps s' i l.0 l.1 l.2 (freed s i ptr free))
                  (sym lists) (Keeps-now_empty s i ptr xs ys full empty free nz out room keeps'),
            ),
          )
      | inr not_last ↦
          let s' = with_first slab ptr s in
          let lists : lists_after slab (length (free slab)) (max_objs s i) partial full empty
              ≡ (xs ++ slab ∷ ys, full, empty) =
            rw (some_free, not_last, e) in
          (
            s',
            (
              found ∙ ap some (given ∙ rw not_last),
              subst (λ (l : List ℕ × List ℕ × List ℕ). Keeps s' i l.0 l.1 l.2 (freed s i ptr free))
                  (sym lists) (Keeps-stays s i ptr xs ys full empty free nz out room keeps'),
            ),
          )
    ]
