-- ===== src/Slab/Return.antt =====
-- `slab_cache_alloc` and `slab_free` of kernel/memory/slab.c, one after the other.
use kernel_smp.Base.{
  ℕ, ◌≡◌, sym, subst, fun_ext, ap, ◌∙◌, some, List, ◌∷◌, ◌++◌, update, update_self, update_ne,
  length, ◌<◌, page_align_down, ℕ_discrete,
}
use kernel_smp.RunQueue.Chain.{NotIn}
use kernel_smp.Slab.{Slabs, Frames, slab_cache_alloc, slab_free}
use kernel_smp.Slab.Cache.{Keeps, InUse}
use kernel_smp.Slab.Take.{left_partial, left_full}
use kernel_smp.Slab.Alloc.{slab_cache_alloc_lem, drop_first, empty_left, in_use}
use kernel_smp.Slab.Free.{slab_free_lem, lists_after, max_objs}

put_back_lem :
    (free : ℕ → List ℕ) (slab pg q o : ℕ) (os : List ℕ)
    → slab ≡ pg
    → free pg ≡ o ∷ os
    → update (update free pg os) slab (o ∷ update free pg os slab) q ≡ free q
put_back_lem free slab pg q o os at objs =
    let left = update free pg os in
    let whole : o ∷ left pg ≡ free pg = ap (λ l. o ∷ l) (update_self free pg os) ∙ sym objs in
    let here : update left pg (o ∷ left pg) q ≡ free q = elim (ℕ_discrete pg q) [
      | yes e ↦
          subst (λ r. update left pg (o ∷ left pg) r ≡ free r) e
            (update_self left pg (o ∷ left pg) ∙ whole)
      | no ne ↦ update_ne left pg q (o ∷ left pg) ne ∙ update_ne free pg q os ne
    ] in
    subst (λ r. update left r (o ∷ left r) q ≡ free q) (sym at) here

-- An object that is allocated and given back leaves the free objects of every page as they were, in the
-- same order. Its page is then the first of the empty pages if all its objects are free again and they
-- are more than one, and the first of the partial pages otherwise; the other pages stay in order.
pub slab_free-slab_cache_alloc :
    (s : Slabs) (i : ℕ) (frames : Frames) (pg : ℕ) (rest partial full empty : List ℕ)
    (free : ℕ → List ℕ)
    → Keeps s i partial full empty free
    → partial ++ empty ≡ pg ∷ rest
    → (o : ℕ) × (os : List ℕ) × (s' : Slabs) × (s'' : Slabs) × (slab_cache_alloc i s frames
        ≡ (s', frames, o))
      × (slab_free o s' ≡ some s'')
      × (let (partial', full', empty') =
            lists_after pg
              (length os)
              (max_objs s' i)
              (left_partial os pg (drop_first partial))
              (left_full os pg full)
              (empty_left partial empty) in
          Keeps s'' i partial' full' empty' free)
slab_free-slab_cache_alloc s i frames pg rest partial full empty free keeps e =
    let (o, os, s', objs, inside, nz, out, room, alloc, keeps') =
      slab_cache_alloc_lem s i frames pg rest partial full empty free keeps e in
    let left = update free pg os in
    let now : left (page_align_down o) ≡ os = rw inside (update_self free pg os) in
    let ps = left_partial os pg (drop_first partial) in
    let fs = left_full os pg full in
    let es = empty_left partial empty in
    let (s'', (back, keeps'')) =
      slab_free_lem s' i o ps fs es left keeps'
        (subst (λ q. InUse q ps fs) (sym inside) (in_use os pg (drop_first partial) full)) nz
        (subst (NotIn o) (sym now) out) (subst (λ l. length l < 4095) (sym now) room) in
    let slab = page_align_down o in
    let same : update left slab (o ∷ left slab) ≡ free =
      fun_ext (λ q. put_back_lem free slab pg q o os inside objs) in
    let here =
      subst
        (λ f.
          let (p, f', m) = lists_after slab (length (left slab)) (max_objs s' i) ps fs es in
          Keeps s'' i p f' m f)
        same keeps'' in
    let place =
      ap (λ q. lists_after q (length (left slab)) (max_objs s' i) ps fs es) inside
      ∙ ap (λ (l : List ℕ). lists_after pg (length l) (max_objs s' i) ps fs es) now in
    let there = subst (λ (l : List ℕ × List ℕ × List ℕ). Keeps s'' i l.0 l.1 l.2 free) place here in
    (o, os, s', s'', alloc, back, there)
