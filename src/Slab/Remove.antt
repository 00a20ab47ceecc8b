-- ===== src/Slab/Remove.antt =====
-- `slab_list_remove` of kernel/memory/slab.c on lists of pages.
use kernel_smp.Base.{
  ℕ, ◌≡◌, ◌≢◌, refl, sym, subst, ◌∙◌, List, [], ◌∷◌, ◌++◌, ◌==◌, if◌then◌else◌, update, arith,
  ne→==, ==_refl,
}
use kernel_smp.RunQueue.Chain.{NotIn, Apart, Distinct-append}
use kernel_smp.Slab.Apart.{Distinct-parts, Apart-sym, Apart-parts, Apart-cons, Apart-nil}
use kernel_smp.Slab.{Slabs, slab_list_remove}
use kernel_smp.Slab.Linked.{
  IsList, first, end_of, rewired, rewired_elsewhere, Linked-before, Linked-behind, Linked-append,
  Linked-parts, Linked-frame,
}

pub first-NotIn : (xs zs : List ℕ) → Apart xs zs → first xs 0 ≢ 0 → NotIn (first xs 0) zs
first-NotIn [] zs apart nz = absurd (nz refl)
first-NotIn (x ∷ xs) zs apart nz = apart.0

end-NotIn :
    (before : ℕ) (xs zs : List ℕ) → NotIn before zs → Apart xs zs → NotIn (end_of before xs) zs
end-NotIn before [] zs out apart = out
end-NotIn before (x ∷ xs) zs out (here, apart) = end-NotIn x xs zs here apart

end-Apart : (xs zs : List ℕ) → Apart xs zs → end_of 0 xs ≢ 0 → NotIn (end_of 0 xs) zs
end-Apart [] zs apart nz = absurd (nz refl)
end-Apart (x ∷ xs) zs (here, apart) nz = end-NotIn x xs zs here apart

remove-eq :
    (s : Slabs) (head slab e v : ℕ)
    → s.prev slab ≡ e
    → s.next slab ≡ v
    → e ≢ slab
    → slab_list_remove head slab s ≡ (
      record s { next = rewired s.next e v slab; prev = rewired s.prev v e slab },
      if head == slab then v else head,
    )
unfolding slab_list_remove
remove-eq s head slab e v ep en ne =
    let there : (if e == 0 then s.next else update s.next e v) slab ≡ v = ground arith in
    rw (ep, en, there)

head_after :
    (slab : ℕ) (xs ys : List ℕ)
    → NotIn slab xs
    → (if first (xs ++ slab ∷ ys) 0 == slab then first ys 0 else first (xs ++ slab ∷ ys) 0)
      ≡ first (xs ++ ys) 0
head_after slab [] ys out = rw ==_refl
head_after slab (x ∷ xs) ys (ne, out) = rw (ne→== x slab (λ e. ne (sym e)))

module _ (s : Slabs) (head slab : ℕ) (xs ys : List ℕ)
    (listed : IsList s head (xs ++ slab ∷ ys)) where
  removed : slab_list_remove head slab s ≡ (
    record s {
      next = rewired s.next (end_of 0 xs) (first ys 0) slab;
      prev = rewired s.prev (first ys 0) (end_of 0 xs) slab;
    },
    first (xs ++ ys) 0,
  )
  removed =
      let (start, l, d) = listed in
      let (_, (nz, en, ep, _)) = Linked-parts s.next s.prev 0 xs (slab ∷ ys) 0 l in
      let (_, _, apart) = Distinct-parts xs (slab ∷ ys) d in
      let (out, _) = Apart-sym xs (slab ∷ ys) apart in
      let ne : end_of 0 xs ≢ slab =
        (end-NotIn 0 xs (slab ∷ []) (λ e. nz (sym e), tt)
          (Apart-cons xs [] slab out (Apart-nil xs))).0 in
      remove-eq s head slab (end_of 0 xs) (first ys 0) ep en ne
      ∙ rw (start, head_after slab xs ys out)

  -- Taking a page out of the list it is in, wherever it stands there.
  pub slab_list_remove_lem :
      IsList (slab_list_remove head slab s).0 (slab_list_remove head slab s).1 (xs ++ ys)
  slab_list_remove_lem =
      let (_, l, d) = listed in
      let (before, (_, _, _, behind)) = Linked-parts s.next s.prev 0 xs (slab ∷ ys) 0 l in
      let (dx, (out_ys, dy), apart) = Distinct-parts xs (slab ∷ ys) d in
      let (out_xs, apart') = Apart-sym xs (slab ∷ ys) apart in
      subst (λ r. IsList r.0 r.1 (xs ++ ys)) (sym removed)
        (
          refl,
          Linked-append (rewired s.next (end_of 0 xs) (first ys 0) slab)
              (rewired s.prev (first ys 0) (end_of 0 xs) slab) 0 xs ys 0
              (Linked-before s.next s.prev slab (first ys 0) xs dx out_xs (first-NotIn ys xs apart')
                before)
              (Linked-behind s.next s.prev slab (end_of 0 xs) ys dy out_ys
                (end-Apart xs ys (Apart-sym ys xs apart')) behind),
          Distinct-append xs ys dx dy (Apart-sym ys xs apart'),
        )

  -- Another list of pages stays.
  pub slab_list_remove-others :
      (other : ℕ) (zs : List ℕ)
      → Apart (xs ++ slab ∷ ys) zs
      → IsList s other zs
      → IsList (slab_list_remove head slab s).0 other zs
  slab_list_remove-others other zs apart (start, l, d) =
      let (apart_xs, (out, apart_ys)) = Apart-parts xs (slab ∷ ys) zs apart in
      subst (λ r. IsList r.0 other zs) (sym removed)
        (
          start,
          Linked-frame s.next (rewired s.next (end_of 0 xs) (first ys 0) slab) s.prev
              (rewired s.prev (first ys 0) (end_of 0 xs) slab) 0 zs 0
              (rewired_elsewhere s.next (end_of 0 xs) (first ys 0) slab zs
                (end-Apart xs zs apart_xs) out)
              (rewired_elsewhere s.prev (first ys 0) (end_of 0 xs) slab zs
                (first-NotIn ys zs apart_ys) out)
              l,
          d,
        )
