-- ===== src/Slab/Push.antt =====
-- `slab_list_push` of kernel/memory/slab.c on lists of pages.
use kernel_smp.Base.{
  ℕ, ◌≡◌, ◌≢◌, refl, sym, ◌∙◌, List, [], ◌∷◌, All, ◌==◌, if◌then◌else◌, update, update_ne,
  update_self, arith, ne→==, ℕ_discrete,
}
use kernel_smp.RunQueue.Chain.{NotIn, All-update}
use kernel_smp.Slab.{Slabs, slab_list_push}
use kernel_smp.Slab.Linked.{IsList, Linked-frame}

-- The back links after a push.
abbrev linked_back : (ℕ → ℕ) → ℕ → ℕ → ℕ → ℕ
linked_back f head slab = if head == 0 then update f slab 0 else update (update f slab 0) head slab

linked_back_elsewhere :
    (f : ℕ → ℕ) (head slab : ℕ) (zs : List ℕ)
    → (head ≢ 0 → NotIn head zs)
    → NotIn slab zs
    → All (λ y. linked_back f head slab y ≡ f y) zs
linked_back_elsewhere f head slab [] far out = tt
linked_back_elsewhere f head slab (z ∷ zs) far (ne, out) = (
  elim (ℕ_discrete head 0) [
    | yes none_there ↦ ground arith
    | no nz ↦ let apart = (far nz).0 in ground arith
  ],
  linked_back_elsewhere f head slab zs (λ nz. (far nz).1) out,
)

linked_back-slab : (f : ℕ → ℕ) (head slab : ℕ) → head ≢ slab → linked_back f head slab slab ≡ 0
linked_back-slab f head slab ne = ground arith

linked_back-head : (f : ℕ → ℕ) (head slab : ℕ) → head ≢ 0 → linked_back f head slab head ≡ slab
linked_back-head f head slab nz = rw (ne→== head 0 nz) (update_self (update f slab 0) head slab)

-- Putting a page in front of a list that it is not in.
pub slab_list_push_lem :
    (s : Slabs) (head slab : ℕ) (xs : List ℕ)
    → slab ≢ 0
    → NotIn slab xs
    → IsList s head xs
    → IsList (slab_list_push head slab s).0 (slab_list_push head slab s).1 (slab ∷ xs)
unfolding slab_list_push
slab_list_push_lem s head slab [] nz out (start, l, d) = (
  refl,
  (nz, update_self s.next slab head ∙ start, rw start (update_self s.prev slab 0), tt),
  (tt, tt),
)
slab_list_push_lem s head slab (x ∷ xs) nz (ne, out) (start, (nz', en, ep, l), (out_x, d)) =
    let far : head ≢ 0 → NotIn head xs = λ _. rw start out_x in
    (
      refl,
      (
        nz,
        update_self s.next slab head ∙ start,
        linked_back-slab s.prev head slab (λ e. ne (sym e ∙ start)),
        (
          nz',
          update_ne s.next slab x head ne ∙ en,
          rw (← start) (linked_back-head s.prev head slab (λ e. nz' (sym start ∙ e))),
          Linked-frame s.next (update s.next slab head) s.prev (linked_back s.prev head slab) x xs 0
              (All-update s.next slab head xs out)
              (linked_back_elsewhere s.prev head slab xs far out) l,
        ),
      ),
      ((ne, out), (out_x, d)),
    )

pub slab_list_push-others :
    (s : Slabs) (head slab other : ℕ) (zs : List ℕ)
    → NotIn slab zs
    → (head ≢ 0 → NotIn head zs)
    → IsList s other zs
    → IsList (slab_list_push head slab s).0 other zs
unfolding slab_list_push
slab_list_push-others s head slab other zs out far (start, l, d) = (
  start,
  Linked-frame s.next (update s.next slab head) s.prev (linked_back s.prev head slab) 0 zs 0
      (All-update s.next slab head zs out) (linked_back_elsewhere s.prev head slab zs far out) l,
  d,
)
