-- ===== src/Slab/Linked.antt =====
-- The doubly linked lists of pages of kernel/memory/slab.c as lists, and what `slab_list_remove` and
-- `slab_list_push` do to them.
use kernel_smp.Base.{
  ℕ, ◌≡◌, ◌≢◌, refl, sym, subst, ◌∙◌, List, [], ◌∷◌, ◌++◌, All, ◌==◌, if◌then◌else◌, update,
  update_ne, update_self, arith, ne→==, ℕ_discrete,
}
use kernel_smp.RunQueue.Chain.{NotIn, Distinct, All-update}
use kernel_smp.Slab.{Slabs}

-- The page that a list starts with, when `after` comes behind it.
abbrev pub first : List ℕ → ℕ → ℕ
first [] after = after
first (x ∷ xs) after = x

-- The page that a list ends with, when `before` comes before it.
abbrev pub end_of : ℕ → List ℕ → ℕ
end_of before [] = before
end_of before (x ∷ xs) = end_of x xs

-- The links lead through the pages in order, between the pages `before` and `after`.
abbrev pub Linked : (ℕ → ℕ) → (ℕ → ℕ) → ℕ → List ℕ → ℕ → Type 0
Linked n p before [] after = Unit
Linked n p before (x ∷ xs) after =
    (x ≢ 0) × (n x ≡ first xs after) × (p x ≡ before) × Linked n p x xs after

pub Linked-frame :
    (n n' p p' : ℕ → ℕ) (before : ℕ) (xs : List ℕ) (after : ℕ)
    → All (λ y. n' y ≡ n y) xs
    → All (λ y. p' y ≡ p y) xs
    → Linked n p before xs after
    → Linked n' p' before xs after
Linked-frame n n' p p' before [] after same same' l = tt
Linked-frame n n' p p' before (x ∷ xs) after (e, same) (e', same') (nz, en, ep, l) =
    (nz, e ∙ en, e' ∙ ep, Linked-frame n n' p p' x xs after same same' l)

All-refl : (f : ℕ → ℕ) (xs : List ℕ) → All (λ y. f y ≡ f y) xs
All-refl f [] = tt
All-refl f (x ∷ xs) = (refl, All-refl f xs)

end_of_ne : (q x : ℕ) (xs : List ℕ) → NotIn q (x ∷ xs) → end_of x xs ≢ q
end_of_ne q x [] (ne, _) e = ne (sym e)
end_of_ne q x (y ∷ ys) (ne, out) e = end_of_ne q y ys out e

-- The page behind a list may change.
Linked-next :
    (n p : ℕ → ℕ) (before x : ℕ) (xs : List ℕ) (after v : ℕ)
    → Distinct (x ∷ xs)
    → Linked n p before (x ∷ xs) after
    → Linked (update n (end_of x xs) v) p before (x ∷ xs) v
Linked-next n p before x [] after v d (nz, en, ep, l) = (nz, update_self n x v, ep, tt)
Linked-next n p before x (y ∷ ys) after v (out, d) (nz, en, ep, l) = (
  nz,
  update_ne n (end_of y ys) x v (end_of_ne x y ys out) ∙ en,
  ep,
  Linked-next n p x y ys after v d l,
)

-- The page before a list may change.
Linked-prev :
    (n p : ℕ → ℕ) (before x : ℕ) (xs : List ℕ) (after v : ℕ)
    → NotIn x xs
    → Linked n p before (x ∷ xs) after
    → Linked n (update p x v) v (x ∷ xs) after
Linked-prev n p before x xs after v out (nz, en, ep, l) = (
  nz,
  en,
  update_self p x v,
  Linked-frame n n p (update p x v) x xs after (All-refl n xs) (All-update p x v xs out) l,
)

first-append : (xs ys : List ℕ) (after : ℕ) → first (xs ++ ys) after ≡ first xs (first ys after)
first-append [] ys after = refl
first-append (x ∷ xs) ys after = refl

-- The links after `if (q) q->next = v` and `slab->next = NULL`; of `prev` in the same way.
abbrev pub rewired : (ℕ → ℕ) → ℕ → ℕ → ℕ → ℕ → ℕ
rewired f q v slab = update (if q == 0 then f else update f q v) slab 0

pub rewired_elsewhere :
    (f : ℕ → ℕ) (q v slab : ℕ) (xs : List ℕ)
    → (q ≢ 0 → NotIn q xs)
    → NotIn slab xs
    → All (λ y. rewired f q v slab y ≡ f y) xs
rewired_elsewhere f q v slab [] far out = tt
rewired_elsewhere f q v slab (x ∷ xs) far (ne, out) = (
  elim (ℕ_discrete q 0) [ yes z ↦ ground arith | no nz ↦ let apart = (far nz).0 in ground arith ],
  rewired_elsewhere f q v slab xs (λ nz. (far nz).1) out,
)

rewired_there :
    (f : ℕ → ℕ) (q v slab : ℕ) → q ≢ 0 → rewired f q v slab ≡ update (update f q v) slab 0
rewired_there f q v slab nz = rw (ne→== q 0 nz)

rewired_here :
    (f : ℕ → ℕ) (q v slab : ℕ) (xs : List ℕ)
    → q ≢ 0
    → NotIn slab xs
    → All (λ y. rewired f q v slab y ≡ update f q v y) xs
rewired_here f q v slab xs nz out =
    subst (λ g. All (λ y. g y ≡ update f q v y) xs) (sym (rewired_there f q v slab nz))
      (All-update (update f q v) slab 0 xs out)

Linked-ne-zero :
    (n p : ℕ → ℕ) (before x : ℕ) (xs : List ℕ) (after : ℕ)
    → Linked n p before (x ∷ xs) after
    → end_of x xs ≢ 0
Linked-ne-zero n p before x [] after (nz, _, _, _) = nz
Linked-ne-zero n p before x (y ∷ ys) after (_, _, _, l) = Linked-ne-zero n p x y ys after l

pub Linked-before :
    (n p : ℕ → ℕ) (slab v : ℕ) (xs : List ℕ)
    → Distinct xs
    → NotIn slab xs
    → (v ≢ 0 → NotIn v xs)
    → Linked n p 0 xs slab
    → Linked (rewired n (end_of 0 xs) v slab) (rewired p v (end_of 0 xs) slab) 0 xs v
Linked-before n p slab v [] d out far l = tt
Linked-before n p slab v (x ∷ xs) d out far l =
    let e = end_of x xs in
    Linked-frame (update n e v) (rewired n e v slab) p (rewired p v e slab) 0 (x ∷ xs) v
      (rewired_here n e v slab (x ∷ xs) (Linked-ne-zero n p 0 x xs slab l) out)
      (rewired_elsewhere p v e slab (x ∷ xs) far out) (Linked-next n p 0 x xs slab v d l)

pub Linked-behind :
    (n p : ℕ → ℕ) (slab e : ℕ) (ys : List ℕ)
    → Distinct ys
    → NotIn slab ys
    → (e ≢ 0 → NotIn e ys)
    → Linked n p slab ys 0
    → Linked (rewired n e (first ys 0) slab) (rewired p (first ys 0) e slab) e ys 0
Linked-behind n p slab e [] d out far l = tt
Linked-behind n p slab e (y ∷ ys) (out_y, d) out far (nz, en, ep, l) =
    Linked-frame n (rewired n e y slab) (update p y e) (rewired p y e slab) e (y ∷ ys) 0
      (rewired_elsewhere n e y slab (y ∷ ys) far out) (rewired_here p y e slab (y ∷ ys) nz out)
      (Linked-prev n p slab y ys 0 e out_y (nz, en, ep, l))

pub Linked-append :
    (n p : ℕ → ℕ) (before : ℕ) (xs ys : List ℕ) (after : ℕ)
    → Linked n p before xs (first ys after)
    → Linked n p (end_of before xs) ys after
    → Linked n p before (xs ++ ys) after
Linked-append n p before [] ys after l k = k
Linked-append n p before (x ∷ xs) ys after (nz, en, ep, l) k =
    (nz, en ∙ sym (first-append xs ys after), ep, Linked-append n p x xs ys after l k)

pub Linked-parts :
    (n p : ℕ → ℕ) (before : ℕ) (xs ys : List ℕ) (after : ℕ)
    → Linked n p before (xs ++ ys) after
    → Linked n p before xs (first ys after) × Linked n p (end_of before xs) ys after
Linked-parts n p before [] ys after l = (tt, l)
Linked-parts n p before (x ∷ xs) ys after (nz, en, ep, l) =
    let (a, b) = Linked-parts n p x xs ys after l in ((nz, en ∙ first-append xs ys after, ep, a), b)

-- The pages of a list, from its head.
abbrev pub IsList : Slabs → ℕ → List ℕ → Type 0
IsList s head xs = (head ≡ first xs 0) × Linked s.next s.prev 0 xs 0 × Distinct xs
