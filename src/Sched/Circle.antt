-- ===== src/Sched/Circle.antt =====
-- The circular, doubly linked list of all tasks, read through the functions `next` and `prev`.
use kernel_smp.Base.{
  ℕ, ◌≡◌, ◌≢◌, sym, subst, arith, ◌∙◌, List, [], ◌∷◌, ◌++◌, All, All-parts, update, update_self,
  update_ne,
}
use mathlib.Core.List.{append-nil}
use kernel_smp.RunQueue.Chain.{
  NotIn, Distinct, Apart, last, last-ne, All-update, All-others, NotIn-last,
}

-- From `x` on, the entries of `xs` follow, and then `e`; each points back to the one before it.
abbrev pub Linked : (ℕ → ℕ) → (ℕ → ℕ) → ℕ → List ℕ → ℕ → Type 0
Linked next prev x [] e = (next x ≡ e) × (prev e ≡ x)
Linked next prev x (y ∷ ys) e = (next x ≡ y) × (prev y ≡ x) × Linked next prev y ys e

pub Linked-prev :
    (next prev : ℕ → ℕ) (x : ℕ) (xs : List ℕ) (e : ℕ)
    → Linked next prev x xs e
    → prev e ≡ last (x ∷ xs)
Linked-prev next prev x [] e l = l.1
Linked-prev next prev x (y ∷ ys) e l = Linked-prev next prev y ys e l.2

-- The links depend on `next` at all entries but `e`, and on `prev` at all but the first.
pub Linked-frame :
    (next prev next' prev' : ℕ → ℕ) (x : ℕ) (xs : List ℕ) (e : ℕ)
    → All (λ y. next' y ≡ next y) (x ∷ xs)
    → All (λ y. prev' y ≡ prev y) xs
    → prev' e ≡ prev e
    → Linked next prev x xs e
    → Linked next' prev' x xs e
Linked-frame next prev next' prev' x [] e n p q l = (rw n.0 l.0, rw q l.1)
Linked-frame next prev next' prev' x (y ∷ ys) e n p q l =
    (rw n.0 l.0, rw p.0 l.1, Linked-frame next prev next' prev' y ys e n.1 p.1 q l.2)

-- The last link is redirected to `e'`.
Linked-set_end :
    (next prev : ℕ → ℕ) (x : ℕ) (xs : List ℕ) (e e' : ℕ)
    → Distinct (x ∷ xs)
    → NotIn e' xs
    → Linked next prev x xs e
    → Linked (update next (last (x ∷ xs)) e') (update prev e' (last (x ∷ xs))) x xs e'
Linked-set_end next prev x [] e e' d out l = (update_self next x e', update_self prev e' x)
Linked-set_end next prev x (y ∷ ys) e e' d out l = (
  rw (update_ne next (last (y ∷ ys)) x e' (λ h. last-ne x y ys d.0 (sym h))) l.0,
  rw (update_ne prev e' y (last (y ∷ ys)) out.0) l.1,
  Linked-set_end next prev y ys e e' d.1 out.1 l.2,
)

pub Linked-append :
    (next prev : ℕ → ℕ) (x : ℕ) (xs : List ℕ) (y : ℕ) (ys : List ℕ) (e : ℕ)
    → Linked next prev x xs y
    → Linked next prev y ys e
    → Linked next prev x (xs ++ (y ∷ ys)) e
Linked-append next prev x [] y ys e a b = (a.0, a.1, b)
Linked-append next prev x (z ∷ xs) y ys e a b =
    (a.0, a.1, Linked-append next prev z xs y ys e a.2 b)

pub Linked-parts :
    (next prev : ℕ → ℕ) (x : ℕ) (xs : List ℕ) (y : ℕ) (ys : List ℕ) (e : ℕ)
    → Linked next prev x (xs ++ (y ∷ ys)) e
    → Linked next prev x xs y × Linked next prev y ys e
Linked-parts next prev x [] y ys e l = ((l.0, l.1), l.2)
Linked-parts next prev x (z ∷ xs) y ys e l =
    let (a, b) = Linked-parts next prev z xs y ys e l.2 in ((l.0, l.1, a), b)

write-swap :
    (next : ℕ → ℕ) (t p y x : ℕ) → t ≢ y → update (update next t x) p t y ≡ update next p t y
write-swap next t p y x ne = ground arith

-- A new entry `t` before `e`.
pub Linked-insert :
    (next prev : ℕ → ℕ) (x : ℕ) (xs : List ℕ) (t : ℕ)
    → Distinct (x ∷ xs)
    → NotIn t (x ∷ xs)
    → Linked next prev x xs x
    → Linked
        (update (update next t x) (prev x) t)
        (update (update prev t (prev x)) x t)
        x
        (xs ++ t ∷ [])
        x
Linked-insert next prev x xs t d out l =
    let tail : prev x ≡ last (x ∷ xs) = Linked-prev next prev x xs x l in
    let forth = update (update next t x) (prev x) t in
    let back = update (update prev t (prev x)) x t in
    let behind : prev x ≢ t = λ h. last-ne t x xs out (sym h ∙ tail) in
    let here : Linked (update next (prev x) t) (update prev t (prev x)) x xs t =
      subst (λ z. Linked (update next z t) (update prev t z) x xs t) (sym tail)
        (Linked-set_end next prev x xs x t d out.1 l) in
    let before : Linked forth back x xs t =
      Linked-frame (update next (prev x) t) (update prev t (prev x)) forth back x xs t
        (All-others _ t t (x ∷ xs) (λ y ne _. write-swap next t (prev x) y x ne) out out)
        (All-update (update prev t (prev x)) x t xs d.0)
        (update_ne (update prev t (prev x)) x t t (λ h. out.0 (sym h))) here in
    let forth_t : forth t ≡ x =
      update_ne (update next t x) (prev x) t t behind ∙ update_self next t x in
    Linked-append forth back x xs t [] x before (forth_t, update_self (update prev t (prev x)) x t)

pub Distinct-parts :
    (xs ys : List ℕ) → Distinct (xs ++ ys) → Distinct xs × Distinct ys × Apart xs ys
Distinct-parts [] ys d = (tt, d, tt)
Distinct-parts (x ∷ xs) ys d =
    let (out, out') = All-parts _ xs ys d.0 in
    let (a, b, apart) = Distinct-parts xs ys d.1 in ((out, a), b, (out', apart))

Apart-heads : (xs : List ℕ) (y : ℕ) (ys : List ℕ) → Apart xs (y ∷ ys) → NotIn y xs × Apart xs ys
Apart-heads [] y ys a = (tt, tt)
Apart-heads (x ∷ xs) y ys a =
    let (out, rest) = Apart-heads xs y ys a.1 in ((λ e. a.0.0 (sym e), out), (a.0.1, rest))

-- The entry `t` is taken out.
pub Linked-remove :
    (next prev : ℕ → ℕ) (x : ℕ) (before : List ℕ) (t : ℕ) (after : List ℕ)
    → Distinct (x ∷ (before ++ (t ∷ after)))
    → Linked next prev x (before ++ (t ∷ after)) x
    → Linked (update next (prev t) (next t)) (update prev (next t) (prev t)) x (before ++ after) x
Linked-remove next prev x before t [] d l =
    let (to_t, from_t) = Linked-parts next prev x before t [] x l in
    let (apart, _, _) = Distinct-parts (x ∷ before) (t ∷ []) d in
    let p : prev t ≡ last (x ∷ before) = Linked-prev next prev x before t to_t in
    rw (append-nil, from_t.0, p) (Linked-set_end next prev x before t x apart apart.0 to_t)
Linked-remove next prev x before t (b ∷ after) d l =
    let (to_t, from_t) = Linked-parts next prev x before t (b ∷ after) x l in
    let (front, rear, apart) = Distinct-parts (x ∷ before) (t ∷ b ∷ after) d in
    let (out_t, apart') = Apart-heads (x ∷ before) t (b ∷ after) apart in
    let (out_b, _) = Apart-heads (x ∷ before) b after apart' in
    let p : prev t ≡ last (x ∷ before) = Linked-prev next prev x before t to_t in
    let forth = update next (last (x ∷ before)) b in
    let back = update prev b (last (x ∷ before)) in
    let to_b : Linked forth back x before b =
      Linked-set_end next prev x before t b front out_b.1 to_t in
    let from_b : Linked forth back b after x =
      Linked-frame next prev forth back b after x
        (All-update next (last (x ∷ before)) b (b ∷ after)
          (NotIn-last 0 x before (b ∷ after) apart'))
        (All-update prev b (last (x ∷ before)) after rear.1.0)
        (update_ne prev b x (last (x ∷ before)) out_b.0) from_t.2 in
    rw (from_t.0, p) (Linked-append forth back x before b after x to_b from_b)

-- The first entry is taken out, and the second is the first.
pub Linked-remove_first :
    (next prev : ℕ → ℕ) (x y : ℕ) (ys : List ℕ)
    → Distinct (x ∷ y ∷ ys)
    → Linked next prev x (y ∷ ys) x
    → Linked (update next (prev x) (next x)) (update prev (next x) (prev x)) y ys y
Linked-remove_first next prev x y ys d l =
    let p : prev x ≡ last (y ∷ ys) = Linked-prev next prev y ys x l.2 in
    rw (l.0, p) (Linked-set_end next prev y ys x y d.1 d.1.0 l.2)
