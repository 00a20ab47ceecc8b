-- ===== src/Slab/Apart.antt =====
-- Lists of pages without a page in common, for kernel/memory/slab.c.
use kernel_smp.Base.{ℕ, sym, List, [], ◌∷◌, ◌++◌}
use kernel_smp.RunQueue.Chain.{NotIn, Distinct, Apart}

NotIn-parts : (q : ℕ) (xs ys : List ℕ) → NotIn q (xs ++ ys) → NotIn q xs × NotIn q ys
NotIn-parts q [] ys out = (tt, out)
NotIn-parts q (x ∷ xs) ys (ne, out) = let (a, b) = NotIn-parts q xs ys out in ((ne, a), b)

pub Distinct-parts :
    (xs ys : List ℕ) → Distinct (xs ++ ys) → Distinct xs × Distinct ys × Apart xs ys
Distinct-parts [] ys d = (tt, d, tt)
Distinct-parts (x ∷ xs) ys (out, d) =
    let (a, b) = NotIn-parts x xs ys out in
    let (dx, dy, apart) = Distinct-parts xs ys d in ((a, dx), dy, (b, apart))

pub Apart-nil : (xs : List ℕ) → Apart xs []
Apart-nil [] = tt
Apart-nil (x ∷ xs) = (tt, Apart-nil xs)

pub Apart-cons : (xs ys : List ℕ) (y : ℕ) → NotIn y xs → Apart xs ys → Apart xs (y ∷ ys)
Apart-cons [] ys y out apart = tt
Apart-cons (x ∷ xs) ys y (ne, out) (here, apart) =
    ((λ e. ne (sym e), here), Apart-cons xs ys y out apart)

pub Apart-sym : (xs ys : List ℕ) → Apart xs ys → Apart ys xs
Apart-sym [] ys apart = Apart-nil ys
Apart-sym (x ∷ xs) ys (out, apart) = Apart-cons ys xs x out (Apart-sym xs ys apart)

pub Apart-parts : (xs ys zs : List ℕ) → Apart (xs ++ ys) zs → Apart xs zs × Apart ys zs
Apart-parts [] ys zs apart = (tt, apart)
Apart-parts (x ∷ xs) ys zs (out, apart) = let (a, b) = Apart-parts xs ys zs apart in ((out, a), b)

Apart-join : (xs ys zs : List ℕ) → Apart xs zs → Apart ys zs → Apart (xs ++ ys) zs
Apart-join [] ys zs a b = b
Apart-join (x ∷ xs) ys zs (out, a) b = (out, Apart-join xs ys zs a b)

-- Without its middle, a list stays apart from another one.
pub Apart-drop :
    (xs : List ℕ) (y : ℕ) (ys zs : List ℕ) → Apart (xs ++ y ∷ ys) zs → Apart (xs ++ ys) zs
Apart-drop xs y ys zs apart =
    let (a, (_, b)) = Apart-parts xs (y ∷ ys) zs apart in Apart-join xs ys zs a b
