-- ===== src/RunQueue/Chain.antt =====
-- Linked lists of tasks, read through a function `next` from a task to the one behind it.
use kernel_smp.Base.{
  ℕ, ◌≡◌, ◌≢◌, refl, sym, List, [], ◌∷◌, ◌++◌, All, update, update_self, update_ne,
}

-- The list `xs` starts at `p` and ends at NULL.
abbrev pub Chain : (ℕ → ℕ) → ℕ → List ℕ → Type 0
Chain next p [] = p ≡ 0
Chain next p (x ∷ xs) = (p ≡ x) × (x ≢ 0) × Chain next (next x) xs

abbrev pub NotIn : ℕ → List ℕ → Type 0
NotIn x = All (λ y. x ≢ y)

abbrev pub Distinct : List ℕ → Type 0
Distinct [] = Unit {0}
Distinct (x ∷ xs) = NotIn x xs × Distinct xs

-- The last entry, or NULL.
abbrev pub last : List ℕ → ℕ
last [] = 0
last (x ∷ []) = x
last (x ∷ y ∷ xs) = last (y ∷ xs)

-- A chain depends on the links of its own entries.
pub Chain-frame :
    (next next' : ℕ → ℕ) (p : ℕ) (xs : List ℕ)
    → All (λ y. next' y ≡ next y) xs
    → Chain next p xs
    → Chain next' p xs
Chain-frame next next' p [] same c = c
Chain-frame next next' p (x ∷ xs) same c =
    (c.0, c.1, Chain-frame next next' (next' x) xs same.1 (rw same.0 c.2))

pub All-update :
    (next : ℕ → ℕ) (q v : ℕ) (xs : List ℕ) → NotIn q xs → All (λ y. update next q v y ≡ next y) xs
All-update next q v [] out = tt
All-update next q v (x ∷ xs) out = (update_ne next q x v out.0, All-update next q v xs out.1)

pub last-ne : (q x : ℕ) (xs : List ℕ) → NotIn q (x ∷ xs) → q ≢ last (x ∷ xs)
last-ne q x [] out = out.0
last-ne q x (y ∷ xs) out = last-ne q y xs out.1

pub last-pos : (next : ℕ → ℕ) (p x : ℕ) (xs : List ℕ) → Chain next p (x ∷ xs) → last (x ∷ xs) ≢ 0
last-pos next p x [] c = c.1
last-pos next p x (y ∷ xs) c = last-pos next (next x) y xs c.2

-- Redirecting the last link of a chain appends another one.
pub Chain-append :
    (next : ℕ → ℕ) (p h x : ℕ) (xs ys : List ℕ)
    → Chain next p (x ∷ xs)
    → Distinct (x ∷ xs)
    → Chain (update next (last (x ∷ xs)) h) h ys
    → Chain (update next (last (x ∷ xs)) h) p ((x ∷ xs) ++ ys)
Chain-append next p h x [] ys c d tail = (c.0, c.1, rw (update_self next x h) tail)
Chain-append next p h x (y ∷ xs) ys c d tail = (
  c.0,
  c.1,
  rw (update_ne next (last (y ∷ xs)) x h (λ e. last-ne x y xs d.0 (sym e)))
      (Chain-append next (next x) h y xs ys c.2 d.1 tail),
)

pub last-append : (x y : ℕ) (xs ys : List ℕ) → last ((x ∷ xs) ++ (y ∷ ys)) ≡ last (y ∷ ys)
last-append x y [] ys = refl
last-append x y (z ∷ xs) ys = last-append z y xs ys

pub NotIn-append : (q : ℕ) (xs ys : List ℕ) → NotIn q xs → NotIn q ys → NotIn q (xs ++ ys)
NotIn-append q [] ys a b = b
NotIn-append q (x ∷ xs) ys a b = (a.0, NotIn-append q xs ys a.1 b)

-- No entry of `xs` is one of `ys`.
abbrev pub Apart : List ℕ → List ℕ → Type 0
Apart xs ys = All (λ x. NotIn x ys) xs

pub Distinct-append :
    (xs ys : List ℕ) → Distinct xs → Distinct ys → Apart xs ys → Distinct (xs ++ ys)
Distinct-append [] ys a b apart = b
Distinct-append (x ∷ xs) ys a b apart =
    (NotIn-append x xs ys a.0 apart.0, Distinct-append xs ys a.1 b apart.1)

pub NotIn-last : (q x : ℕ) (xs ys : List ℕ) → Apart (x ∷ xs) ys → NotIn (last (x ∷ xs)) ys
NotIn-last q x [] ys apart = apart.0
NotIn-last q x (y ∷ xs) ys apart = NotIn-last q y xs ys apart.1

pub Chain-nonzero : (next : ℕ → ℕ) (p : ℕ) (xs : List ℕ) → Chain next p xs → NotIn 0 xs
Chain-nonzero next p [] c = tt
Chain-nonzero next p (x ∷ xs) c = (λ e. c.1 (sym e), Chain-nonzero next (next x) xs c.2)

-- What holds of every number but `s` and `t` holds of the entries of a list without them.
pub All-others {ℓ} :
    (P : ℕ → Type ℓ) (s t : ℕ) (xs : List ℕ)
    → ((y : ℕ) → s ≢ y → t ≢ y → P y)
    → NotIn s xs
    → NotIn t xs
    → All P xs
All-others P s t [] h a b = tt
All-others P s t (x ∷ xs) h a b = (h x a.0 b.0, All-others P s t xs h a.1 b.1)

-- The last entry of one list, or NULL, is no entry of a list apart from it.
pub last-NotIn : (xs ys : List ℕ) → Apart xs ys → NotIn 0 ys → NotIn (last xs) ys
last-NotIn [] ys apart pos = pos
last-NotIn (x ∷ xs) ys apart pos = NotIn-last x x xs ys apart

pub Apart-append : (xs ys zs : List ℕ) → Apart xs zs → Apart ys zs → Apart (xs ++ ys) zs
Apart-append [] ys zs a b = b
Apart-append (x ∷ xs) ys zs a b = (a.0, Apart-append xs ys zs a.1 b)

pub Apart-append_right : (xs ys zs : List ℕ) → Apart xs ys → Apart xs zs → Apart xs (ys ++ zs)
Apart-append_right [] ys zs a b = tt
Apart-append_right (x ∷ xs) ys zs a b =
    (NotIn-append x ys zs a.0 b.0, Apart-append_right xs ys zs a.1 b.1)

-- A task that is in no queue may stand alone.
pub Apart-singleton : (t : ℕ) (xs : List ℕ) → NotIn t xs → Apart xs (t ∷ [])
Apart-singleton t [] out = tt
Apart-singleton t (x ∷ xs) out = ((λ e. out.0 (sym e), tt), Apart-singleton t xs out.1)

pub last-snoc : (t : ℕ) (xs : List ℕ) → last (xs ++ t ∷ []) ≡ t
last-snoc t [] = refl
last-snoc t (x ∷ xs) = last-append x t xs []
