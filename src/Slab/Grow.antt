-- ===== src/Slab/Grow.antt =====
-- `slab_grow` of kernel/memory/slab.c: the objects of a new page.
use kernel_smp.Base.{
  ℕ, zero, suc, ◌+◌, ◌*◌, ◌%◌, ◌≤◌, ◌<◌, ◌^◌, ◌⊎◌, inl, inr, ◌≡◌, ◌≢◌, refl, sym, subst, ◌∙◌, List,
  [], ◌∷◌, All, length, arith, update, update_ne, update_self, u64, page_align_down, dec_lt,
}
use kernel_smp.RunQueue.Chain.{NotIn, Distinct, Chain}
use kernel_smp.Slab.{carve_objects}

-- `n` objects of `size` bytes in a row.
abbrev pub grid : ℕ → ℕ → ℕ → List ℕ
grid start size zero = []
grid start size (suc n) = start ∷ grid (start + size) size n

pub length-grid : (start size n : ℕ) → length (grid start size n) ≡ n
length-grid start size zero = refl
length-grid start size (suc n) = omega (arith, length-grid (start + size) size n)

grid_above : (q start size n : ℕ) → 0 < size → q < start → NotIn q (grid start size n)
grid_above q start size zero pos lt = tt
grid_above q start size (suc n) pos lt =
    (λ e. omega (arith, e), grid_above q (start + size) size n pos (omega arith))

pub grid-Distinct : (start size n : ℕ) → 0 < size → Distinct (grid start size n)
grid-Distinct start size zero pos = tt
grid-Distinct start size (suc n) pos = (
  grid_above start (start + size) size n pos (omega arith),
  grid-Distinct (start + size) size n pos,
)

-- Every object ends by `limit`.
grid-within :
    (lo start size n limit : ℕ)
    → lo ≤ start
    → start + n * size ≤ limit
    → All (λ o. (lo ≤ o) × (o + size ≤ limit)) (grid start size n)
grid-within lo start size zero limit ge le = tt
grid-within lo start size (suc n) limit ge le =
    ((ge, grind arith), grid-within lo (start + size) size n limit (omega arith) (grind arith))

-- The loop writes nowhere else.
carve_outside :
    (more size curr q : ℕ) (object : ℕ → ℕ)
    → 0 < size
    → curr + suc more * size < 2 ^ 64
    → (q < curr) ⊎ (curr + suc more * size ≤ q)
    → carve_objects more size curr object q ≡ object q
unfolding carve_objects
carve_outside zero size curr q object pos room out =
    update_ne object curr q 0 (λ e. ground (arith, out))
carve_outside (suc more) size curr q object pos room out =
    let step : curr + size + suc more * size ≡ curr + suc (suc more) * size = grind arith in
    let next : u64 (curr + size) ≡ curr + size = omega (arith, step) in
    let later : (q < curr + size) ⊎ (curr + size + suc more * size ≤ q) = elim out [
      | inl lt ↦ inl (omega arith)
      | inr le ↦ inr (omega (arith, step))
    ] in
    let ne : curr ≢ q =
      λ e. elim out [ inl lt ↦ omega (arith, e, lt) | inr le ↦ omega (arith, step, e, le) ] in
    rw next (
      carve_outside more size (curr + size) q (update object curr (curr + size)) pos
        (omega (arith, step)) later
      ∙ update_ne object curr q (curr + size) ne)

carve-step :
    (more size curr : ℕ) (object : ℕ → ℕ)
    → u64 (curr + size) ≡ curr + size
    → carve_objects (suc more) size curr object
      ≡ carve_objects more size (curr + size) (update object curr (curr + size))
unfolding carve_objects
carve-step more size curr object next = rw next

-- From the first object each leads to the next one, and the last to NULL.
carve_objects-Chain :
    (more size curr : ℕ) (object : ℕ → ℕ)
    → 0 < size
    → curr ≢ 0
    → curr + suc more * size < 2 ^ 64
    → Chain (carve_objects more size curr object) curr (grid curr size (suc more))
carve_objects-Chain zero size curr object pos nz room =
    (refl, nz, unfold carve_objects in update_self object curr 0)
carve_objects-Chain (suc more) size curr object pos nz room =
    let step : curr + size + suc more * size ≡ curr + suc (suc more) * size = grind arith in
    let next : u64 (curr + size) ≡ curr + size = omega (arith, step) in
    let object' : ℕ → ℕ = update object curr (curr + size) in
    let kept : carve_objects more size (curr + size) object' curr ≡ curr + size =
      carve_outside more size (curr + size) curr object' pos (omega (arith, step))
        (inl (omega arith))
      ∙ update_self object curr (curr + size) in
    let rest =
      carve_objects-Chain more size (curr + size) object' pos (λ e. omega (arith, e))
        (omega (arith, step)) in
    subst (λ g. Chain g curr (grid curr size (suc (suc more))))
      (sym (carve-step more size curr object next)) (refl, nz, rw kept rest)

module _ (virt size more : ℕ) (pos : 0 < size) (aligned : virt % 4096 ≡ 0) (nz : 0 < virt)
    (low : virt + 4096 < 2 ^ 64) (fits : suc more * size ≤ 4032) where
  abbrev pub start : ℕ
  start = virt + 64

  abbrev pub objs : List ℕ
  objs = grid start size (suc more)

  -- Every object lies in the page, behind the page's header.
  pub objs-within : All (λ o. (start ≤ o) × (o + size ≤ virt + 4096)) objs
  objs-within =
      grid-within start start size (suc more) (virt + 4096) (omega arith) (omega (arith, fits))

  pub objs-page :
      (os : List ℕ)
      → All (λ o. (start ≤ o) × (o + size ≤ virt + 4096)) os
      → All (λ o. page_align_down o ≡ virt) os
  objs-page [] h = tt
  objs-page (o ∷ os) ((lo, hi), h) = (omega (arith, lo, hi, aligned), objs-page os h)

  -- An object of another page is not written.
  pub kept_elsewhere :
      (object : ℕ → ℕ) (other : ℕ) (os : List ℕ)
      → virt ≢ other
      → All (λ o. page_align_down o ≡ other) os
      → All (λ o. carve_objects more size start object o ≡ object o) os
  kept_elsewhere object other [] ne h = tt
  kept_elsewhere object other (o ∷ os) ne (here, h) =
      let out : (o < start) ⊎ (start + suc more * size ≤ o) = elim (dec_lt o start) [
        | yes lt ↦ inl lt
        | no ge ↦ inr (elim (dec_lt o (virt + 4096)) [
          | yes lt ↦ absurd (ne (omega (arith, here, aligned, lt, ge)))
          | no past ↦ omega (arith, fits, past)
        ])
      ] in
      (
        carve_outside more size start o object pos (omega (arith, fits)) out,
        kept_elsewhere object other os ne h,
      )

  pub objs-Chain : (object : ℕ → ℕ) → Chain (carve_objects more size start object) start objs
  objs-Chain object =
      carve_objects-Chain more size start object pos (λ e. omega (arith, e)) (omega (arith, fits))
