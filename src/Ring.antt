-- ===== src/Ring.antt =====
-- The contents of a circular buffer, as the list of its characters from the oldest on: the view
-- that the buffers of the keyboard and of the log share.
use kernel_smp.Base.{
  ℕ, zero, suc, ◌+◌, ◌-◌, ◌≤◌, ◌<◌, ◌≡◌, ◌≢◌, refl, sym, ◌∙◌, ap, List, [], ◌∷◌, ◌++◌, length, ltb,
  leb, if◌then◌else◌, update, update_ne, arith,
}

module _ (size : ℕ) where
  -- The index `n` places after `i`.
  abbrev pub place : ℕ → ℕ → ℕ
  place i n = if ltb (i + n) size then i + n else i + n - size

  -- `n` characters from index `i` on.
  unfoldable pub window : (ℕ → ℕ) → ℕ → ℕ → List ℕ
  window chars i zero = []
  window chars i (suc n) = chars i ∷ window chars (place i 1) n

  -- How many characters lie between the tail and the head.
  abbrev pub fill : ℕ → ℕ → ℕ
  fill head tail = if leb tail head then head - tail else head + size - tail

  pub length-window : (chars : ℕ → ℕ) (i n : ℕ) → length (window chars i n) ≡ n
  unfolding window
  length-window chars i zero = refl
  length-window chars i (suc n) = ap suc (length-window chars (place i 1) n)

  pub window-snoc :
      (chars : ℕ → ℕ) (i n : ℕ)
      → i < size
      → n < size
      → window chars i (suc n) ≡ window chars i n ++ (chars (place i n) ∷ [])
  unfolding window
  window-snoc chars i zero li ln = ground arith
  window-snoc chars i (suc n) li ln =
      let same : place (place i 1) n ≡ place i (suc n) = ground arith in
      ap (λ w. chars i ∷ w)
        (rw (← same) (window-snoc chars (place i 1) n (ground arith) (omega arith)))

  -- A write outside the window leaves it as it is.
  pub window-update :
      (chars : ℕ → ℕ) (i n m c : ℕ)
      → i < size
      → n ≤ m
      → m < size
      → window (update chars (place i m) c) i n ≡ window chars i n
  unfolding window
  window-update chars i zero m c li nm ms = refl
  window-update chars i (suc n) zero c li nm ms = absurd (omega arith)
  window-update chars i (suc n) (suc m) c li nm ms =
      let same : place (place i 1) m ≡ place i (suc m) = ground arith in
      let ne : place i (suc m) ≢ i = ground arith in
      rw (update_ne chars (place i (suc m)) i c ne) (
        ap (λ w. chars i ∷ w)
          (ap (λ p. window (update chars p c) (place i 1) n) (sym same)
            ∙ window-update chars (place i 1) n m c (ground arith) (omega arith) (omega arith)))
