-- ===== src/Io/Digits.antt =====
-- The numbers that `ksprint_int` prints, read back.
use kernel_smp.Base.{
  ℕ, zero, suc, ◌+◌, ◌-◌, ◌*◌, ◌/◌, ◌%◌, ◌^◌, ◌≤◌, ◌<◌, ◌≡◌, ◌⊎◌, inl, inr, refl, ◌∙◌, ap, List, [],
  ◌∷◌, ◌++◌, length, length-append, Bool-cases, ==→eq, leb→le, some, ltb, leb, ◌==◌, if◌then◌else◌,
  arith, All, false,
}
use native.Mathlib.Nat.{
  div-add-mod', mod-lt, div-lt_iff_lt-mul, pow-suc, pow-zero, mul-le-mul_right,
}
use mathlib.Core.Option.{some-injective, none-ne-some}
use kernel_smp.Io.{digit, digits_of, rev_append, replicate, tmp_size, ksprint_int}

-- The value of a digit.
abbrev pub digit_value : ℕ → ℕ
digit_value c = if ltb c b'a' then c - b'0' else c - b'a' + 10

-- A text read as a number from its first character on.
abbrev pub read_number : ℕ → ℕ → List ℕ → ℕ
read_number base acc [] = acc
read_number base acc (c ∷ cs) = read_number base (acc * base + digit_value c) cs

-- The same from the last character on.
abbrev read_low : ℕ → List ℕ → ℕ
read_low base [] = 0
read_low base (c ∷ cs) = read_low base cs * base + digit_value c

value-digit : (d : ℕ) → d < 16 → digit_value (digit d) ≡ d
value-digit d h = ground arith

read-rev :
    (base : ℕ) (xs ys : List ℕ)
    → read_number base 0 (rev_append xs ys) ≡ read_number base (read_low base xs) ys
read-rev base [] ys = refl
read-rev base (x ∷ xs) ys = read-rev base xs (x ∷ ys)

half : (v b m : ℕ) → 2 ≤ b → v < m * 2 → v / b < m
half v b m h k = (div-lt_iff_lt-mul {k = b} {x = v} {y = m} (omega arith)).1 (grind arith)

digit_bound : (v b : ℕ) → 2 ≤ b → b ≤ 16 → v % b < 16
digit_bound v b low high = omega (arith, mod-lt v {m = b} (omega arith))

read-digits : (n v b : ℕ) → 2 ≤ b → b ≤ 16 → v < 2 ^ n → read_low b (digits_of n v b) ≡ v
unfolding digits_of
read-digits zero v b low high h = omega arith
read-digits (suc n) v b low high h = elim (Bool-cases (v / b == 0)) [
  | inl z ↦ rw z (
      omega (
        arith,
        value-digit (v % b) (digit_bound v b low high),
        ==→eq (v / b) 0 z,
        ap (λ (q : ℕ). q * b) (==→eq (v / b) 0 z),
        div-add-mod' v b,
      ))
  | inr z ↦
      let rest : read_low b (digits_of n (v / b) b) ≡ v / b =
        read-digits n (v / b) b low high (half v b (2 ^ n) low (rw (pow-suc 2 n) at h)) in
      rw z (
        omega (
          arith,
          value-digit (v % b) (digit_bound v b low high),
          ap (λ (q : ℕ). q * b) rest,
          div-add-mod' v b,
        ))
]

length-digits : (n v b : ℕ) → length (digits_of n v b) ≤ n
unfolding digits_of
length-digits zero v b = omega arith
length-digits (suc n) v b = let rest = length-digits n (v / b) b in ground arith

length-replicate : (k x : ℕ) → length (replicate k x) ≡ k
length-replicate zero x = refl
length-replicate (suc k) x = ap suc (length-replicate k x)

length-rev : (xs ys : List ℕ) → length (rev_append xs ys) ≡ length xs + length ys
length-rev [] ys = omega arith
length-rev (x ∷ xs) ys = omega (arith, length-rev xs (x ∷ ys))

-- The characters of the digits of a base.
abbrev pub IsDigit : ℕ → ℕ → Type 0
IsDigit base c = (d : ℕ) × (d < base) × (c ≡ (if ltb d 10 then b'0' + d else b'a' + (d - 10)))

All-digits : (n v b : ℕ) → 0 < b → All (IsDigit b) (digits_of n v b)
unfolding digits_of
All-digits zero v b pos = tt
All-digits (suc n) v b pos =
    let here : IsDigit b (digit (v % b)) = (v % b, mod-lt v {m = b} pos, refl) in
    elim (Bool-cases (v / b == 0)) [
      | inl z ↦ rw z (here, tt)
      | inr z ↦ rw z (here, All-digits n (v / b) b pos)
    ]

All-rev : (P : ℕ → Type 0) (xs ys : List ℕ) → All P xs → All P ys → All P (rev_append xs ys)
All-rev P [] ys hx hy = hy
All-rev P (x ∷ xs) ys (a, hx) hy = All-rev P xs (x ∷ ys) hx (a, hy)

-- The digits of `v` are `suc k` many, and a shorter text could not hold `v`.
abbrev pub HasLength : ℕ → ℕ → List ℕ → Type 0
HasLength base v ds = (k : ℕ) × (length ds ≡ suc k) × ((k ≡ 0) ⊎ (base ^ k ≤ v))

HasLength-digits : (n v b : ℕ) → 2 ≤ b → HasLength b v (digits_of (suc n) v b)
unfolding digits_of
HasLength-digits zero v b low = elim (Bool-cases (v / b == 0)) [
  | inl z ↦ rw z (0, refl, inl refl)
  | inr z ↦ rw z (0, refl, inl refl)
]
HasLength-digits (suc n) v b low = elim (Bool-cases (v / b == 0)) [
  | inl z ↦ rw z (0, refl, inl refl)
  | inr z ↦
      let (k, long, least) = HasLength-digits n (v / b) b low in
      rw z (suc k, ap suc long, inr (more k least (below z)))
]
  where
    below : (v / b == 0) ≡ false → 1 ≤ v / b
    below z = ground arith

    more : (k : ℕ) → (k ≡ 0) ⊎ (b ^ k ≤ v / b) → 1 ≤ v / b → b ^ suc k ≤ v
    more k least pos =
        let below_v : b ^ k ≤ v / b = elim least [ inl z ↦ rw (z, pow-zero b) pos | inr le ↦ le ] in
        rw (pow-suc b k) (omega (arith, mul-le-mul_right b below_v, div-add-mod' v b))

replicate-snoc :
    (k pad : ℕ) (ys : List ℕ) → replicate k pad ++ pad ∷ ys ≡ pad ∷ (replicate k pad ++ ys)
replicate-snoc zero pad ys = refl
replicate-snoc (suc k) pad ys = ap (λ l. pad ∷ l) (replicate-snoc k pad ys)

rev-replicate : (k pad : ℕ) (ys : List ℕ) → rev_append (replicate k pad) ys ≡ replicate k pad ++ ys
rev-replicate zero pad ys = refl
rev-replicate (suc k) pad ys = rev-replicate k pad (pad ∷ ys) ∙ replicate-snoc k pad ys

rev-pads :
    (ds : List ℕ) (k pad : ℕ) (ys : List ℕ)
    → rev_append (ds ++ replicate k pad) ys ≡ replicate k pad ++ rev_append ds ys
rev-pads [] k pad ys = rev-replicate k pad ys
rev-pads (d ∷ ds) k pad ys = rev-pads ds k pad (d ∷ ys)

-- A number of 64 bits, in a base of 2 to 16, with a width of at most 65: what is printed is the digits
-- of the number behind as many pad characters as the width asks for beyond them. The digits are
-- digits of the base, read back they are the number, none of them could be left out, and there are
-- at most 65.
pub ksprint_int_lem :
    (value base width pad : ℕ)
    → value < 2 ^ 64
    → 2 ≤ base
    → base ≤ 16
    → width ≤ tmp_size
    → (ds : List ℕ) × (ksprint_int value base width pad
        ≡ some (replicate (width - length ds) pad ++ ds))
      × All (IsDigit base) ds
      × (read_number base 0 ds ≡ value)
      × HasLength base value ds
      × (length ds ≤ 65)
unfolding ksprint_int
ksprint_int_lem value base width pad small low high wide =
    let ds = digits_of tmp_size value base in
    let size : length (rev_append ds []) ≡ length ds = omega (arith, length-rev ds []) in
    let shape : rev_append (ds ++ replicate (width - length ds) pad) []
        ≡ replicate (width - length (rev_append ds [])) pad ++ rev_append ds [] =
      rw size (rev-pads ds (width - length ds) pad []) in
    let (k, long, least) = HasLength-digits 64 value base low in
    (
      rev_append ds [],
      rw shape (ground arith),
      All-rev (IsDigit base) ds [] (All-digits tmp_size value base (omega arith)) tt,
      read-rev base ds [] ∙ read-digits tmp_size value base low high (omega arith),
      (k, size ∙ long, least),
      rw size (length-digits tmp_size value base),
    )

-- Whatever is printed fits in `tmp`.
pub length-ksprint_int :
    (value base width pad : ℕ) (cs : List ℕ)
    → ksprint_int value base width pad ≡ some cs
    → length cs ≤ tmp_size
unfolding ksprint_int
length-ksprint_int value base width pad cs e = elim (Bool-cases (leb width tmp_size)) [
  | inr wide ↦ absurd (none-ne-some cs (rw wide at e))
  | inl fits ↦
      let ds = digits_of tmp_size value base in
      let pads = replicate (width - length ds) pad in
      let same : rev_append (ds ++ pads) [] ≡ cs = some-injective _ _ (rw fits at e) in
      rw (← same) (
        omega (
          arith,
          length-rev (ds ++ pads) [],
          length-append ds pads,
          length-replicate (width - length ds) pad,
          length-digits tmp_size value base,
          leb→le width tmp_size fits,
        ))
]
