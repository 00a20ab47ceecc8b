-- ===== src/Base/Bytes.antt =====
-- The bits of a byte: `|= 1 << k`, `&= ~(1 << k)` and the test `& (1 << k)`. The facts about all
-- bytes are found by evaluation.
use Prim.Native.Nat.{ℕ, zero, suc, ◌-◌, ◌/◌, ◌%◌, ◌^◌, ◌<◌, bit_and, bit_or}
use mathlib.Core.Path.{◌≡◌, refl}
use mathlib.Core.Logic.{◌≢◌}
use mathlib.Core.Bool.{Bool, true, false, ◌&&◌, ◌||◌, not}
use native.Mathlib.Omega.{arith}
use package.kernel_smp.Base.Tests.{ltb, ◌==◌, ltb→lt, if◌then◌else◌}

-- A test holds at the numbers up to a bound, by evaluation.
unfoldable pub every_below : ℕ → (ℕ → Bool) → Bool
every_below zero test = true
every_below (suc bound) test = if test bound then every_below bound test else false

pub every_below-at :
    (bound : ℕ) (test : ℕ → Bool) (x : ℕ)
    → x < bound
    → every_below bound test ≡ true
    → test x ≡ true
unfolding every_below
every_below-at zero test x none_left h = absurd (omega (arith, none_left))
every_below-at (suc bound) test x lt h =
    let earlier = every_below-at bound test x in ground (arith, earlier)

-- `(b & (1 << k)) != 0`
unfoldable pub bit_on : ℕ → ℕ → Bool
bit_on b k = not (bit_and b (2 ^ k) == 0)

-- `b | (1 << k)`
unfoldable pub set_bit : ℕ → ℕ → ℕ
set_bit b k = bit_or b (2 ^ k)

-- `b & ~(1 << k)`, the complement taken in a byte
unfoldable pub clear_bit : ℕ → ℕ → ℕ
clear_bit b k = bit_and b (255 - 2 ^ k)

-- `__builtin_ctz`, the number of trailing zeros of a positive number below `2 ^ n`
unfoldable pub ctz : ℕ → ℕ → ℕ
ctz zero x = 0
ctz (suc n) x = if x % 2 == 1 then 0 else suc (ctz n (x / 2))

abbrev same : Bool → Bool → Bool
same true b = b
same false b = not b

same→eq : (a b : Bool) → same a b ≡ true → a ≡ b
same→eq a b h = ground arith

-- A property of a byte and two bit numbers, for each of their values.
abbrev for_bits : (ℕ → ℕ → ℕ → Bool) → Bool
for_bits p = every_below 256 (λ b. every_below 8 (λ k. every_below 8 (λ j. p b k j)))

for_bits_sound :
    (p : ℕ → ℕ → ℕ → Bool) (b k j : ℕ)
    → for_bits p ≡ true
    → b < 256
    → k < 8
    → j < 8
    → p b k j ≡ true
for_bits_sound p b k j h hb hk hj =
    every_below-at 8 (λ j. p b k j) j hj
      (every_below-at 8 (λ k. every_below 8 (λ j. p b k j)) k hk
        (every_below-at 256 (λ b. every_below 8 (λ k. every_below 8 (λ j. p b k j))) b hb h))

abbrev set_row : ℕ → ℕ → ℕ → Bool
set_row b k j = same (bit_on (set_bit b k) j) (k == j || bit_on b j) && ltb (set_bit b k) 256

abbrev clear_row : ℕ → ℕ → ℕ → Bool
clear_row b k j =
    same (bit_on (clear_bit b k) j) (not (k == j) && bit_on b j) && ltb (clear_bit b k) 256

set_table : for_bits set_row ≡ true
unfolding every_below bit_on set_bit
set_table = refl

clear_table : for_bits clear_row ≡ true
unfolding every_below bit_on clear_bit
clear_table = refl

&&-eq-true : (a b : Bool) → (a && b) ≡ true → (a ≡ true) × (b ≡ true)
&&-eq-true a b h = ground arith

pub bit_on-set_bit :
    (b k j : ℕ) → b < 256 → k < 8 → j < 8 → bit_on (set_bit b k) j ≡ (k == j || bit_on b j)
bit_on-set_bit b k j hb hk hj =
    same→eq _ _ (&&-eq-true _ _ (for_bits_sound set_row b k j set_table hb hk hj)).0

pub set_bit-lt : (b k : ℕ) → b < 256 → k < 8 → set_bit b k < 256
set_bit-lt b k hb hk =
    ltb→lt _ _ (&&-eq-true _ _ (for_bits_sound set_row b k 0 set_table hb hk (omega arith))).1

pub bit_on-clear_bit :
    (b k j : ℕ) → b < 256 → k < 8 → j < 8 → bit_on (clear_bit b k) j ≡ (not (k == j) && bit_on b j)
bit_on-clear_bit b k j hb hk hj =
    same→eq _ _ (&&-eq-true _ _ (for_bits_sound clear_row b k j clear_table hb hk hj)).0

pub clear_bit-lt : (b k : ℕ) → b < 256 → k < 8 → clear_bit b k < 256
clear_bit-lt b k hb hk =
    ltb→lt _ _ (&&-eq-true _ _ (for_bits_sound clear_row b k 0 clear_table hb hk (omega arith))).1

-- The lowest clear bit of a byte that is not full.
abbrev first_free : ℕ → Bool
first_free b = b == 255 || (not (bit_on b (ctz 8 (255 - b))) && ltb (ctz 8 (255 - b)) 8)

first_free_table : every_below 256 first_free ≡ true
unfolding every_below bit_on ctz
first_free_table = refl

free_row :
    (b : ℕ) → b < 256 → b ≢ 255 → not (bit_on b (ctz 8 (255 - b))) && ltb (ctz 8 (255 - b)) 8 ≡ true
free_row b hb ne = ground (arith, every_below-at 256 first_free b hb first_free_table)

pub ctz-clear : (b : ℕ) → b < 256 → b ≢ 255 → bit_on b (ctz 8 (255 - b)) ≡ false
ctz-clear b hb ne = ground (arith, free_row b)

pub ctz-lt : (b : ℕ) → b < 256 → b ≢ 255 → ctz 8 (255 - b) < 8
ctz-lt b hb ne = ground (arith, free_row b)

-- All bits of a full byte are set.
full_table : every_below 8 (bit_on 255) ≡ true
unfolding every_below bit_on
full_table = refl

pub bit_on_full : (k : ℕ) → k < 8 → bit_on 255 k ≡ true
bit_on_full k h = every_below-at 8 (bit_on 255) k h full_table
