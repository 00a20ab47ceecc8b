-- ===== src/Strings/Laws.antt =====
-- What the functions of common/std_funcs.c promise.
use kernel_smp.Base.{
  ℕ, zero, suc, ◌+◌, ◌<◌, ◌≡◌, ◌≢◌, ◌↔◌, inl, inr, refl, arith, not, ◌&&◌, List, [], ◌∷◌, length,
  some, ◌==◌, if◌then◌else◌, Bool-cases,
}
use kernel_smp.Strings.{Memory, Diff, minus, plus, memcmp, strcmp, byte_diff}

-- A string lies at `p`: its characters, none of which is NUL, and then NUL.
unfoldable pub IsString : Memory → ℕ → List ℕ → Type 0
IsString mem p [] = mem p ≡ 0
IsString mem p (c ∷ s) = (c ≢ 0) × (mem p ≡ c) × IsString mem (suc p) s

-- The order of `strcmp` on strings: the sign of the first difference.
compare_strings : List ℕ → List ℕ → Diff
compare_strings [] [] = plus 0
compare_strings [] (d ∷ t) = minus d
compare_strings (c ∷ s) [] = plus c
compare_strings (c ∷ s) (d ∷ t) =
    let rest = compare_strings s t in if c == d then rest else byte_diff c d

-- With fuel for the characters of the first string and its NUL, `strcmp` is the comparison of the
-- two strings.
strcmp_lem :
    (mem : Memory) (fuel : ℕ) (s t : List ℕ) (p q : ℕ)
    → IsString mem p s
    → IsString mem q t
    → length s < fuel
    → strcmp fuel mem p q ≡ some (compare_strings s t)
unfolding strcmp IsString compare_strings
strcmp_lem mem zero s t p q hp hq lt = absurd (omega arith)
strcmp_lem mem (suc fuel) [] [] p q hp hq lt = ground arith
strcmp_lem mem (suc fuel) [] (d ∷ t) p q hp hq lt = ground arith
strcmp_lem mem (suc fuel) (c ∷ s) [] p q (nz, e, hp) hq lt = ground arith
strcmp_lem mem (suc fuel) (c ∷ s) (d ∷ t) p q (nz, e, hp) (nz', e', hq) lt =
    let rest = strcmp_lem mem fuel s t (suc p) (suc q) hp hq (omega arith) in ground arith

-- `strcmp` ends when its second argument is a string, whatever lies at the first.
pub strcmp_ends :
    (mem : Memory) (fuel : ℕ) (t : List ℕ) (p q : ℕ)
    → IsString mem q t
    → length t < fuel
    → (d : Diff) × (strcmp fuel mem p q ≡ some d)
unfolding strcmp IsString
strcmp_ends mem zero t p q hq lt = absurd (omega arith)
strcmp_ends mem (suc fuel) [] p q hq lt = (byte_diff (mem p) (mem q), ground arith)
strcmp_ends mem (suc fuel) (c ∷ t) p q (nz, e, hq) lt =
    let (d, rest) = strcmp_ends mem fuel t (suc p) (suc q) hq (omega arith) in
    elim (Bool-cases (not (mem p == 0) && mem p == mem q)) [
      | inl same ↦ (d, ground arith)
      | inr other ↦ (byte_diff (mem p) (mem q), ground arith)
    ]

add_zero : (p : ℕ) → p + 0 ≡ p
add_zero p = omega arith

shift : (p i : ℕ) → suc p + i ≡ p + suc i
shift p i = omega arith

memcmp_same :
    (mem : Memory) (n p q : ℕ)
    → ((i : ℕ) → i < n → mem (p + i) ≡ mem (q + i))
    → memcmp mem p q n ≡ plus 0
unfolding memcmp
memcmp_same mem zero p q h = refl
memcmp_same mem (suc n) p q h =
    let rest =
      memcmp_same mem n (suc p) (suc q)
        (λ i lt. rw (shift p i, shift q i) (h (suc i) (omega arith))) in
    let first : mem p ≡ mem q = rw (← add_zero p, ← add_zero q) (h 0 (omega arith)) in ground arith

memcmp_agrees :
    (mem : Memory) (n p q i : ℕ) → memcmp mem p q n ≡ plus 0 → i < n → mem (p + i) ≡ mem (q + i)
unfolding memcmp
memcmp_agrees mem zero p q i e lt = absurd (omega arith)
memcmp_agrees mem (suc n) p q zero e lt = ground arith
memcmp_agrees mem (suc n) p q (suc i) e lt =
    rw (← shift p i, ← shift q i)
      (memcmp_agrees mem n (suc p) (suc q) i (ground arith) (omega arith))

-- `memcmp` gives 0 on blocks that agree, and only on these.
pub memcmp_lem :
    (mem : Memory) (n p q : ℕ)
    → (memcmp mem p q n ≡ plus 0) ↔ ((i : ℕ) → i < n → mem (p + i) ≡ mem (q + i))
memcmp_lem mem n p q = (λ e i lt. memcmp_agrees mem n p q i e lt, memcmp_same mem n p q)
