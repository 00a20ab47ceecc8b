-- ===== src/Syscall/Range.antt =====
-- What the checks of kernel/syscall/syscall_funcs.c let through.
use kernel_smp.Base.{
  ℕ, zero, suc, ◌+◌, ◌^◌, ◌≤◌, ◌<◌, ◌≡◌, ◌≢◌, ◌↔◌, inl, inr, true, some, ◌==◌, u64, arith,
  Bool-cases, Option-cases, ℕ_discrete,
}
use kernel_smp.Syscall.{is_user_range, sys_kprint, length_from, printed}

-- For an address and a size of 64 bits, a range is let through exactly if it does not wrap and ends
-- in the lower half.
is_user_range_lem :
    (addr size : ℕ)
    → addr < 2 ^ 64
    → size < 2 ^ 64
    → (is_user_range addr size ≡ true) ↔ (addr + size < 2 ^ 47)
unfolding is_user_range
is_user_range_lem addr size a b = (λ h. ground arith, λ h. ground arith)

at_once :
    (mem : ℕ → ℕ) (str len n r : ℕ)
    → (mem (u64 (str + len)) == 0) ≡ true
    → len ≡ r
    → (len ≤ r)
      × (r ≤ len + n)
      × (mem (u64 (str + r)) ≡ 0)
      × ((i : ℕ) → len ≤ i → i < r → mem (u64 (str + i)) ≢ 0)
at_once mem str len n r nul e =
    (omega arith, omega arith, ground arith, λ i le lt. absurd (omega arith))

length_from_lem :
    (n : ℕ) (mem : ℕ → ℕ) (str len r : ℕ)
    → length_from n mem str len ≡ some r
    → (len ≤ r)
      × (r ≤ len + n)
      × (mem (u64 (str + r)) ≡ 0)
      × ((i : ℕ) → len ≤ i → i < r → mem (u64 (str + i)) ≢ 0)
unfolding length_from
length_from_lem zero mem str len r e = elim (Bool-cases (mem (u64 (str + len)) == 0)) [
  | inl nul ↦ at_once mem str len 0 r nul (ground arith)
  | inr other ↦ ground arith
]
length_from_lem (suc n) mem str len r e = elim (Bool-cases (mem (u64 (str + len)) == 0)) [
  | inl nul ↦ at_once mem str len (suc n) r nul (ground arith)
  | inr other ↦
      let (a, b, c, d) = length_from_lem n mem str (suc len) r (ground arith) in
      (
        omega arith,
        omega (arith, b),
        c,
        λ i le lt. elim (ℕ_discrete i len) [
          | yes here ↦ rw here (ground arith)
          | no later ↦ d i (omega (arith, le, later)) lt
        ],
      )
]

-- A string that is printed has at most 4096 characters before its first NUL, and all of it, NUL
-- included, lies in the lower half.
pub sys_kprint_lem :
    (mem : ℕ → ℕ) (str : ℕ)
    → str < 2 ^ 64
    → sys_kprint mem str ≡ printed
    → (len : ℕ) × (len ≤ 4096)
      × (str + len < 2 ^ 47)
      × (mem (str + len) ≡ 0)
      × ((i : ℕ) → i < len → mem (str + i) ≢ 0)
unfolding sys_kprint
sys_kprint_lem mem str small e = elim (Option-cases (length_from 4096 mem str 0)) [
  | inl long ↦ ground arith
  | inr (len, found) ↦
      let (_, most, nul, before) = length_from_lem 4096 mem str 0 len found in
      let inside : is_user_range str (len + 1) ≡ true = ground arith in
      let low = (is_user_range_lem str (len + 1) small (omega (arith, most))).0 inside in
      (
        len,
        omega (arith, most),
        omega (arith, low),
        rw (exact len low len (omega arith)) nul,
        λ i lt. rw (exact len low i (omega (arith, lt))) (before i (omega arith) lt),
      )
]
  where
    exact : (len : ℕ) → str + (len + 1) < 2 ^ 47 → (i : ℕ) → i ≤ len → str + i ≡ u64 (str + i)
    exact len low i le = omega arith
