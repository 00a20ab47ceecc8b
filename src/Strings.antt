-- ===== src/Strings.antt =====
-- common/std_funcs.c: strings and blocks over a memory of bytes. A pointer is an address; a load
-- or a store is one of `mem`. The loops over a string run on fuel: `none` is fuel that is used up.
pub mod Laws
use kernel_smp.Base.{
  ℕ, zero, suc, ◌+◌, ◌-◌, ◌%◌, Bool, true, false, not, ◌&&◌, Option, none, some, ltb, ◌==◌,
  if◌then◌else◌, update,
}

abbrev pub Memory : Type 0
Memory = ℕ → ℕ

-- An `int` that is -1, 0 or 1, or the difference of two bytes.
pub data Diff : Type 0 where
  minus : ℕ → Diff
  plus : ℕ → Diff

unfoldable pub memcmp : Memory → ℕ → ℕ → ℕ → Diff
memcmp mem p₁ p₂ zero = plus 0
memcmp mem p₁ p₂ (suc n) =
    let rest = memcmp mem (suc p₁) (suc p₂) n in
    if mem p₁ == mem p₂ then rest else if ltb (mem p₁) (mem p₂) then minus 1 else plus 1

pub memset : ℕ → ℕ → ℕ → Memory → Memory
memset ptr ch zero mem = mem
memset ptr ch (suc count) mem = memset (suc ptr) ch count (update mem ptr (ch % 256))

pub memcpy : ℕ → ℕ → ℕ → Memory → Memory
memcpy d s zero mem = mem
memcpy d s (suc n) mem = memcpy (suc d) (suc s) n (update mem d (mem s))

pub strcpy : ℕ → ℕ → ℕ → Memory → Option Memory
strcpy zero d s mem = none
strcpy (suc fuel) d s mem =
    let stored = update mem d (mem s) in
    let rest = strcpy fuel (suc d) (suc s) stored in if mem s == 0 then some stored else rest

abbrev pub byte_diff : ℕ → ℕ → Diff
byte_diff a b = if ltb a b then minus (b - a) else plus (a - b)

unfoldable pub strcmp : ℕ → Memory → ℕ → ℕ → Option Diff
strcmp zero mem s₁ s₂ = none
strcmp (suc fuel) mem s₁ s₂ =
    let rest = strcmp fuel mem (suc s₁) (suc s₂) in
    if not (mem s₁ == 0) && mem s₁ == mem s₂ then rest else some (byte_diff (mem s₁) (mem s₂))

pub strlen : ℕ → Memory → ℕ → Option ℕ
strlen zero mem s = none
strlen (suc fuel) mem s =
    let rest = strlen fuel mem (suc s) in
    if mem s == 0 then some 0 else elim rest [ none ↦ none | some n ↦ some (suc n) ]

-- The second loop of `strncpy` is `memset` with 0.
pub strncpy : ℕ → ℕ → ℕ → Memory → Memory
strncpy d s zero mem = mem
strncpy d s (suc n) mem =
    let padded = memset d 0 (suc n) mem in
    let rest = strncpy (suc d) (suc s) n (update mem d (mem s)) in
    if mem s == 0 then padded else rest
