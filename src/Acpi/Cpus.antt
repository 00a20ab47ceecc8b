-- ===== src/Acpi/Cpus.antt =====
-- The CPUs that the walk over the MADT starts.
use kernel_smp.Base.{
  ℕ, zero, suc, ◌+◌, ◌≤◌, ◌<◌, ◌≡◌, ◌%◌, ◌==◌, true, false, refl, ap, List, [], ◌∷◌, length,
  Bool-cases, inl, inr, none, some, lt→ltb, if◌then◌else◌, arith,
}
use kernel_smp.Acpi.{Started, is_other_cpu, madt_loop}

module _ (mem : ℕ → ℕ) where
  -- `n` entries from `ptr` on end at `end` or behind it.
  abbrev pub Entries : ℕ → ℕ → ℕ → Type 0
  Entries zero ptr end = end ≤ ptr
  Entries (suc n) ptr end = (ptr < end) × Entries n (ptr + mem (ptr + 1)) end

  -- The addresses of `n` entries.
  abbrev pub addresses : ℕ → ℕ → List ℕ
  addresses zero ptr = []
  addresses (suc n) ptr = ptr ∷ addresses n (ptr + mem (ptr + 1))

  -- The APIC ids at byte 3 of the entries that are local APICs (type 0), are enabled (bit 0 of the
  -- flags, at byte 4), and are not that of the CPU that boots.
  abbrev pub other_cpus : ℕ → List ℕ → List ℕ
  other_cpus bsp [] = []
  other_cpus bsp (p ∷ ps) =
      let rest = other_cpus bsp ps in
      if mem p == 0
      then (if mem (p + 4) % 2 == 1
          then (if mem (p + 3) == bsp then rest else mem (p + 3) ∷ rest)
          else rest)
      else rest

  other_cpus-first :
      (bsp p : ℕ) (ps : List ℕ)
      → is_other_cpu mem bsp p ≡ true
      → other_cpus bsp (p ∷ ps) ≡ mem (p + 3) ∷ other_cpus bsp ps
  unfolding is_other_cpu
  other_cpus-first bsp p ps e = ground arith

  other_cpus-later :
      (bsp p : ℕ) (ps : List ℕ)
      → is_other_cpu mem bsp p ≡ false
      → other_cpus bsp (p ∷ ps) ≡ other_cpus bsp ps
  unfolding is_other_cpu
  other_cpus-later bsp p ps e = ground arith

-- CPUs with numbers from `n` on.
abbrev pub numbered : ℕ → List ℕ → List Started
numbered n [] = []
numbered n (id ∷ ids) = record { lapic_id = id; cpu_id = n } ∷ numbered (n + 1) ids

-- Over `n` entries, with fuel for one more round: each local APIC that is enabled and is not that of
-- the CPU that boots is started once, in the order of the table, with consecutive numbers.
pub madt_loop_lem :
    (fuel : ℕ) (mem : ℕ → ℕ) (bsp n ptr end count : ℕ)
    → Entries mem n ptr end
    → n < fuel
    → let ids = other_cpus mem bsp (addresses mem n ptr) in
      madt_loop fuel mem bsp ptr end count ≡ some (numbered count ids, count + length ids)
unfolding madt_loop
madt_loop_lem zero mem bsp n ptr end count es h = absurd (omega arith)
madt_loop_lem (suc fuel) mem bsp zero ptr end count es h = ground arith
madt_loop_lem (suc fuel) mem bsp (suc n) ptr end count es h =
    let next = ptr + mem (ptr + 1) in
    let ids = other_cpus mem bsp (addresses mem n next) in
    elim (Bool-cases (is_other_cpu mem bsp ptr)) [
      | inl e ↦
          let later = madt_loop_lem fuel mem bsp n next end (count + 1) es.1 (omega arith) in
          rw
            (
              lt→ltb ptr end es.0,
              e,
              later,
              e,
              other_cpus-first mem bsp ptr (addresses mem n next) e,
            )
            (ap (λ c. some (numbered count (mem (ptr + 3) ∷ ids), c)) (omega arith))
      | inr e ↦
          let later = madt_loop_lem fuel mem bsp n next end count es.1 (omega arith) in
          rw
            (
              lt→ltb ptr end es.0,
              e,
              later,
              e,
              other_cpus-later mem bsp ptr (addresses mem n next) e,
            )
            refl
    ]

-- An entry of length 0 is never left.
madt_loop_stuck :
    (fuel : ℕ) (mem : ℕ → ℕ) (bsp ptr end count : ℕ)
    → ptr < end
    → mem (ptr + 1) ≡ 0
    → madt_loop fuel mem bsp ptr end count ≡ none
unfolding madt_loop
madt_loop_stuck zero mem bsp ptr end count h e = refl
madt_loop_stuck (suc fuel) mem bsp ptr end count h e =
    let more = if is_other_cpu mem bsp ptr then count + 1 else count in
    let same : ptr + mem (ptr + 1) ≡ ptr = omega (arith, e) in
    let later : madt_loop fuel mem bsp (ptr + mem (ptr + 1)) end more ≡ none =
      rw same (madt_loop_stuck fuel mem bsp ptr end more h e) in
    rw (lt→ltb ptr end h, later)
