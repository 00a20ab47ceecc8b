-- ===== src/Acpi/Find.antt =====
-- Which table `acpi_find_table` finds.
use kernel_smp.Base.{
  ℕ, zero, suc, ◌+◌, ◌≤◌, ◌<◌, ◌≡◌, ◌⊎◌, inl, inr, refl, List, Bool, true, false, Bool-cases, ◌&&◌,
  not, leb, ◌==◌, ℕ_discrete, if◌then◌else◌, arith, phys_to_virt,
}
use kernel_smp.Acpi.{Rsdp, has_signature, table_at, search_table, entries_of, acpi_find_table}

-- What `table` is among the entries `i … i + n` of the root table: the first one with the
-- signature, or NULL if there is none.
abbrev pub IsFirst : (ℕ → ℕ) → ℕ → ℕ → List ℕ → ℕ → ℕ → ℕ → Type 0
IsFirst mem root width signature n i table =
    ((table ≡ 0)
      × ((j : ℕ)
          → i ≤ j
          → j < i + n
          → has_signature mem (table_at mem root width j) signature ≡ false))
    ⊎ ((k : ℕ) × (i ≤ k)
        × (k < i + n)
        × (table ≡ table_at mem root width k)
        × (has_signature mem table signature ≡ true)
        × ((j : ℕ)
            → i ≤ j
            → j < k
            → has_signature mem (table_at mem root width j) signature ≡ false))

search_table-IsFirst :
    (mem : ℕ → ℕ) (root width : ℕ) (signature : List ℕ) (n i : ℕ)
    → IsFirst mem root width signature n i (search_table mem root width signature n i)
unfolding search_table
search_table-IsFirst mem root width signature zero i = inl (refl, λ j a b. absurd (omega arith))
search_table-IsFirst mem root width signature (suc n) i =
    let here : Bool = has_signature mem (table_at mem root width i) signature in
    elim (Bool-cases here) [
      | inl e ↦ rw e (inr (i, omega arith, omega arith, refl, e, λ j a b. absurd (omega arith)))
      | inr e ↦
          let from : (j : ℕ)
              → i ≤ j
              → (suc i ≤ j → has_signature mem (table_at mem root width j) signature ≡ false)
              → has_signature mem (table_at mem root width j) signature ≡ false =
            λ j a rest. elim (ℕ_discrete i j) [
              | yes same ↦ rw (← same) e
              | no ne ↦ rest (omega (arith, ne))
            ] in
          rw e (elim (search_table-IsFirst mem root width signature n (suc i)) [
            | inl (z, miss) ↦ inl (z, λ j a b. from j a (λ c. miss j c (omega arith)))
            | inr (k, a, b, t, s, miss) ↦
                inr (k, omega arith, omega arith, t, s, λ j c d. from j c (λ f. miss j f d))
          ])
    ]

-- The root table that is searched: the one with wide entries, where the firmware has it.
abbrev pub uses_xsdt : Rsdp → Bool
uses_xsdt r = leb 2 r.revision && not (r.xsdt_address == 0)

abbrev pub root_of : Rsdp → ℕ
root_of r = phys_to_virt (if uses_xsdt r then r.xsdt_address else r.rsdt_address)

abbrev pub width_of : Rsdp → ℕ
width_of r = if uses_xsdt r then 8 else 4

-- The search returns the first entry of the root table whose table has the signature, and NULL
-- where none has it.
pub acpi_find_table_lem :
    (mem : ℕ → ℕ) (rsdp : Rsdp) (signature : List ℕ)
    → IsFirst mem
        (root_of rsdp)
        (width_of rsdp)
        signature
        (entries_of mem (root_of rsdp) (width_of rsdp))
        0
        (acpi_find_table mem rsdp signature)
unfolding acpi_find_table
acpi_find_table_lem mem rsdp signature = elim (Bool-cases (uses_xsdt rsdp)) [
  | inl e ↦ rw e (search_table-IsFirst mem (phys_to_virt rsdp.xsdt_address) 8 signature _ 0)
  | inr e ↦ rw e (search_table-IsFirst mem (phys_to_virt rsdp.rsdt_address) 4 signature _ 0)
]
