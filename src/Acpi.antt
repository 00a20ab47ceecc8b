-- ===== src/Acpi.antt =====
-- kernel/arch/x86_64/acpi.c, and the tables that kernel/smp/smp.c reads: the search of a table by its
-- signature, and the CPUs of the MADT. A memory is a function from addresses to bytes.
pub mod Find
pub mod Cpus
mod Tests
use kernel_smp.Base.{
  ℕ, zero, suc, ◌+◌, ◌-◌, ◌*◌, ◌/◌, ◌%◌, ◌^◌, Bool, true, false, not, ◌&&◌, List, [], ◌∷◌, Option,
  none, some, ltb, leb, ◌==◌, if◌then◌else◌, u32, u64, sub64, phys_to_virt,
}

-- A word of `n` bytes, the lowest first.
pub word_at : (ℕ → ℕ) → ℕ → ℕ → ℕ
word_at mem p zero = 0
word_at mem p (suc n) = mem p + 256 * word_at mem (u64 (p + 1)) n

-- The fields of `acpi_rsdp_t` that are read.
pub record Rsdp : Type 0 where
  pub revision : ℕ
  pub rsdt_address : ℕ
  pub xsdt_address : ℕ

-- `sizeof(acpi_sdt_header_t)`
abbrev pub header_size : ℕ
header_size = 36

-- `header.length`, behind the signature
abbrev pub length_of : (ℕ → ℕ) → ℕ → ℕ
length_of mem table = word_at mem (u64 (table + 4)) 4

-- `memcmp(table->signature, signature, 4) == 0`
pub has_signature : (ℕ → ℕ) → ℕ → List ℕ → Bool
has_signature mem p [] = true
has_signature mem p (c ∷ cs) = mem p == c && has_signature mem (u64 (p + 1)) cs

-- Entry `i` of a root table at `root`, whose entries have `width` bytes: an address.
pub table_at : (ℕ → ℕ) → ℕ → ℕ → ℕ → ℕ
table_at mem root width i = phys_to_virt (word_at mem (u64 (root + header_size + i * width)) width)

-- The loop over the entries from `i`, with `n` of them left.
pub search_table : (ℕ → ℕ) → ℕ → ℕ → List ℕ → ℕ → ℕ → ℕ
search_table mem root width signature zero i = 0
search_table mem root width signature (suc n) i =
    let table = table_at mem root width i in
    let rest = search_table mem root width signature n (suc i) in
    if has_signature mem table signature then table else rest

-- `(header.length - sizeof(acpi_sdt_header_t)) / width`, as a `uint32_t`
abbrev pub entries_of : (ℕ → ℕ) → ℕ → ℕ → ℕ
entries_of mem root width = u32 (sub64 (length_of mem root) header_size / width)

-- The table, NULL for none.
pub acpi_find_table : (ℕ → ℕ) → Rsdp → List ℕ → ℕ
acpi_find_table mem rsdp signature =
    let use_xsdt = leb 2 rsdp.revision && not (rsdp.xsdt_address == 0) in
    let xsdt = phys_to_virt rsdp.xsdt_address in
    let rsdt = phys_to_virt rsdp.rsdt_address in
    if use_xsdt
    then search_table mem xsdt 8 signature (entries_of mem xsdt 8) 0
    else search_table mem rsdt 4 signature (entries_of mem rsdt 4) 0

-- What the loop of `smp_init` does for an entry of the MADT: `smp_init_cpu lapic_id cpu_id`.
pub record Started : Type 0 where
  pub lapic_id : ℕ
  pub cpu_id : ℕ

-- An entry for a local APIC that is enabled, and is not that of the CPU that boots.
pub is_other_cpu : (ℕ → ℕ) → ℕ → ℕ → Bool
is_other_cpu mem bsp p = mem p == 0 && (mem (p + 4) % 2 == 1 && not (mem (p + 3) == bsp))

-- The loop from `ptr` to `end`, with the number of the next CPU. The fuel bounds the entries that
-- are left; `none` is fuel that is used up, as by an entry of length 0.
pub madt_loop : ℕ → (ℕ → ℕ) → ℕ → ℕ → ℕ → ℕ → Option (List Started × ℕ)
madt_loop zero mem bsp ptr end cpu_count = none
madt_loop (suc n) mem bsp ptr end cpu_count =
    let starts = is_other_cpu mem bsp ptr in
    let cpu : Started = record { lapic_id = mem (ptr + 3); cpu_id = cpu_count } in
    let next = ptr + mem (ptr + 1) in
    let later = madt_loop n mem bsp next end (if starts then cpu_count + 1 else cpu_count) in
    let round : Option (List Started × ℕ) = elim later [
      | none ↦ none
      | some (cpus, count) ↦ some (if starts then cpu ∷ cpus else cpus, count)
    ] in
    if ltb ptr end then round else some ([], cpu_count)

-- `sizeof(acpi_madt_t)`
abbrev pub madt_size : ℕ
madt_size = 44

-- `bsp` is the number of the local APIC of the CPU that boots.
pub smp_init : ℕ → (ℕ → ℕ) → Rsdp → ℕ → ℕ → Option (List Started × ℕ)
smp_init fuel mem rsdp bsp cpu_count =
    let madt = acpi_find_table mem rsdp (b'A' ∷ b'P' ∷ b'I' ∷ b'C' ∷ []) in
    madt_loop fuel mem bsp (madt + madt_size) (madt + length_of mem madt) cpu_count
