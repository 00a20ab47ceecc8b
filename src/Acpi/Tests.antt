-- ===== src/Acpi/Tests.antt =====
-- An XSDT at physical address 0x1000 with two tables, the second an MADT with three entries.
use kernel_smp.Base.{
  ℕ, ◌+◌, ◌≡◌, refl, List, [], ◌∷◌, some, ◌==◌, if◌then◌else◌, hhdm_offset, arith, length,
}
use kernel_smp.Acpi.{
  Rsdp, acpi_find_table, entries_of, madt_loop, is_other_cpu, search_table, has_signature, table_at,
  word_at,
}
use kernel_smp.Acpi.Find.{IsFirst, root_of, width_of, acpi_find_table_lem}
use kernel_smp.Acpi.Cpus.{other_cpus, numbered, addresses, madt_loop_lem}

-- Three local APICs of eight bytes from 100 on: 0, which boots, 2, and 5, which is disabled.
abbrev madt : ℕ → ℕ
madt p =
    if p == 101
    then 8
    else if p == 109
    then 8
    else if p == 117
    then 8
    else if p == 104
    then 1
    else if p == 111
    then 2
    else if p == 112
    then 1
    else if p == 119
    then 5
    else 0

one_started : other_cpus madt 0 (addresses madt 3 100) ≡ 2 ∷ []
unfolding is_other_cpu
one_started = refl

madt_loop_lem_example :
    let ids = other_cpus madt 0 (addresses madt 3 100) in
    madt_loop 4 madt 0 100 124 1 ≡ some (numbered 1 ids, 1 + length ids)
madt_loop_lem_example = madt_loop_lem 4 madt 0 3 100 124 1 (omega arith) (omega arith)

abbrev root : ℕ
root = hhdm_offset + 0x1000

-- The root table has 52 bytes, and its entries are 0x2000 and 0x3000.
abbrev tables : ℕ → ℕ
tables p =
    if p == root + 4
    then 52
    else if p == root + 37
    then 0x20
    else if p == root + 45
    then 0x30
    else if p == hhdm_offset + 0x3000
    then b'A'
    else if p == hhdm_offset + 0x3001
    then b'P'
    else if p == hhdm_offset + 0x3002
    then b'I'
    else if p == hhdm_offset + 0x3003
    then b'C'
    else 0

abbrev apic : List ℕ
apic = b'A' ∷ b'P' ∷ b'I' ∷ b'C' ∷ []

abbrev firmware : Rsdp
firmware = record { revision = 2; rsdt_address = 0; xsdt_address = 0x1000 }

second : acpi_find_table tables firmware apic ≡ hhdm_offset + 0x3000
unfolding acpi_find_table search_table has_signature table_at word_at
second = refl

acpi_find_table_lem_example :
    IsFirst tables
      (root_of firmware)
      (width_of firmware)
      apic
      (entries_of tables (root_of firmware) (width_of firmware))
      0
      (acpi_find_table tables firmware apic)
acpi_find_table_lem_example = acpi_find_table_lem tables firmware apic
