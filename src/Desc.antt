-- ===== src/Desc.antt =====
-- kernel/arch/x86_64/idt.c and gdt.c: the tables that the CPU reads, and the dispatch of interrupts.
pub mod Split
pub mod Dispatch
use kernel_smp.Base.{
  ℕ, zero, suc, ◌+◌, ◌-◌, ◌*◌, ◌/◌, ◌%◌, ◌^◌, Bool, true, false, ◌==◌, if◌then◌else◌, update, ltb,
}

-- `struct idt_entry`
pub record IdtEntry : Type 0 where
  pub isr_low : ℕ
  pub kernel_cs : ℕ
  pub ist : ℕ
  pub attributes : ℕ
  pub isr_mid : ℕ
  pub isr_high : ℕ
  pub reserved : ℕ

pub idt_set_descriptor : ℕ → ℕ → ℕ → (ℕ → IdtEntry) → ℕ → IdtEntry
idt_set_descriptor vector isr flags idt = update idt vector (record {
  isr_low = isr % 2 ^ 16;
  kernel_cs = 8;
  ist = 0;
  attributes = flags;
  isr_mid = isr / 2 ^ 16 % 2 ^ 16;
  isr_high = isr / 2 ^ 32 % 2 ^ 32;
  reserved = 0;
})

-- The loop of `idt_init` from vector `i`, with `n` vectors left.
pub fill_idt : (ℕ → ℕ) → ℕ → ℕ → (ℕ → IdtEntry) → ℕ → IdtEntry
fill_idt isr_stub_table zero i idt = idt
fill_idt isr_stub_table (suc n) i idt =
    fill_idt isr_stub_table n (suc i) (idt_set_descriptor i (isr_stub_table i) 0x8E idt)

pub record Idt : Type 0 where
  pub entries : ℕ → IdtEntry
  pub idt_initialized : Bool

pub idt_init : (ℕ → ℕ) → Idt → Idt
idt_init isr_stub_table s =
    if s.idt_initialized
    then s
    else record { entries = fill_idt isr_stub_table 256 0 s.entries; idt_initialized = true }

-- `struct gdt_tss_descriptor`, and an entry for code or data.
pub record TssEntry : Type 0 where
  pub limit_low : ℕ
  pub base_low : ℕ
  pub base_mid : ℕ
  pub flags1 : ℕ
  pub base_high_mid : ℕ
  pub base_high : ℕ

pub record GdtEntry : Type 0 where
  pub access : ℕ
  pub granularity : ℕ

-- `cpu_gdt_t` and the fields of `tss_t` that are set.
pub record Gdt : Type 0 where
  pub entries : ℕ → GdtEntry
  pub tss_entry : TssEntry
  pub rsp0 : ℕ
  pub iopb_offset : ℕ

-- `sizeof(tss_t)`
abbrev pub tss_size : ℕ
tss_size = 104

-- `tss_addr` is the address of the task state, and `kernel_stack` that of the CPU's stack.
pub gdt_setup_for_cpu : ℕ → ℕ → Gdt
gdt_setup_for_cpu tss_addr kernel_stack =
    let blank : ℕ → GdtEntry = λ i. record { access = 0; granularity = 0 } in
    let code : ℕ → GdtEntry = λ a. record { access = a; granularity = 0x20 } in
    let words : ℕ → GdtEntry = λ a. record { access = a; granularity = 0 } in
    record {
      entries =
          update (update (update (update blank 1 (code 0x9A)) 2 (words 0x92)) 3 (code 0xFA)) 4
            (words 0xF2);
      tss_entry = record {
        limit_low = tss_size - 1;
        base_low = tss_addr % 2 ^ 16;
        base_mid = tss_addr / 2 ^ 16 % 2 ^ 8;
        flags1 = 0x89;
        base_high_mid = tss_addr / 2 ^ 24 % 2 ^ 8;
        base_high = tss_addr / 2 ^ 32 % 2 ^ 32;
      };
      rsp0 = kernel_stack;
      iopb_offset = tss_size;
    }
