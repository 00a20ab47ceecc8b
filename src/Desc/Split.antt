-- ===== src/Desc/Split.antt =====
-- The addresses in the descriptors, put together again the way the CPU does.
use kernel_smp.Base.{
  ℕ, zero, suc, ◌+◌, ◌*◌, ◌/◌, ◌%◌, ◌^◌, ◌≤◌, ◌<◌, ◌≡◌, ◌≢◌, refl, ◌∙◌, update_self, update_ne,
  ℕ_discrete, arith, false,
}
use kernel_smp.Desc.{
  IdtEntry, idt_set_descriptor, fill_idt, Idt, idt_init, TssEntry, gdt_setup_for_cpu,
}

-- The handler that the CPU calls for an entry.
abbrev pub handler : IdtEntry → ℕ
handler e = e.isr_low + e.isr_mid * 2 ^ 16 + e.isr_high * 2 ^ 32

-- The task state that the CPU finds by an entry.
abbrev pub tss_base : TssEntry → ℕ
tss_base e = e.base_low + e.base_mid * 2 ^ 16 + e.base_high_mid * 2 ^ 24 + e.base_high * 2 ^ 32

-- What an entry of the kernel for the handler `isr` is.
pub record IsGate (isr : ℕ) (e : IdtEntry) : Type 0 where
  pub address : handler e ≡ isr
  pub selector : e.kernel_cs ≡ 8
  pub interrupt_gate : e.attributes ≡ 0x8E

split_isr :
    (a : ℕ)
    → a < 2 ^ 64
    → a % 2 ^ 16 + a / 2 ^ 16 % 2 ^ 16 * 2 ^ 16 + a / 2 ^ 32 % 2 ^ 32 * 2 ^ 32 ≡ a
split_isr a h = omega arith

set-IsGate :
    (v isr : ℕ) (idt : ℕ → IdtEntry)
    → isr < 2 ^ 64
    → IsGate isr (idt_set_descriptor v isr 0x8E idt v)
unfolding idt_set_descriptor
set-IsGate v isr idt h =
    rw (update_self idt v _)
      (record { address = split_isr isr h; selector = refl; interrupt_gate = refl })

set_other : (v u isr : ℕ) (idt : ℕ → IdtEntry) → v ≢ u → idt_set_descriptor v isr 0x8E idt u ≡ idt u
unfolding idt_set_descriptor
set_other v u isr idt ne = update_ne idt v u _ ne

fill_before :
    (stubs : ℕ → ℕ) (n i u : ℕ) (idt : ℕ → IdtEntry) → u < i → fill_idt stubs n i idt u ≡ idt u
unfolding fill_idt
fill_before stubs zero i u idt h = refl
fill_before stubs (suc n) i u idt h =
    fill_before stubs n (suc i) u (idt_set_descriptor i (stubs i) 0x8E idt) (omega arith)
    ∙ set_other i u (stubs i) idt (λ e. absurd (omega (arith, e)))

fill-IsGate :
    (stubs : ℕ → ℕ) (n i u : ℕ) (idt : ℕ → IdtEntry)
    → ((v : ℕ) → stubs v < 2 ^ 64)
    → i ≤ u
    → u < i + n
    → IsGate (stubs u) (fill_idt stubs n i idt u)
unfolding fill_idt
fill-IsGate stubs zero i u idt small low high = absurd (omega arith)
fill-IsGate stubs (suc n) i u idt small low high = elim (ℕ_discrete i u) [
  | yes e ↦
      let idt' = idt_set_descriptor i (stubs i) 0x8E idt in
      rw (← e) (
        rw (fill_before stubs n (suc i) i idt' (omega arith))
          (set-IsGate i (stubs i) idt (small i)))
  | no ne ↦
      fill-IsGate stubs n (suc i) u (idt_set_descriptor i (stubs i) 0x8E idt) small
        (omega (arith, ne)) (omega arith)
]

-- The first `idt_init` makes every entry a gate to the stub of its vector, and a second one changes
-- nothing, whatever stubs it is given.
idt_init_lem :
    (stubs stubs' : ℕ → ℕ) (s : Idt)
    → ((v : ℕ) → stubs v < 2 ^ 64)
    → s.idt_initialized ≡ false
    → ((v : ℕ) → v < 256 → IsGate (stubs v) ((idt_init stubs s).entries v))
      × (idt_init stubs' (idt_init stubs s) ≡ idt_init stubs s)
unfolding idt_init
idt_init_lem stubs stubs' s small fresh =
    rw fresh ((λ v h. fill-IsGate stubs 256 0 v s.entries small (omega arith) (omega arith)), refl)

-- The entry of the task state holds its address, and the task state the stack of the CPU.
gdt_setup_for_cpu_lem :
    (tss_addr kernel_stack : ℕ)
    → tss_addr < 2 ^ 64
    → (tss_base (gdt_setup_for_cpu tss_addr kernel_stack).tss_entry ≡ tss_addr)
      × ((gdt_setup_for_cpu tss_addr kernel_stack).rsp0 ≡ kernel_stack)
unfolding gdt_setup_for_cpu
gdt_setup_for_cpu_lem tss_addr kernel_stack h = (omega arith, refl)
