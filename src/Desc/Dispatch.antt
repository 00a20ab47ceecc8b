-- ===== src/Desc/Dispatch.antt =====
-- `interrupt_dispatch` of kernel/arch/x86_64/idt.c. A write to the controller is an event.
use kernel_smp.Base.{
  ℕ, suc, ◌+◌, Bool, List, [], ◌∷◌, Option, none, some, ltb, ◌==◌, if◌then◌else◌, u64, ◌≡◌, ◌≢◌,
  ◌≤◌, ◌⊎◌, arith, Bool-cases, inl, inr,
}
use kernel_smp.Task.{Cpu}
use kernel_smp.Sched.{Kernel, put_cpu}
use kernel_smp.Sched.Sleep.{sched_update_sleepers}
use kernel_smp.Sched.Schedule.{schedule}
use kernel_smp.Keyboard.{Keyboard, ps2_keyboard_handler}

pub data IrqCall : Type 0 where
  send_eoi : IrqCall
  flush_tlb : IrqCall

-- What an interrupt ends in: a panic, a CPU that halts, or a return to the stack `rsp`.
pub data Outcome : Type 0 where
  panics : Outcome
  halts : Outcome
  returns : Kernel → Keyboard → ℕ → List IrqCall → Outcome

-- What the handlers ask for: the answers of `spin_trylock`, the scancode of the keyboard, and fuel
-- for the lists of tasks.
pub record Inputs : Type 0 where
  pub fuel : ℕ
  pub free : ℕ → Bool
  pub scancode : ℕ

-- The timer: CPU 0 counts the time. `get_cpu` is entry `cpu.id` of the table again after the
-- sleepers are woken.
pub tick : Inputs → ℕ → Cpu → Kernel → Kernel × ℕ
tick inp frame cpu k =
    let now = if cpu.id == 0 then u64 (k.uptime_ms + 5) else k.uptime_ms in
    let (cpu', tasks') = sched_update_sleepers inp.fuel now cpu k.tasks in
    let k' = put_cpu (record k { tasks = tasks'; uptime_ms = now }) cpu' in
    schedule inp.fuel inp.free frame cpu' k'

-- `none` is a fault of the handler of the keyboard.
unfoldable pub interrupt_dispatch : Inputs → ℕ → ℕ → Cpu → Keyboard → Kernel → Option Outcome
interrupt_dispatch inp vector frame cpu kbd k =
    let timer : Outcome =
      let (k', rsp) = tick inp frame cpu k in returns k' kbd rsp (send_eoi ∷ []) in
    let key : Option Outcome = elim (ps2_keyboard_handler inp.fuel cpu.id inp.scancode kbd k) [
      | none ↦ none
      | some (kbd', k') ↦ some (returns k' kbd' frame (send_eoi ∷ []))
    ] in
    if ltb vector 32
    then some panics
    else if vector == 32
    then some timer
    else if vector == 33
    then key
    else if vector == 0xFD
    then some (returns k kbd frame (flush_tlb ∷ send_eoi ∷ []))
    else if vector == 0xFE
    then some halts
    else some (returns k kbd frame (send_eoi ∷ []))

abbrev pub eois : List IrqCall → ℕ
eois [] = 0
eois (send_eoi ∷ calls) = suc (eois calls)
eois (flush_tlb ∷ calls) = eois calls

-- An interrupt that returns is acknowledged exactly once, its vector is none of an exception and not
-- that of the halt, and unless it is the timer's it goes back to the stack that it came from.
interrupt_dispatch-eoi :
    (inp : Inputs) (vector frame : ℕ) (cpu : Cpu) (kbd : Keyboard) (k k' : Kernel) (kbd' : Keyboard)
    (rsp : ℕ) (calls : List IrqCall)
    → interrupt_dispatch inp vector frame cpu kbd k ≡ some (returns k' kbd' rsp calls)
    → (eois calls ≡ 1) × (32 ≤ vector) × (vector ≢ 0xFE) × ((vector ≡ 32) ⊎ (rsp ≡ frame))
unfolding interrupt_dispatch
interrupt_dispatch-eoi inp vector frame cpu kbd k k' kbd' rsp calls e =
    elim (Bool-cases (ltb vector 32)) [
      | inl x ↦ ground arith
      | inr a ↦ elim (Bool-cases (vector == 32)) [
        | inl t ↦ ground arith
        | inr b ↦ elim (Bool-cases (vector == 33)) [ inl y ↦ ground arith | inr c ↦ ground arith ]
      ]
    ]
