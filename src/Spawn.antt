-- ===== src/Spawn.antt =====
-- kernel/arch/x86_64/sched/context.c: new tasks of the kernel and new processes, and the idle and
-- main tasks of kernel/sched/sched.c. What `kmalloc` returns is an argument, 0 for no memory, and
-- the calls of `kfree` are a result. The descriptors of each task are a heap of their own.
pub mod User
pub mod Register
pub mod Create
mod Tests
use kernel_smp.Base.{
  ℕ, zero, suc, ◌+◌, ◌-◌, ◌*◌, ◌/◌, Bool, true, false, List, [], ◌∷◌, ◌==◌, if◌then◌else◌, update,
  u64,
}
use kernel_smp.Task.{Task, TaskState, Reason, Cpu, prio_high, prio_normal, prio_idle, no_cpu}
use kernel_smp.RunQueue.{enqueue_task}
use kernel_smp.Sched.{Kernel, put_cpu}
use kernel_smp.Vmm.{Vmm}
use kernel_smp.Vma.{Areas, vma_init_task}
use kernel_smp.Syscall.{Heap}

-- `interrupt_frame_t`: what a return from an interrupt loads. The registers that are not named here
-- are zero in every new frame.
pub record Frame : Type 0 where
  pub rbp : ℕ
  pub rip : ℕ
  pub cs : ℕ
  pub rflags : ℕ
  pub rsp : ℕ
  pub ss : ℕ

-- `sizeof(interrupt_frame_t)`: 22 registers
abbrev pub frame_size : ℕ
frame_size = 176

-- The state that the creation of a task works on: that of the scheduler, the interrupt frames on
-- the stacks, and the fields of a task that the scheduler does not read.
pub record Spawner : Type 0 where
  pub kernel : Kernel
  pub next_tid : ℕ
  pub frames : ℕ → Frame
  pub is_user : ℕ → Bool
  pub areas : ℕ → Areas
  pub heaps : ℕ → Heap
  pub vmm : Vmm

abbrev pub no_heap : Heap
no_heap = record { heap_start = 0; heap_curr = 0; heap_end = 0 }

-- A task after `memset`.
abbrev pub zero_task : Task
zero_task = record {
  tid = 0;
  rsp = 0;
  stack_base = 0;
  stack_size = 0;
  state = TaskState.ready;
  wait_reason = Reason.keyboard;
  cr3 = 0;
  next = 0;
  prev = 0;
  sched_next = 0;
  priority = 0;
  base_priority = 0;
  cpu_id = 0;
  sleep_until = 0;
}

unfoldable pub set_task : ℕ → (Task → Task) → Spawner → Spawner
set_task t f w =
    let k = w.kernel in record w { kernel = record k { tasks = update k.tasks t (f (k.tasks t)) } }

-- `memset` of the new task, and `vma_init_task`.
unfoldable pub cleared : ℕ → Spawner → Spawner
cleared t w =
    set_task t (λ _. zero_task)
      (record w {
        is_user = update w.is_user t false;
        areas = update w.areas t (vma_init_task (w.areas t));
        heaps = update w.heaps t no_heap;
      })

abbrev pub sized : Task → Task
sized v = record v { stack_size = 4 * 4096 }

-- A task that got its stack.
abbrev pub based : ℕ → ℕ → Task → Task
based tid stack v = record v {
  stack_base = stack;
  cpu_id = no_cpu;
  state = TaskState.ready;
  tid = tid;
  priority = prio_normal;
  base_priority = prio_normal;
}

-- The new task, NULL for a failure, and what is freed. `stack` is the memory of its stack.
pub task_alloc_base : ℕ → ℕ → Spawner → Spawner × ℕ × List ℕ
task_alloc_base t stack w =
    let w₁ = set_task t sized (cleared t w) in
    let w₂ = set_task t (based w.next_tid stack) w₁ in
    if t == 0
    then (w, 0, [])
    else if stack == 0
    then (w₁, 0, t ∷ [])
    else (record w₂ { next_tid = u64 (w.next_tid + 1) }, t, [])

-- The task is the last of the circular list, before `root_task`, which is not NULL.
unfoldable pub insert_last : ℕ → Kernel → Kernel
insert_last t k =
    let head = k.root_task in
    let tail = (k.tasks head).prev in
    let t₁ = update k.tasks t (record (k.tasks t) { next = head; prev = tail }) in
    let t₂ = update t₁ tail (record (t₁ tail) { next = t }) in
    record k { tasks = update t₂ head (record (t₂ head) { prev = t }) }

-- `cpu` is the executing CPU.
pub task_register : Cpu → ℕ → Kernel → Kernel
task_register cpu t k =
    let linked = insert_last t k in
    let homeless = update linked.tasks t (record (linked.tasks t) { cpu_id = no_cpu }) in
    let (cpu', tasks') = enqueue_task cpu homeless t in
    put_cpu (record linked { tasks = tasks' }) cpu'

-- `(t->stack_base + t->stack_size) & ~0x0FULL`
abbrev pub stack_top : Task → ℕ
stack_top t = u64 (t.stack_base + t.stack_size) / 16 * 16

-- The frame `f` at the top of the stack of task `t`, which starts from it.
pub prepare : ℕ → Frame → Spawner → Spawner
prepare t f w =
    let at = stack_top (w.kernel.tasks t) - frame_size in
    set_task t (λ v. record v { rsp = at }) (record w { frames = update w.frames at f })

-- The frame that a task of the kernel starts from, on a stack with top `top`.
abbrev pub kernel_frame : ℕ → ℕ → Frame
kernel_frame entry_point top = record {
  rbp = top;
  rip = entry_point;
  cs = 8;
  rflags = 0x202;
  rsp = top;
  ss = 16;
}

abbrev pub urgent : ℕ → Task → Task
urgent cr3 v = record v { priority = prio_high; base_priority = prio_high; cr3 = cr3 }

-- The part of `arch_task_create` between the allocation and the registration.
unfoldable pub kernel_task : ℕ → ℕ → Spawner → Spawner
kernel_task t entry_point w =
    let w' = set_task t (urgent w.kernel.cr3) (record w { is_user = update w.is_user t false }) in
    prepare t (kernel_frame entry_point (stack_top (w'.kernel.tasks t))) w'

pub arch_task_create : ℕ → ℕ → ℕ → Cpu → Spawner → Spawner × ℕ × List ℕ
arch_task_create t₀ stack entry_point cpu w =
    let (w₁, t, freed) = task_alloc_base t₀ stack w in
    let w₂ = kernel_task t entry_point w₁ in
    if t == 0
    then (w₁, 0, freed)
    else (record w₂ { kernel = task_register cpu t w₂.kernel }, t, freed)

-- The idle task of a CPU, on a stack of one page: its frame lies one word lower. `kmalloc` is taken
-- to succeed, and `base_priority` is left at 0.
pub create_idle_struct : ℕ → ℕ → ℕ → Cpu → Spawner → Spawner
create_idle_struct t stack entry cpu w =
    let top = u64 (stack + 4096) / 16 * 16 in
    let at = top - frame_size - 8 in
    let f : Frame = record {
      rbp = 0;
      rip = entry;
      cs = 8;
      rflags = 0x202;
      rsp = top - 8;
      ss = 16;
    } in
    let w₁ = cleared t w in
    set_task t
      (λ v. record v {
        stack_base = stack;
        cr3 = w.kernel.cr3;
        stack_size = 4096;
        rsp = at;
        tid = 1;
        state = TaskState.running;
        cpu_id = cpu.id;
        priority = prio_idle;
      })
      (record w₁ { frames = update w.frames at f })

-- The flow of execution that boots the kernel is the first task, alone in the circular list.
pub sched_init : ℕ → ℕ → ℕ → ℕ → Cpu → Spawner → Spawner
sched_init main idle stack idle_task cpu w =
    let w₁ =
      set_task main
        (λ v. record v {
          tid = 0;
          state = TaskState.running;
          next = main;
          prev = main;
          cpu_id = cpu.id;
          cr3 = w.kernel.cr3;
          stack_size = 0;
        })
        (cleared main w) in
    let w₂ =
      create_idle_struct idle stack idle_task cpu
        (record w₁ { kernel = record (w₁.kernel) { root_task = main } }) in
    record w₂ { kernel = put_cpu w₂.kernel (record cpu { current_task = main; idle_task = idle }) }

pub sched_init_ap : ℕ → ℕ → ℕ → Cpu → Spawner → Spawner
sched_init_ap idle stack idle_task cpu w =
    let w₁ = create_idle_struct idle stack idle_task cpu w in
    record w₁ { kernel = put_cpu w₁.kernel (record cpu { current_task = idle; idle_task = idle }) }
