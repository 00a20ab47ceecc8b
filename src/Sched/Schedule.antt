-- ===== src/Sched/Schedule.antt =====
-- `schedule`: which task a CPU runs next.
pub mod Steps
pub mod Pick
use kernel_smp.Base.{
  ℕ, zero, suc, ◌+◌, Bool, true, false, not, ◌&&◌, leb, ◌==◌, if◌then◌else◌, update, u64, none,
  some,
}
use kernel_smp.Task.{Task, TaskState, Tasks, Cpu, get_cpu_by_id, prio_idle, priority_boost, no_cpu}
use kernel_smp.RunQueue.{enqueue_task, dequeue_task, steal_task_from_cpu, prio_boost}
use kernel_smp.Sched.{Kernel, put_cpu}

abbrev pub is_running : TaskState → Bool
is_running TaskState.running = true
is_running _ = false

-- The interrupted task is queued again, unless it stopped or is the idle task.
unfoldable pub goes_on : Task → Bool
goes_on t = is_running t.state && not (t.priority == prio_idle)

pub queue_again : Cpu → Tasks → ℕ → Cpu × Tasks
queue_again cpu tasks c =
    if goes_on (tasks c)
    then enqueue_task cpu (update tasks c (record (tasks c) { state = TaskState.ready })) c
    else (cpu, tasks)

-- A task of a user may go on anywhere.
pub leave_cpu : ℕ → Tasks → Tasks
leave_cpu c tasks =
    if leb 10 (tasks c).tid then update tasks c (record (tasks c) { cpu_id = no_cpu }) else tasks

-- The part of `schedule` about the interrupted task.
pub put_back : ℕ → Cpu → Tasks → Cpu × Tasks
put_back frame cpu tasks =
    let c = cpu.current_task in
    let saved = update tasks c (record (tasks c) { rsp = frame }) in
    let (cpu', tasks') = queue_again cpu saved c in
    if c == 0 then (cpu, tasks) else (cpu', leave_cpu c tasks')

-- The loop over the other CPUs from number `i`, with `n` rounds left; `free i` is the answer of
-- `spin_trylock` on the run queue of CPU `i`.
pub steal_loop : ℕ → (ℕ → Bool) → ℕ → ℕ → ℕ → Kernel → Kernel × ℕ
steal_loop fuel free self zero i k = (k, 0)
steal_loop fuel free self (suc n) i k =
    let rest = steal_loop fuel free self n (suc i) k in
    if i == self then rest else elim (get_cpu_by_id k.cpu_table i) [
      | none ↦ rest
      | some other ↦
          let (other', tasks', stolen) = steal_task_from_cpu (free i) fuel other k.tasks in
          if stolen == 0 then rest else (put_cpu (record k { tasks = tasks' }) other', stolen)
    ]

-- The task that was chosen gets the CPU; the result is its stack pointer.
pub switch_to : ℕ → Cpu → Kernel → Kernel × ℕ
switch_to t cpu k =
    let task = record (k.tasks t) { state = TaskState.running; cpu_id = cpu.id } in
    let top = u64 (task.stack_base + task.stack_size) in
    let cpu' = record cpu { current_task = t; rsp0 = top; kernel_stack = top } in
    (
      put_cpu
          (record k {
            tasks = update k.tasks t task;
            cr3 = if not (task.cr3 == 0) && not (task.cr3 == k.cr3) then task.cr3 else k.cr3;
          })
          cpu',
      task.rsp,
    )

pub boosted : Cpu → Kernel → Cpu × Tasks
boosted cpu k =
    let (cpu', tasks') = prio_boost cpu k.tasks in
    if leb cpu.next_priority_boost k.uptime_ms
    then (record cpu' { next_priority_boost = u64 (k.uptime_ms + priority_boost) }, tasks')
    else (cpu, k.tasks)

-- The next task, from the queues of the CPU or of another one, or the idle task.
pub choose : ℕ → (ℕ → Bool) → Cpu → Kernel → Kernel × Cpu × ℕ
choose fuel free cpu k =
    let (cpu', local) = dequeue_task cpu k.tasks in
    let k' = put_cpu k cpu' in
    let (k'', stolen) = steal_loop fuel free cpu.id 32 0 k' in
    if local == 0
    then (k'', cpu', if stolen == 0 then cpu'.idle_task else stolen)
    else (k', cpu', local)

-- `cpu` is the executing CPU.
pub schedule : ℕ → (ℕ → Bool) → ℕ → Cpu → Kernel → Kernel × ℕ
schedule fuel free frame cpu k =
    let (cpu₁, tasks₁) = boosted cpu k in
    let (cpu₂, tasks₂) = put_back frame cpu₁ tasks₁ in
    let (k₃, cpu₃, t) = choose fuel free cpu₂ (record k { tasks = tasks₂ }) in switch_to t cpu₃ k₃
