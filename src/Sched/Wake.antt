-- ===== src/Sched/Wake.antt =====
-- `sched_block_current` and `sched_wakeup`: the global list of the blocked tasks. The fuel bounds
-- the length of the list.
use kernel_smp.Base.{
  ℕ, zero, suc, Bool, true, false, ◌==◌, if◌then◌else◌, update, Option, none, some,
}
use kernel_smp.Task.{TaskState, Reason, keyboard, mutex, Tasks, Cpu, get_cpu_by_id}
use kernel_smp.RunQueue.{enqueue_task}
use kernel_smp.Sched.{Kernel, put_cpu}

abbrev pub same_reason : Reason → Reason → Bool
same_reason keyboard keyboard = true
same_reason mutex mutex = true
same_reason _ _ = false

pub sched_block_current : Reason → ℕ → Kernel → Kernel
sched_block_current reason current k =
    let blocked_task = record (k.tasks current) {
      state = TaskState.blocked;
      wait_reason = reason;
      sched_next = k.blocked_task_list;
    } in
    if current == 0
    then k
    else record k { tasks = update k.tasks current blocked_task; blocked_task_list = current }

-- The state of the loop over `pp`: the head of the list, the tasks to wake, and the tasks.
pub record Sweep : Type 0 where
  pub head : ℕ
  pub woken : ℕ
  pub tasks : Tasks

-- `prev` is the task whose link `pp` points to, 0 for the head of the list.
pub sweep : ℕ → Reason → ℕ → ℕ → Sweep → Sweep
sweep zero reason prev curr s = s
sweep (suc fuel) reason prev curr s =
    let after = (s.tasks curr).sched_next in
    let linked =
      if prev == 0
      then s.tasks
      else update s.tasks prev (record (s.tasks prev) { sched_next = after }) in
    let taken = sweep fuel reason prev after (record {
      head = if prev == 0 then after else s.head;
      woken = curr;
      tasks =
          update linked curr
            (record (linked curr) { sched_next = s.woken; state = TaskState.ready });
    }) in
    let kept = sweep fuel reason curr after s in
    if curr == 0 then s else if same_reason (s.tasks curr).wait_reason reason then taken else kept

-- The second loop: each task goes to the CPU it is bound to, or to the executing one, `self`.
-- `none` is a fault: `self` is in the table.
pub enqueue_woken : ℕ → ℕ → ℕ → Kernel → Option Kernel
enqueue_woken zero self woken k = some k
enqueue_woken (suc fuel) self woken k =
    let target : Option Cpu = elim (get_cpu_by_id k.cpu_table (k.tasks woken).cpu_id) [
      | some cpu ↦ some cpu
      | none ↦ get_cpu_by_id k.cpu_table self
    ] in
    let rest : Option Kernel = elim target [
      | none ↦ none
      | some cpu ↦
          let (cpu', tasks') = enqueue_task cpu k.tasks woken in
          enqueue_woken fuel self (k.tasks woken).sched_next
            (put_cpu (record k { tasks = tasks' }) cpu')
    ] in
    if woken == 0 then some k else rest

pub sched_wakeup : ℕ → Reason → ℕ → Kernel → Option Kernel
sched_wakeup fuel reason self k =
    let s =
      sweep fuel reason 0 k.blocked_task_list
        (record { head = k.blocked_task_list; woken = 0; tasks = k.tasks }) in
    enqueue_woken fuel self s.woken (record k { tasks = s.tasks; blocked_task_list = s.head })
