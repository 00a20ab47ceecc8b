-- ===== src/Mutex.antt =====
-- The mutex of kernel/atomic/atomic.c and kernel/include/atomic/atomic.h, with locking enabled. An
-- operation runs under `wait_lock`, so it is one step; the loop of `mutex_lock` is left and entered
-- again at `sched_yield`, so each of its rounds is a step too.
pub mod Handoff
use kernel_smp.Base.{
  ℕ, suc, ltb, ◌==◌, if◌then◌else◌, Bool, true, false, update, Option, none, some,
}
use kernel_smp.Task.{Task, TaskState, Reason, Tasks, Cpu, get_cpu_by_id}
use kernel_smp.RunQueue.{enqueue_task}
use kernel_smp.Sched.{Kernel, put_cpu}

pub record Mutex : Type 0 where
  pub count : ℕ
  pub wait_list : ℕ
  pub owner : ℕ

-- `{ .count = 1, …, .wait_list = NULL, .owner = NULL }`
abbrev pub unlocked : Mutex
unlocked = record { count = 1; wait_list = 0; owner = 0 }

-- One round of the loop: the mutex is taken, or the task is blocked and yields.
pub lock_round : ℕ → Mutex → Tasks → Mutex × Tasks × Bool
lock_round current m tasks =
    let waiting = record (tasks current) {
      state = TaskState.blocked;
      wait_reason = Reason.mutex;
      sched_next = m.wait_list;
    } in
    if ltb 0 m.count
    then (record m { count = 0; owner = current }, tasks, true)
    else (record m { wait_list = current }, update tasks current waiting, false)

-- The mutex after `mutex_unlock`, the tasks, and the task to wake, 0 for none.
pub release : Mutex → Tasks → Mutex × Tasks × ℕ
release m tasks =
    let t = m.wait_list in
    if t == 0 then (record m { owner = 0; count = 1 }, tasks, 0) else (
      record m { owner = 0; wait_list = (tasks t).sched_next },
      update tasks t (record (tasks t) { sched_next = 0 }),
      t,
    )

-- `none` is a fault: the woken task is queued on the CPU that `get_cpu_by_id` finds, with no test
-- for NULL.
pub mutex_unlock : Mutex → Kernel → Option (Mutex × Kernel)
mutex_unlock m k =
    let (m', tasks, t) = release m k.tasks in
    let woken = update tasks t (record (tasks t) { state = TaskState.ready }) in
    let handed : Option (Mutex × Kernel) = elim (get_cpu_by_id k.cpu_table (tasks t).cpu_id) [
      | none ↦ none
      | some cpu ↦
          let (cpu', tasks') = enqueue_task cpu woken t in
          some (m', put_cpu (record k { tasks = tasks' }) cpu')
    ] in
    if t == 0 then some (m', record k { tasks = tasks }) else handed
