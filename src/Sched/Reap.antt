-- ===== src/Sched/Reap.antt =====
-- `task_exit` up to its endless loop, and `sched_reap`. The fuel bounds the number of dead tasks.
pub mod Unlink
pub mod Drain
use kernel_smp.Base.{ℕ, zero, suc, leb, ◌==◌, if◌then◌else◌, update, List, [], ◌∷◌, ◌++◌}
use kernel_smp.Task.{TaskState, Tasks, no_cpu}
use kernel_smp.Sched.{Kernel}

pub task_exit : ℕ → Kernel → Kernel
task_exit current k =
    let zombie = record (k.tasks current) {
      state = TaskState.zombie;
      cpu_id = no_cpu;
      sched_next = k.dead_task_list;
    } in
    if current == 0
    then k
    else record k { tasks = update k.tasks current zombie; dead_task_list = current }

-- The task is taken out of the circular list of all tasks.
pub unlink_task : ℕ → Kernel → Kernel
unlink_task t k =
    let p = (k.tasks t).prev in
    let n = (k.tasks t).next in
    let forward = update k.tasks p (record (k.tasks p) { next = n }) in
    record k {
      tasks = update forward n (record (forward n) { prev = p });
      root_task = if k.root_task == t then (if n == t then 0 else n) else k.root_task;
    }

-- What the reaper calls for a dead task, in order.
pub data ReapCall : Type 0 where
  vma_destroy_all : ℕ → ReapCall
  kfree : ℕ → ReapCall

abbrev pub cleanup : Tasks → ℕ → List ReapCall
cleanup tasks t =
    (if leb 10 (tasks t).tid then vma_destroy_all t ∷ [] else [])
    ++ kfree (tasks t).stack_base ∷ kfree t ∷ []

pub reap_loop : ℕ → ℕ → Kernel → Kernel × List ReapCall
reap_loop zero to_clean k = (k, [])
reap_loop (suc fuel) to_clean k =
    let unlinked = unlink_task to_clean k in
    let (k', calls) = reap_loop fuel (k.tasks to_clean).sched_next unlinked in
    if to_clean == 0 then (k, []) else (k', cleanup unlinked.tasks to_clean ++ calls)

pub sched_reap : ℕ → Kernel → Kernel × List ReapCall
sched_reap fuel k = reap_loop fuel k.dead_task_list (record k { dead_task_list = 0 })
