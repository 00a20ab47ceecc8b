-- ===== src/Sched/Sleep.antt =====
-- `sched_make_task_sleep` and `sched_update_sleepers`: the list of the sleeping tasks of a CPU,
-- sorted by the time they wake up. The fuel bounds the length of the list.
pub mod Expired
pub mod Insert
use kernel_smp.Base.{ℕ, zero, suc, ◌+◌, not, ◌&&◌, ltb, leb, ◌==◌, if◌then◌else◌, update, u64}
use kernel_smp.Task.{TaskState, Tasks, Cpu}
use kernel_smp.RunQueue.{enqueue_task}

-- The loop over `pp`: the task whose link is to be changed, 0 for the head of the list, and the
-- task that the link holds.
pub find_slot : ℕ → ℕ → ℕ → ℕ → Tasks → ℕ × ℕ
find_slot zero prev curr until tasks = (prev, curr)
find_slot (suc fuel) prev curr until tasks =
    let rest = find_slot fuel curr (tasks curr).sched_next until tasks in
    if not (curr == 0) && ltb (tasks curr).sleep_until until then rest else (prev, curr)

-- `current` is not NULL; `now` is what `get_uptime_ms` returns.
pub make_task_sleep : ℕ → ℕ → ℕ → ℕ → Cpu → Tasks → Cpu × Tasks
make_task_sleep fuel ms now current cpu tasks =
    let until = u64 (now + ms) in
    let marked =
      update tasks current
        (record (tasks current) { state = TaskState.sleeping; sleep_until = until }) in
    let (prev, curr) = find_slot fuel 0 cpu.sleeping_list until marked in
    let linked = update marked current (record (marked current) { sched_next = curr }) in
    if prev == 0
    then (record cpu { sleeping_list = current }, linked)
    else (cpu, update linked prev (record (linked prev) { sched_next = current }))

-- `if (!current) return;`
pub sched_make_task_sleep : ℕ → ℕ → ℕ → Cpu → Tasks → Cpu × Tasks
sched_make_task_sleep fuel ms now cpu tasks =
    if cpu.current_task == 0
    then (cpu, tasks)
    else make_task_sleep fuel ms now cpu.current_task cpu tasks

-- The first loop: the tasks whose time has come move to the front of `ready`, one by one. The
-- result is the list that stays, the list that is ready, and the tasks.
pub collect_expired : ℕ → ℕ → ℕ → ℕ → Tasks → ℕ × ℕ × Tasks
collect_expired zero now list ready tasks = (list, ready, tasks)
collect_expired (suc fuel) now list ready tasks =
    let rest =
      collect_expired fuel now (tasks list).sched_next list
        (update tasks list (record (tasks list) { sched_next = ready })) in
    if not (list == 0) && leb (tasks list).sleep_until now then rest else (list, ready, tasks)

-- The second loop: each of them is made ready and queued.
pub enqueue_ready : ℕ → ℕ → Cpu → Tasks → Cpu × Tasks
enqueue_ready zero ready cpu tasks = (cpu, tasks)
enqueue_ready (suc fuel) ready cpu tasks =
    let woken =
      update tasks ready (record (tasks ready) { state = TaskState.ready; sched_next = 0 }) in
    let (cpu', tasks') = enqueue_task cpu woken ready in
    let rest = enqueue_ready fuel (tasks ready).sched_next cpu' tasks' in
    if ready == 0 then (cpu, tasks) else rest

pub sched_update_sleepers : ℕ → ℕ → Cpu → Tasks → Cpu × Tasks
sched_update_sleepers fuel now cpu tasks =
    let (list, ready, tasks') = collect_expired fuel now cpu.sleeping_list 0 tasks in
    enqueue_ready fuel ready (record cpu { sleeping_list = list }) tasks'
