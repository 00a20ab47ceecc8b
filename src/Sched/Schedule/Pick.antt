-- ===== src/Sched/Schedule/Pick.antt =====
-- What `schedule` does with a task that goes on: it is queued, and the head of a level runs.
use kernel_smp.Base.{
  ℕ, ◌≤◌, ◌<◌, ◌≡◌, ◌≢◌, sym, subst, ◌∙◌, List, [], ◌∷◌, ◌++◌, Bool, true, false, leb, ◌==◌, ne→==,
  if◌then◌else◌, update, update_self, some, arith,
}
use kernel_smp.Task.{TaskState, Tasks, Cpu}
use kernel_smp.RunQueue.{level, enqueue_task, dequeue_task, dequeue_from}
use kernel_smp.RunQueue.Chain.{NotIn}
use kernel_smp.RunQueue.Queues.{Queues}
use kernel_smp.RunQueue.Levels.{Took, dequeue_task-enqueue}
use kernel_smp.Sched.{Kernel, put_cpu}
use kernel_smp.Sched.Schedule.{boosted, goes_on, leave_cpu, switch_to, schedule, choose}
use kernel_smp.Sched.Schedule.Steps.{
  Queues-same, saved, readied, queued, put_back_eq, next_of-readied, base-readied, rsp-queued,
  next_of-leave, rsp-leave, dequeue_from-links, id-dequeue, switch_to-cpu, switch_to-rsp,
  switch_to-state,
}

-- What `schedule` leaves when it runs `task`, the head of a list of `q` at `lev` or above it.
pub record Runs (id frame c lev : ℕ) (k : Kernel) (q : ℕ → List ℕ) (r : Kernel × ℕ) : Type 0 where
  pub task : ℕ
  pub from : ℕ
  pub above : from ≤ lev
  pub rest : List ℕ
  pub head : q from ≡ task ∷ rest
  pub stack : r.1 ≡ (if c == task then frame else (k.tasks task).rsp)
  pub state : (r.0.tasks task).state ≡ TaskState.running
  pub cpu' : Cpu
  pub entry : r.0.cpu_table id ≡ some cpu'
  pub current' : cpu'.current_task ≡ task
  pub queues : Queues cpu' r.0.tasks (update q from rest)

module _ (fuel : ℕ) (free : ℕ → Bool) (frame : ℕ) (cpu : Cpu) (k : Kernel) (q : ℕ → List ℕ)
    (inv : Queues cpu k.tasks q) (real : cpu.current_task ≢ 0)
    (on : goes_on (k.tasks cpu.current_task) ≡ true) (new : (p : ℕ) → NotIn cpu.current_task (q p))
    (lt : level (k.tasks cpu.current_task).base_priority < 3)
    (early : k.uptime_ms < cpu.next_priority_boost) where
  abbrev c : ℕ
  c = cpu.current_task

  abbrev lev : ℕ
  lev = level (k.tasks c).base_priority

  abbrev after : Tasks
  after = leave_cpu c (queued frame cpu k.tasks).1

  abbrev chosen : Cpu × ℕ
  chosen = dequeue_task (queued frame cpu k.tasks).0 after

  readied' : Queues cpu (readied frame cpu k.tasks) q
  readied' = Queues-same (next_of-readied frame cpu k.tasks) inv

  -- What is taken, with the tasks as they are after the interrupted one is queued.
  taken :
      (l : ℕ) × (l ≤ lev)
      × Took (queued frame cpu k.tasks).1 (update q lev (q lev ++ c ∷ [])) chosen l
  unfolding dequeue_task
  taken =
      rw
        (dequeue_from-links 3 0 (queued frame cpu k.tasks).0 (queued frame cpu k.tasks).1 after
          (next_of-leave c (queued frame cpu k.tasks).1))
        (subst
          (λ b.
            (l : ℕ) × (l ≤ level b)
            × Took (queued frame cpu k.tasks).1 (update q (level b) (q (level b) ++ c ∷ []))
                (dequeue_from 3 0 (queued frame cpu k.tasks).0 (queued frame cpu k.tasks).1) l)
          (base-readied frame cpu k.tasks)
          (dequeue_task-enqueue readied' c real new (rw (base-readied frame cpu k.tasks) lt)))

  boosted_eq : boosted cpu k ≡ (cpu, k.tasks)
  unfolding boosted
  boosted_eq = let no : leb cpu.next_priority_boost k.uptime_ms ≡ false = ground arith in rw no

  choose_eq :
      (ts : Tasks) (cpu₂ : Cpu)
      → (dequeue_task cpu₂ ts).1 ≢ 0
      → choose fuel free cpu₂ (record k { tasks = ts }) ≡ (
        put_cpu (record k { tasks = ts }) (dequeue_task cpu₂ ts).0,
        (dequeue_task cpu₂ ts).0,
        (dequeue_task cpu₂ ts).1,
      )
  unfolding choose
  choose_eq ts cpu₂ pos = rw (ne→== (dequeue_task cpu₂ ts).1 0 pos)

  on_saved : goes_on (saved frame cpu k.tasks c) ≡ true
  unfolding goes_on
  on_saved =
      subst (λ t. goes_on t ≡ true)
        (sym (update_self k.tasks c (record (k.tasks c) { rsp = frame }))) on

  schedule_eq :
      chosen.1 ≢ 0
      → schedule fuel free frame cpu k
        ≡ switch_to chosen.1 chosen.0 (put_cpu (record k { tasks = after }) chosen.0)
  unfolding schedule
  schedule_eq pos = rw (
    boosted_eq,
    put_back_eq frame cpu k.tasks real on_saved,
    choose_eq after (queued frame cpu k.tasks).0 pos,
  )

  chosen-id : chosen.0.id ≡ cpu.id
  unfolding dequeue_task enqueue_task
  chosen-id = id-dequeue 3 0 (queued frame cpu k.tasks).0 after

  runs :
      (l : ℕ)
      → l ≤ lev
      → Took (queued frame cpu k.tasks).1 (update q lev (q lev ++ c ∷ [])) chosen l
      → Runs cpu.id frame c lev k
          (update q lev (q lev ++ c ∷ []))
          (switch_to chosen.1 chosen.0 (put_cpu (record k { tasks = after }) chosen.0))
  runs l le took =
      let k' = put_cpu (record k { tasks = after }) chosen.0 in
      let links = Queues-same (next_of-leave c (queued frame cpu k.tasks).1) took.after in
      let (cpu', entry, now, queues) = switch_to-cpu chosen.1 chosen.0 k' _ links in
      record {
        task = chosen.1;
        from = l;
        above = le;
        rest = took.rest;
        head = took.was;
        stack =
            switch_to-rsp chosen.1 chosen.0 k'
            ∙ (rsp-leave c (queued frame cpu k.tasks).1 chosen.1
                ∙ rsp-queued frame cpu k.tasks chosen.1);
        state = switch_to-state chosen.1 chosen.0 k';
        cpu' = cpu';
        entry =
            subst (λ i. (switch_to chosen.1 chosen.0 k').0.cpu_table i ≡ some cpu') chosen-id entry;
        current' = now;
        queues = queues;
      }

  -- A CPU whose boost is not due is interrupted in a running task that is not idle, while its queues
  -- hold `q`, the task in none of them, its level below 3. Then `schedule` queues the task at the
  -- end of its level and takes the head of that level or of one above it; the task it takes is
  -- the current and running one, its stack pointer is returned, the given frame if it is the same
  -- task again, and the queues hold the rest.
  pub schedule_lem :
      Runs cpu.id frame c lev k (update q lev (q lev ++ c ∷ [])) (schedule fuel free frame cpu k)
  schedule_lem = let (l, le, took) = taken in rw (schedule_eq took.real) (runs l le took)
