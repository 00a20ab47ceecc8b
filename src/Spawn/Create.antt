-- ===== src/Spawn/Create.antt =====
-- `arch_task_create`: where a new task of the kernel stands, and how it starts.
use kernel_smp.Base.{
  ℕ, ◌+◌, ◌-◌, ◌*◌, ◌/◌, ◌%◌, ◌^◌, ◌≤◌, ◌<◌, ◌≡◌, ◌≢◌, refl, subst, ◌∙◌, ap, List, [], ◌∷◌, ◌++◌,
  update, update_self, update_ne, ==_refl, ne→==, arith, some, u64, false,
}
use kernel_smp.RunQueue.{level}
use kernel_smp.RunQueue.Chain.{NotIn, Distinct, Chain-frame, All-others}
use kernel_smp.RunQueue.Queues.{next_of, Queues}
use kernel_smp.Task.{Task, TaskState, Cpu, prio_high}
use kernel_smp.Sched.{Kernel}
use kernel_smp.Sched.Circle.{Linked-frame}
use kernel_smp.Sched.Members.{forth, rear, IsRing}
use kernel_smp.Spawn.{
  Spawner, frame_size, set_task, task_alloc_base, task_register, prepare, stack_top,
  arch_task_create, kernel_task, kernel_frame, urgent, based, sized, cleared, zero_task, no_heap,
}
use kernel_smp.Vma.{vma_init_task}
use kernel_smp.Spawn.Register.{
  task_register-IsRing, task_register-Queues, register_tid, register_rsp, register_state,
  register_cr3,
}

-- A state in which only task `t` differs.
record IsFresh (t : ℕ) (k k' : Kernel) : Type 0 where
  same_root : k'.root_task ≡ k.root_task
  same_tasks : (y : ℕ) → t ≢ y → k'.tasks y ≡ k.tasks y

IsRing-frame :
    (t : ℕ) (k k' : Kernel) (x : ℕ) (xs : List ℕ)
    → IsFresh t k k'
    → NotIn t (x ∷ xs)
    → IsRing k (x ∷ xs)
    → IsRing k' (x ∷ xs)
IsRing-frame t k k' x xs same out (r, l) = (
  same.same_root ∙ r,
  Linked-frame (forth k.tasks) (rear k.tasks) (forth k'.tasks) (rear k'.tasks) x xs x
      (All-others _ t t (x ∷ xs) (λ y ne _. ap (λ (v : Task). v.next) (same.same_tasks y ne)) out
        out)
      (All-others _ t t xs (λ y ne _. ap (λ (v : Task). v.prev) (same.same_tasks y ne)) out.1 out.1)
      (ap (λ (v : Task). v.prev) (same.same_tasks x out.0)) l,
)

Queues-fresh :
    (t : ℕ) (k k' : Kernel) (cpu : Cpu) (q : ℕ → List ℕ)
    → IsFresh t k k'
    → ((p : ℕ) → NotIn t (q p))
    → Queues cpu k.tasks q
    → Queues cpu k'.tasks q
Queues-fresh t k k' cpu q same new inv = record {
  chain = λ p.
      Chain-frame (next_of k.tasks) (next_of k'.tasks) (cpu.rq_head p) (q p)
        (All-others _ t t (q p) (λ y ne _. ap (λ (v : Task). v.sched_next) (same.same_tasks y ne))
          (new p) (new p))
        (inv.chain p);
  tail = inv.tail;
  count = inv.count;
  distinct = inv.distinct;
  apart = inv.apart;
}

module _ (t : ℕ) (f : Task → Task) (w : Spawner) where
  set-IsFresh : IsFresh t w.kernel (set_task t f w).kernel
  unfolding set_task
  set-IsFresh = record {
    same_root = refl;
    same_tasks = λ y ne. update_ne w.kernel.tasks t y (f (w.kernel.tasks t)) ne;
  }

  set_self : (set_task t f w).kernel.tasks t ≡ f (w.kernel.tasks t)
  unfolding set_task
  set_self = update_self w.kernel.tasks t (f (w.kernel.tasks t))

IsFresh-trans : (t : ℕ) (k k' k'' : Kernel) → IsFresh t k k' → IsFresh t k' k'' → IsFresh t k k''
IsFresh-trans t k k' k'' a b = record {
  same_root = b.same_root ∙ a.same_root;
  same_tasks = λ y ne. b.same_tasks y ne ∙ a.same_tasks y ne;
}

-- The new task before it is registered.
abbrev pub fresh_task : ℕ → ℕ → ℕ → ℕ → Task
fresh_task tid stack cr3 rsp =
    let t : Task = urgent cr3 (based tid stack (sized zero_task)) in record t { rsp = rsp }

-- The state with its stack, and the one in which it is registered.
abbrev with_stack : ℕ → ℕ → Spawner → Spawner
with_stack t stack w =
    record (set_task t (based w.next_tid stack) (set_task t sized (cleared t w))) {
      next_tid = u64 (w.next_tid + 1);
    }

abbrev pub top_of : ℕ → ℕ
top_of stack = u64 (stack + 4 * 4096) / 16 * 16

module _ (t stack entry : ℕ) (w : Spawner) where
  with_stack-IsFresh : IsFresh t w.kernel (with_stack t stack w).kernel
  unfolding cleared
  with_stack-IsFresh =
      let bare = record w {
        is_user = update w.is_user t false;
        areas = update w.areas t (vma_init_task (w.areas t));
        heaps = update w.heaps t no_heap;
      } in
      IsFresh-trans t _ _ _ (set-IsFresh t (λ _. zero_task) bare) (
        IsFresh-trans t _ _ _ (set-IsFresh t sized (cleared t w))
          (set-IsFresh t (based w.next_tid stack) (set_task t sized (cleared t w))))

  with_stack-task : (with_stack t stack w).kernel.tasks t ≡ based w.next_tid stack (sized zero_task)
  unfolding cleared
  with_stack-task =
      let bare = record w {
        is_user = update w.is_user t false;
        areas = update w.areas t (vma_init_task (w.areas t));
        heaps = update w.heaps t no_heap;
      } in
      set_self t (based w.next_tid stack) (set_task t sized (cleared t w))
      ∙ ap (based w.next_tid stack)
          (set_self t sized (cleared t w) ∙ ap sized (set_self t (λ _. zero_task) bare))

  alloc_eq : t ≢ 0 → stack ≢ 0 → task_alloc_base t stack w ≡ (with_stack t stack w, t, [])
  unfolding task_alloc_base
  alloc_eq real backed = rw (ne→== t 0 real, ne→== stack 0 backed)

module _ (t entry : ℕ) (w : Spawner) where
  abbrev marked : Spawner
  marked = record w { is_user = update w.is_user t false }

  abbrev start_at : ℕ
  start_at = stack_top (urgent w.kernel.cr3 (w.kernel.tasks t)) - frame_size

  kernel_task-IsFresh : IsFresh t w.kernel (kernel_task t entry w).kernel
  unfolding kernel_task prepare
  kernel_task-IsFresh =
      IsFresh-trans t _ _ _ (set-IsFresh t (urgent w.kernel.cr3) marked) (set-IsFresh t _ _)

  kernel_task-task :
      (kernel_task t entry w).kernel.tasks t
      ≡ record (urgent w.kernel.cr3 (w.kernel.tasks t)) { rsp = start_at }
  unfolding kernel_task prepare set_task
  kernel_task-task = rw (==_refl t)

  kernel_task-frames :
      (kernel_task t entry w).frames start_at
      ≡ kernel_frame entry (stack_top (urgent w.kernel.cr3 (w.kernel.tasks t)))
  unfolding kernel_task prepare set_task
  kernel_task-frames = rw (==_refl t, ==_refl start_at)

  kernel_task-tid : (kernel_task t entry w).next_tid ≡ w.next_tid
  unfolding kernel_task prepare set_task
  kernel_task-tid = refl

-- Where a task of the kernel starts: with the next number, at the entry point, on an empty stack of
-- its own, whose top is aligned.
pub record Starts (w' : Spawner) (t stack entry : ℕ) (w : Spawner) : Type 0 where
  pub number : (w'.kernel.tasks t).tid ≡ w.next_tid
  pub next_number : w'.next_tid ≡ u64 (w.next_tid + 1)
  pub is_ready : (w'.kernel.tasks t).state ≡ TaskState.ready
  pub tables : (w'.kernel.tasks t).cr3 ≡ w.kernel.cr3
  pub at_entry : (w'.frames (w'.kernel.tasks t).rsp).rip ≡ entry
  pub stack_aligned : (w'.frames (w'.kernel.tasks t).rsp).rsp % 16 ≡ 0
  pub frame_end : (w'.kernel.tasks t).rsp + frame_size ≡ (w'.frames (w'.kernel.tasks t).rsp).rsp
  pub low : stack ≤ (w'.kernel.tasks t).rsp
  pub high : (w'.kernel.tasks t).rsp + frame_size ≤ stack + 4 * 4096

module _ (t stack entry : ℕ) (cpu : Cpu) (w : Spawner) (real : t ≢ 0) (backed : stack ≢ 0) where
  made : Spawner
  made = kernel_task t entry (with_stack t stack w)

  create_eq :
      arch_task_create t stack entry cpu w
      ≡ (record made { kernel = task_register cpu t made.kernel }, t, [])
  unfolding arch_task_create made
  create_eq = rw (alloc_eq t stack entry w real backed, ne→== t 0 real)

  made-IsFresh : IsFresh t w.kernel made.kernel
  unfolding made
  made-IsFresh =
      IsFresh-trans t _ _ _ (with_stack-IsFresh t stack entry w)
        (kernel_task-IsFresh t entry (with_stack t stack w))

  cr3-with_stack : (with_stack t stack w).kernel.cr3 ≡ w.kernel.cr3
  unfolding set_task cleared
  cr3-with_stack = refl

  made-task :
      made.kernel.tasks t ≡ fresh_task w.next_tid stack w.kernel.cr3 (top_of stack - frame_size)
  unfolding made
  made-task = rw (
    kernel_task-task t entry (with_stack t stack w),
    with_stack-task t stack entry w,
    cr3-with_stack,
  )

  made-frames : made.frames (top_of stack - frame_size) ≡ kernel_frame entry (top_of stack)
  unfolding made
  made-frames =
      let s = with_stack t stack w in
      let top : stack_top (urgent s.kernel.cr3 (s.kernel.tasks t)) ≡ top_of stack =
        ap (λ v. stack_top (urgent s.kernel.cr3 v)) (with_stack-task t stack entry w) in
      subst (λ p. made.frames (p - frame_size) ≡ kernel_frame entry p) top
        (kernel_task-frames t entry s)

  made-next_tid : made.next_tid ≡ u64 (w.next_tid + 1)
  unfolding made
  made-next_tid = kernel_task-tid t entry (with_stack t stack w)

  made-Starts :
      stack + 4 * 4096 < 2 ^ 64
      → Starts (record made { kernel = task_register cpu t made.kernel }) t stack entry w
  made-Starts fits =
      let k = made.kernel in
      let rsp : ((task_register cpu t k).tasks t).rsp ≡ top_of stack - frame_size =
        register_rsp cpu t k ∙ ap (λ (v : Task). v.rsp) made-task in
      record {
        number = register_tid cpu t k ∙ ap (λ (v : Task). v.tid) made-task;
        next_number = made-next_tid;
        is_ready = register_state cpu t k ∙ ap (λ (v : Task). v.state) made-task;
        tables = register_cr3 cpu t k ∙ ap (λ (v : Task). v.cr3) made-task;
        at_entry = rw (rsp, made-frames) refl;
        stack_aligned = rw (rsp, made-frames) (omega arith);
        frame_end = rw (rsp, made-frames) (omega arith);
        low = rw rsp (omega arith);
        high = rw rsp (omega arith);
      }

-- A task of the kernel, given memory for it and for its stack: it is returned, nothing is freed, it
-- is the last of the ring of all tasks and of the run queue of the highest priority on the executing
-- CPU, where the other queues are as they were, and it starts at its entry point.
pub arch_task_create_lem :
    (t stack entry : ℕ) (cpu : Cpu) (w : Spawner) (x : ℕ) (xs : List ℕ) (q : ℕ → List ℕ)
    → t ≢ 0
    → stack ≢ 0
    → stack + 4 * 4096 < 2 ^ 64
    → Distinct (x ∷ xs)
    → NotIn t (x ∷ xs)
    → IsRing w.kernel (x ∷ xs)
    → Queues cpu w.kernel.tasks q
    → ((p : ℕ) → NotIn t (q p))
    → let (w', created, freed) = arch_task_create t stack entry cpu w in
      (created ≡ t)
      × (freed ≡ [])
      × IsRing w'.kernel (x ∷ (xs ++ t ∷ []))
      × ((cpu' : Cpu) × (w'.kernel.cpu_table cpu.id ≡ some cpu')
          × Queues cpu' w'.kernel.tasks (update q prio_high (q prio_high ++ t ∷ [])))
      × Starts w' t stack entry w
arch_task_create_lem t stack entry cpu w x xs q real backed fits d out ring inv new =
    let fresh = made-IsFresh t stack entry cpu w real backed in
    let k = (made t stack entry cpu w real backed).kernel in
    let base : (k.tasks t).base_priority ≡ prio_high =
      ap (λ (v : Task). v.base_priority) (made-task t stack entry cpu w real backed) in
    let queued =
      task_register-Queues cpu t k q (Queues-fresh t w.kernel k cpu q fresh new inv) real new in
    rw (create_eq t stack entry cpu w real backed) (
      refl,
      refl,
      task_register-IsRing cpu t k x xs d out (IsRing-frame t w.kernel k x xs fresh out ring),
      subst
          (λ l.
            (cpu' : Cpu) × ((task_register cpu t k).cpu_table cpu.id ≡ some cpu')
            × Queues cpu' (task_register cpu t k).tasks (update q l (q l ++ t ∷ [])))
          (ap level base) queued,
      made-Starts t stack entry cpu w real backed fits,
    )
