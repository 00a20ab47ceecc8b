-- ===== src/Spawn/Register.antt =====
-- `task_register`: the task is the last of the ring of all tasks, and of its run queue.
use kernel_smp.Base.{
  ℕ, ◌≡◌, ◌≢◌, refl, sym, ◌∙◌, fun_ext, List, [], ◌∷◌, ◌++◌, update, update_self, arith, some,
}
use kernel_smp.RunQueue.{level, enqueue_task}
use kernel_smp.RunQueue.Chain.{NotIn, Distinct}
use kernel_smp.RunQueue.Queues.{next_of, Queues}
use kernel_smp.RunQueue.Enqueue.{enqueue_task-Queues}
use kernel_smp.Task.{Task, Tasks, Cpu, no_cpu}
use kernel_smp.Sched.{Kernel}
use kernel_smp.Sched.Circle.{Linked-insert}
use kernel_smp.Sched.Members.{forth, rear, IsRing}
use kernel_smp.Spawn.{insert_last, task_register}

forth-insert :
    (t : ℕ) (k : Kernel)
    → forth (insert_last t k).tasks
      ≡ update (update (forth k.tasks) t k.root_task) (rear k.tasks k.root_task) t
unfolding insert_last
forth-insert t k = fun_ext λ y. ground arith

rear-insert :
    (t : ℕ) (k : Kernel)
    → rear (insert_last t k).tasks
      ≡ update (update (rear k.tasks) t (rear k.tasks k.root_task)) k.root_task t
unfolding insert_last
rear-insert t k = fun_ext λ y. ground arith

root-insert : (t : ℕ) (k : Kernel) → (insert_last t k).root_task ≡ k.root_task
unfolding insert_last
root-insert t k = refl

insert_last-IsRing :
    (t : ℕ) (k : Kernel) (x : ℕ) (xs : List ℕ)
    → Distinct (x ∷ xs)
    → NotIn t (x ∷ xs)
    → IsRing k (x ∷ xs)
    → IsRing (insert_last t k) (x ∷ (xs ++ t ∷ []))
insert_last-IsRing t k x xs d out (r, l) = (
  root-insert t k ∙ r,
  rw (forth-insert t k, rear-insert t k, r)
      (Linked-insert (forth k.tasks) (rear k.tasks) x xs t d out l),
)

forth-enqueue :
    (cpu : Cpu) (tasks : Tasks) (t : ℕ) → forth (enqueue_task cpu tasks t).1 ≡ forth tasks
unfolding enqueue_task
forth-enqueue cpu tasks t = fun_ext λ y. ground arith

rear-enqueue : (cpu : Cpu) (tasks : Tasks) (t : ℕ) → rear (enqueue_task cpu tasks t).1 ≡ rear tasks
unfolding enqueue_task
rear-enqueue cpu tasks t = fun_ext λ y. ground arith

-- The tasks before `enqueue_task`.
abbrev homeless : ℕ → Kernel → Tasks
homeless t k =
    update (insert_last t k).tasks t (record ((insert_last t k).tasks t) { cpu_id = no_cpu })

forth-homeless : (t : ℕ) (k : Kernel) → forth (homeless t k) ≡ forth (insert_last t k).tasks
forth-homeless t k = fun_ext λ y. ground arith

rear-homeless : (t : ℕ) (k : Kernel) → rear (homeless t k) ≡ rear (insert_last t k).tasks
rear-homeless t k = fun_ext λ y. ground arith

forth-register :
    (cpu : Cpu) (t : ℕ) (k : Kernel)
    → forth (task_register cpu t k).tasks ≡ forth (insert_last t k).tasks
unfolding task_register
forth-register cpu t k = forth-enqueue cpu (homeless t k) t ∙ forth-homeless t k

rear-register :
    (cpu : Cpu) (t : ℕ) (k : Kernel)
    → rear (task_register cpu t k).tasks ≡ rear (insert_last t k).tasks
unfolding task_register
rear-register cpu t k = rear-enqueue cpu (homeless t k) t ∙ rear-homeless t k

root-register :
    (cpu : Cpu) (t : ℕ) (k : Kernel)
    → (task_register cpu t k).root_task ≡ (insert_last t k).root_task
unfolding task_register
root-register cpu t k = refl

pub task_register-IsRing :
    (cpu : Cpu) (t : ℕ) (k : Kernel) (x : ℕ) (xs : List ℕ)
    → Distinct (x ∷ xs)
    → NotIn t (x ∷ xs)
    → IsRing k (x ∷ xs)
    → IsRing (task_register cpu t k) (x ∷ (xs ++ t ∷ []))
task_register-IsRing cpu t k x xs d out ring =
    let (r, l) = insert_last-IsRing t k x xs d out ring in
    (root-register cpu t k ∙ r, rw (forth-register cpu t k, rear-register cpu t k) l)

next_of-homeless : (t : ℕ) (k : Kernel) → next_of (homeless t k) ≡ next_of k.tasks
unfolding insert_last
next_of-homeless t k = fun_ext λ y. ground arith

base-homeless : (t : ℕ) (k : Kernel) → (homeless t k t).base_priority ≡ (k.tasks t).base_priority
unfolding insert_last
base-homeless t k = ground arith

Queues-frame :
    (cpu : Cpu) (tasks tasks' : Tasks) (q : ℕ → List ℕ)
    → next_of tasks' ≡ next_of tasks
    → Queues cpu tasks q
    → Queues cpu tasks' q
Queues-frame cpu tasks tasks' q same inv = record {
  chain = λ p. rw same (inv.chain p);
  tail = inv.tail;
  count = inv.count;
  distinct = inv.distinct;
  apart = inv.apart;
}

id-enqueue : (cpu : Cpu) (tasks : Tasks) (t : ℕ) → (enqueue_task cpu tasks t).0.id ≡ cpu.id
unfolding enqueue_task
id-enqueue cpu tasks t = refl

-- The run queues of the executing CPU, which is entry `cpu.id` of the table afterwards.
pub task_register-Queues :
    (cpu : Cpu) (t : ℕ) (k : Kernel) (q : ℕ → List ℕ)
    → Queues cpu k.tasks q
    → t ≢ 0
    → ((p : ℕ) → NotIn t (q p))
    → let l = level (k.tasks t).base_priority in
      (cpu' : Cpu) × ((task_register cpu t k).cpu_table cpu.id ≡ some cpu')
      × Queues cpu' (task_register cpu t k).tasks (update q l (q l ++ t ∷ []))
unfolding task_register
task_register-Queues cpu t k q inv real new =
    let inv' = Queues-frame cpu k.tasks (homeless t k) q (next_of-homeless t k) inv in
    let entry : (task_register cpu t k).cpu_table cpu.id
        ≡ some (enqueue_task cpu (homeless t k) t).0 =
      rw (id-enqueue cpu (homeless t k) t) (
        update_self (insert_last t k).cpu_table cpu.id
          (some (enqueue_task cpu (homeless t k) t).0)) in
    (
      (enqueue_task cpu (homeless t k) t).0,
      entry,
      rw (sym (base-homeless t k)) (enqueue_task-Queues inv' t real new),
    )

-- What else the task `t` has afterwards.
module _ (cpu : Cpu) (t : ℕ) (k : Kernel) where
  abbrev registered : Task
  registered = (task_register cpu t k).tasks t

  pub register_tid : registered.tid ≡ (k.tasks t).tid
  unfolding task_register insert_last enqueue_task
  register_tid = ground arith

  pub register_rsp : registered.rsp ≡ (k.tasks t).rsp
  unfolding task_register insert_last enqueue_task
  register_rsp = ground arith

  pub register_state : registered.state ≡ (k.tasks t).state
  unfolding task_register insert_last enqueue_task
  register_state = ground arith

  pub register_cr3 : registered.cr3 ≡ (k.tasks t).cr3
  unfolding task_register insert_last enqueue_task
  register_cr3 = ground arith
