-- ===== src/Sched/Reap/Drain.antt =====
-- `sched_reap` over the list of dead tasks.
use kernel_smp.Base.{
  ℕ, zero, suc, ◌≡◌, ◌≢◌, ◌≤◌, refl, ap, ◌∙◌, fun_ext, List, [], ◌∷◌, ◌++◌, length, All, ne→==,
  arith,
}
use kernel_smp.RunQueue.Chain.{NotIn, Distinct, Chain}
use kernel_smp.RunQueue.Queues.{next_of}
use kernel_smp.Task.{Tasks}
use kernel_smp.Sched.{Kernel}
use kernel_smp.Sched.Reap.{ReapCall, cleanup, reap_loop, sched_reap, unlink_task}
use kernel_smp.Sched.Members.{IsRing, Member, Member-without, without, Distinct-without}
use kernel_smp.Sched.Reap.Unlink.{
  unlink-sched_next, unlink-tid, unlink-stack_base, unlink_task-IsRing,
}

-- The list without each of the tasks `ds`.
abbrev pub without_all : List ℕ → List ℕ → List ℕ
without_all [] ts = ts
without_all (d ∷ ds) ts = without_all ds (without d ts)

-- What is called for the tasks `ds`, one after the other.
abbrev pub cleanups : Tasks → List ℕ → List ReapCall
cleanups tasks [] = []
cleanups tasks (d ∷ ds) = cleanup tasks d ++ cleanups tasks ds

cleanup-unlink : (t d : ℕ) (k : Kernel) → cleanup (unlink_task t k).tasks d ≡ cleanup k.tasks d
cleanup-unlink t d k = rw (unlink-tid t k d, unlink-stack_base t k d)

cleanups-unlink :
    (t : ℕ) (ds : List ℕ) (k : Kernel) → cleanups (unlink_task t k).tasks ds ≡ cleanups k.tasks ds
cleanups-unlink t [] k = refl
cleanups-unlink t (d ∷ ds) k =
    ap (λ l. l ++ cleanups (unlink_task t k).tasks ds) (cleanup-unlink t d k)
    ∙ ap (λ l. cleanup k.tasks d ++ l) (cleanups-unlink t ds k)

All-Member-without :
    (t : ℕ) (ds ts : List ℕ)
    → NotIn t ds
    → All (λ d. Member d ts) ds
    → All (λ d. Member d (without t ts)) ds
All-Member-without t [] ts out all = tt
All-Member-without t (d ∷ ds) ts out all =
    (Member-without d t ts out.0 all.0, All-Member-without t ds ts out.1 all.1)

-- The state of the reaper before a round: the dead tasks that are left, and the ring.
record IsReaping (k : Kernel) (at : ℕ) (ds ts : List ℕ) : Type 0 where
  chain : Chain (next_of k.tasks) at ds
  dead : Distinct ds
  members : All (λ d. Member d ts) ds
  distinct : Distinct ts
  ring : IsRing k ts

unlink-IsReaping :
    (k : Kernel) (at d : ℕ) (ds ts : List ℕ)
    → IsReaping k at (d ∷ ds) ts
    → IsReaping (unlink_task d k) ((k.tasks d).sched_next) ds (without d ts)
unlink-IsReaping k at d ds ts s =
    let links : next_of (unlink_task d k).tasks ≡ next_of k.tasks =
      fun_ext λ y. unlink-sched_next d k y in
    record {
      chain = rw links s.chain.2;
      dead = s.dead.1;
      members = All-Member-without d ds ts s.dead.0 s.members.1;
      distinct = Distinct-without d ts s.distinct;
      ring = unlink_task-IsRing d k ts s.distinct s.members.0 s.ring;
    }

dead-unlink : (d : ℕ) (k : Kernel) → (unlink_task d k).dead_task_list ≡ k.dead_task_list
unfolding unlink_task
dead-unlink d k = refl

reap_loop_end : (fuel : ℕ) (k : Kernel) → reap_loop fuel 0 k ≡ (k, [])
unfolding reap_loop
reap_loop_end zero k = refl
reap_loop_end (suc fuel) k = refl

reap_loop_step :
    (fuel d : ℕ) (k : Kernel)
    → d ≢ 0
    → reap_loop (suc fuel) d k ≡ (
      (reap_loop fuel (k.tasks d).sched_next (unlink_task d k)).0,
      cleanup k.tasks d ++ (reap_loop fuel (k.tasks d).sched_next (unlink_task d k)).1,
    )
unfolding reap_loop
reap_loop_step fuel d k ne = rw (ne→== d 0 ne, cleanup-unlink d d k)

-- What the reaper is to have done.
abbrev pub Reaped : Kernel → List ℕ → List ℕ → Kernel × List ReapCall → Type 0
Reaped k ds ts (k', calls) =
    (k'.dead_task_list ≡ k.dead_task_list)
    × IsRing k' (without_all ds ts)
    × (calls ≡ cleanups k.tasks ds)

reap_loop-Reaped :
    (fuel at : ℕ) (k : Kernel) (ds ts : List ℕ)
    → IsReaping k at ds ts
    → length ds ≤ fuel
    → Reaped k ds ts (reap_loop fuel at k)
reap_loop-Reaped fuel at k [] ts s h = rw (s.chain, reap_loop_end fuel k) (refl, s.ring, refl)
reap_loop-Reaped zero at k (d ∷ ds) ts s h = absurd (omega arith)
reap_loop-Reaped (suc fuel) at k (d ∷ ds) ts s h =
    let (list, ring, calls) =
      reap_loop-Reaped fuel (k.tasks d).sched_next (unlink_task d k) ds (without d ts)
        (unlink-IsReaping k at d ds ts s) (omega arith) in
    rw (s.chain.0, reap_loop_step fuel d k s.chain.1)
      (
        list ∙ dead-unlink d k,
        ring,
        ap (λ l. cleanup k.tasks d ++ l) (calls ∙ cleanups-unlink d ds k),
      )

IsRing-drop : (k : Kernel) (ts : List ℕ) → IsRing k ts → IsRing (record k { dead_task_list = 0 }) ts
IsRing-drop k [] ring = ring
IsRing-drop k (x ∷ xs) ring = ring

-- The reaper on a list `ds` of dead tasks, each of them in the ring `ts` of all tasks: with fuel for
-- each of them, the list of dead tasks is empty afterwards, the ring has the other tasks in their
-- order, and every dead task is cleaned up once, in the order of the list.
pub sched_reap_lem :
    (fuel : ℕ) (k : Kernel) (ds ts : List ℕ)
    → Chain (next_of k.tasks) k.dead_task_list ds
    → Distinct ds
    → All (λ d. Member d ts) ds
    → Distinct ts
    → IsRing k ts
    → length ds ≤ fuel
    → Reaped (record k { dead_task_list = 0 }) ds ts (sched_reap fuel k)
unfolding sched_reap
sched_reap_lem fuel k ds ts c dead m d ring h =
    reap_loop-Reaped fuel k.dead_task_list (record k { dead_task_list = 0 }) ds ts
      (record { chain = c; dead = dead; members = m; distinct = d; ring = IsRing-drop k ts ring }) h
