-- ===== src/Mutex/Handoff/Tests.antt =====
-- The theorems of the mutex at runs of a few tasks.
use kernel_smp.Base.{◌≡◌, refl, false, [], ◌∷◌, arith}
use kernel_smp.Task.{Task, TaskState, Reason}
use kernel_smp.Mutex.{unlocked, lock_round, release}
use kernel_smp.Mutex.Handoff.{
  locks, unlocks, step, run, granted, rounds, exclusive_grant, unlock_loses,
}

abbrev task : Task
task = record {
  tid = 1;
  rsp = 0;
  stack_base = 0;
  stack_size = 0;
  state = TaskState.running;
  wait_reason = Reason.mutex;
  cr3 = 0;
  next = 0;
  prev = 0;
  sched_next = 0;
  priority = 1;
  base_priority = 1;
  cpu_id = 0;
  sleep_until = 0;
}

exclusive_grant_example :
    ((run (locks 8 ∷ unlocks ∷ []) (unlocked, λ t. task)).0.owner ≡ 0)
    × ((step (locks 8) (run (locks 8 ∷ unlocks ∷ []) (unlocked, λ t. task))).0.owner ≡ 8)
    × (granted 16 (step (locks 8) (run (locks 8 ∷ unlocks ∷ []) (unlocked, λ t. task))) ≡ false)
unfolding run step lock_round release
exclusive_grant_example = exclusive_grant (locks 8 ∷ unlocks ∷ []) (λ t. task) 8 16 refl

unlock_loses_example :
    ((run
        (unlocks ∷ rounds (8 ∷ 16 ∷ []))
        (record { count = 0; wait_list = 16; owner = 8 }, λ t. task)).0.owner
      ≡ 0)
    × (granted 24 (
          run
            (unlocks ∷ rounds (8 ∷ 16 ∷ []))
            (record { count = 0; wait_list = 16; owner = 8 }, λ t. task))
        ≡ false)
unlock_loses_example =
    unlock_loses (record { count = 0; wait_list = 16; owner = 8 }) (λ t. task) refl
      (λ e. absurd (omega (arith, e))) (8 ∷ 16 ∷ []) 24
