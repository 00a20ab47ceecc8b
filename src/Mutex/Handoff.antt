-- ===== src/Mutex/Handoff.antt =====
-- Who gets the mutex, and what `mutex_unlock` does for a task that waits.
mod Tests
use kernel_smp.Base.{
  ℕ, zero, suc, ◌<◌, ◌≡◌, ◌≢◌, refl, arith, Bool, true, false, List, [], ◌∷◌, Option, none, some,
  ltb, ◌==◌, if◌then◌else◌, All, ◌⊎◌, inl, inr, Bool-cases, ne→==,
}
use kernel_smp.Task.{Tasks}
use kernel_smp.Mutex.{Mutex, lock_round, release, unlocked}

-- The operations on a mutex: a round of `mutex_lock` by a task, and `mutex_unlock`.
pub data Op : Type 0 where
  locks : ℕ → Op
  unlocks : Op

pub step : Op → Mutex × Tasks → Mutex × Tasks
step (locks t) (m, tasks) = let (m', tasks', _) = lock_round t m tasks in (m', tasks')
step unlocks (m, tasks) = let (m', tasks', _) = release m tasks in (m', tasks')

pub run : List Op → Mutex × Tasks → Mutex × Tasks
run [] s = s
run (o ∷ os) s = run os (step o s)

-- The task of a round gets the mutex.
abbrev pub granted : ℕ → Mutex × Tasks → Bool
granted t (m, tasks) = (lock_round t m tasks).2

-- An owned mutex has no count left.
abbrev IsExclusive : Mutex → Type 0
IsExclusive m = (m.owner ≡ 0) ⊎ (m.count ≡ 0)

step-IsExclusive : (o : Op) (s : Mutex × Tasks) → IsExclusive s.0 → IsExclusive (step o s).0
unfolding step lock_round release
step-IsExclusive (locks t) (m, tasks) h = ground arith
step-IsExclusive unlocks (m, tasks) h = ground arith

run-IsExclusive : (os : List Op) (s : Mutex × Tasks) → IsExclusive s.0 → IsExclusive (run os s).0
unfolding run
run-IsExclusive [] s h = h
run-IsExclusive (o ∷ os) s h = run-IsExclusive os (step o s) (step-IsExclusive o s h)

granted-count : (t : ℕ) (s : Mutex × Tasks) → granted t s ≡ true → 0 < s.0.count
unfolding lock_round
granted-count t (m, tasks) g = ground arith

-- After any operations on a new mutex, a round of `mutex_lock` gets the mutex only while nobody
-- owns it, and then its task is the owner and no other task gets it in the next round.
pub exclusive_grant :
    (os : List Op) (tasks : Tasks) (t u : ℕ)
    → granted t (run os (unlocked, tasks)) ≡ true
    → ((run os (unlocked, tasks)).0.owner ≡ 0)
      × ((step (locks t) (run os (unlocked, tasks))).0.owner ≡ t)
      × (granted u (step (locks t) (run os (unlocked, tasks))) ≡ false)
unfolding step lock_round
exclusive_grant os tasks t u g =
    let inv = run-IsExclusive os (unlocked, tasks) (inl refl) in
    let pos = granted-count t (run os (unlocked, tasks)) g in
    (ground arith, ground arith, ground arith)

abbrev pub rounds : List ℕ → List Op
rounds [] = []
rounds (t ∷ ts) = locks t ∷ rounds ts

step_lost :
    (t : ℕ) (s : Mutex × Tasks)
    → (s.0.count ≡ 0) × (s.0.owner ≡ 0)
    → ((step (locks t) s).0.count ≡ 0) × ((step (locks t) s).0.owner ≡ 0)
unfolding step lock_round
step_lost t (m, tasks) h = ground arith

release_lost :
    (m : Mutex) (tasks : Tasks)
    → m.count ≡ 0
    → m.wait_list ≢ 0
    → ((step unlocks (m, tasks)).0.count ≡ 0) × ((step unlocks (m, tasks)).0.owner ≡ 0)
unfolding step release
release_lost m tasks held waits = ground arith

stays_lost :
    (ts : List ℕ) (s : Mutex × Tasks)
    → (s.0.count ≡ 0) × (s.0.owner ≡ 0)
    → ((run (rounds ts) s).0.count ≡ 0) × ((run (rounds ts) s).0.owner ≡ 0)
unfolding run
stays_lost [] s h = h
stays_lost (t ∷ ts) s h = stays_lost ts (step (locks t) s) (step_lost t s h)

-- When the owner unlocks a mutex for which a task waits, the task is woken but the mutex is given
-- to nobody and made free for nobody: it has no owner, and as long as nobody unlocks it once more
-- no round of `mutex_lock`, by the woken task or any other, in any number and order, gets it.
pub unlock_loses :
    (m : Mutex) (tasks : Tasks)
    → m.count ≡ 0
    → m.wait_list ≢ 0
    → (ts : List ℕ) (t : ℕ)
    → ((run (unlocks ∷ rounds ts) (m, tasks)).0.owner ≡ 0)
      × (granted t (run (unlocks ∷ rounds ts) (m, tasks)) ≡ false)
unfolding run lock_round
unlock_loses m tasks held waits ts t =
    let lost = stays_lost ts (step unlocks (m, tasks)) (release_lost m tasks held waits) in
    (lost.1, ground arith)
