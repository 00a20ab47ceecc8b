-- ===== src/RunQueue/Queues.antt =====
-- The run queues of a CPU as a list of tasks for each level: the abstract state that the operations
-- of the queues are stated on.
use kernel_smp.Base.{
  ℕ, ◌≡◌, ◌≢◌, List, [], ◌∷◌, length, All, ℕ_discrete, update, update_self, update_ne, subst, u32,
}
use kernel_smp.Task.{Tasks, Cpu}
use kernel_smp.RunQueue.Chain.{Chain, Distinct, Apart, last}

abbrev pub next_of : Tasks → ℕ → ℕ
next_of tasks t = (tasks t).sched_next

pub record Queues (cpu : Cpu) (tasks : Tasks) (q : ℕ → List ℕ) : Type 0 where
  pub chain : (p : ℕ) → Chain (next_of tasks) (cpu.rq_head p) (q p)
  pub tail : (p : ℕ) → cpu.rq_tail p ≡ last (q p)
  pub count : (p : ℕ) → cpu.rq_count p ≡ u32 (length (q p))
  pub distinct : (p : ℕ) → Distinct (q p)
  pub apart : (p r : ℕ) → p ≢ r → Apart (q p) (q r)

pub All-intro {ℓ κ} : {A : Type ℓ} (P : A → Type κ) (xs : List A) → ((x : A) → P x) → All P xs
All-intro P [] h = tt
All-intro P (x ∷ xs) h = (h x, All-intro P xs h)

-- A fact about one level and a fact about the others make a fact about all.
pub by_level {ℓ} :
    (P : ℕ → List ℕ → Type ℓ) (q : ℕ → List ℕ) (p : ℕ) (xs : List ℕ)
    → P p xs
    → ((r : ℕ) → p ≢ r → P r (q r))
    → (r : ℕ) → P r (update q p xs r)
by_level P q p xs here there r = elim (ℕ_discrete p r) [
  | yes e ↦ subst (λ r. P r (update q p xs r)) e (rw (update_self q p xs) here)
  | no ne ↦ rw (update_ne q p r xs ne) (there r ne)
]
