-- ===== src/RunQueue/Dequeue.antt =====
-- `dequeue_task` takes the head of one of the three levels that it serves.
use kernel_smp.Base.{
  ℕ, ◌≡◌, ◌≢◌, ◌∙◌, ap, List, [], ◌∷◌, length, arith, update, update_self, update_ne, u32, ◌==◌,
  if◌then◌else◌, ne→==,
}
use kernel_smp.Task.{Tasks, Cpu}
use kernel_smp.RunQueue.{take_head, reset_quanta}
use kernel_smp.RunQueue.Chain.{Chain, Distinct, Apart, last}
use kernel_smp.RunQueue.Queues.{next_of, Queues, by_level}

pub reset_quanta-Queues :
    {cpu : Cpu} {tasks : Tasks} {q : ℕ → List ℕ} (p : ℕ)
    → Queues cpu tasks q
    → Queues (reset_quanta p cpu) tasks q
reset_quanta-Queues p inv = record {
  chain = inv.chain;
  tail = inv.tail;
  count = inv.count;
  distinct = inv.distinct;
  apart = inv.apart;
}

-- NULL behind the head means that the rest is empty.
rest_last :
    (next : ℕ → ℕ) (h t tail : ℕ) (rest : List ℕ)
    → Chain next h rest
    → tail ≡ last (t ∷ rest)
    → (if h == 0 then 0 else tail) ≡ last rest
rest_last next h t tail [] c e = rw c
rest_last next h t tail (x ∷ rest) c e = rw (ne→== h 0 (rw c.0 c.1)) e

Apart-tail : (x : ℕ) (xs ys : List ℕ) → Apart ys (x ∷ xs) → Apart ys xs
Apart-tail x xs [] a = tt
Apart-tail x xs (y ∷ ys) a = (a.0.1, Apart-tail x xs ys a.1)

module _ {cpu : Cpu} {tasks : Tasks} {q : ℕ → List ℕ} (inv : Queues cpu tasks q) (p t : ℕ)
    (rest : List ℕ) (e : q p ≡ t ∷ rest) where
  open inv use {chain, tail, count, distinct, apart}

  old : Chain (next_of tasks) (cpu.rq_head p) (t ∷ rest)
  old = rw e at (chain p)

  pub take_head-head : (take_head p cpu tasks).1 ≡ t
  unfolding take_head
  take_head-head = old.0

  abbrev cpu' : Cpu
  cpu' = (take_head p cpu tasks).0

  head_here : cpu'.rq_head p ≡ next_of tasks t
  unfolding take_head
  head_here = update_self cpu.rq_head p _ ∙ ap (next_of tasks) old.0

  head_there : (r : ℕ) → p ≢ r → cpu'.rq_head r ≡ cpu.rq_head r
  unfolding take_head
  head_there r ne = update_ne cpu.rq_head p r _ ne

  tail_here : cpu'.rq_tail p ≡ (if next_of tasks t == 0 then 0 else cpu.rq_tail p)
  unfolding take_head
  tail_here = rw old.0 (ground arith)

  tail_there : (r : ℕ) → p ≢ r → cpu'.rq_tail r ≡ cpu.rq_tail r
  unfolding take_head
  tail_there r ne = ground arith

  count_here : cpu'.rq_count p ≡ u32 (length rest)
  unfolding take_head
  count_here = rw update_self (omega (arith, count p, ap length e))

  count_there : (r : ℕ) → p ≢ r → cpu'.rq_count r ≡ cpu.rq_count r
  unfolding take_head
  count_there r ne = update_ne cpu.rq_count p r _ ne

  pub take_head-Queues : Queues (take_head p cpu tasks).0 tasks (update q p rest)
  take_head-Queues = record {
    chain =
        by_level (λ r xs. Chain (next_of tasks) (cpu'.rq_head r) xs) q p rest (rw head_here old.2)
          (λ r ne. rw (head_there r ne) (chain r));
    tail =
        by_level (λ r xs. cpu'.rq_tail r ≡ last xs) q p rest
          (tail_here ∙ rest_last (next_of tasks) _ t _ rest old.2 (tail p ∙ rw e))
          (λ r ne. tail_there r ne ∙ tail r);
    count =
        by_level (λ r xs. cpu'.rq_count r ≡ u32 (length xs)) q p rest count_here
          (λ r ne. count_there r ne ∙ count r);
    distinct =
        by_level (λ r xs. Distinct xs) q p rest (rw e at (distinct p)).1 (λ r ne. distinct r);
    apart =
        by_level (λ a xs. (b : ℕ) → a ≢ b → Apart xs (update q p rest b)) q p rest
          (λ b ne. rw (update_ne q p b rest ne) (rw e at (apart p b ne)).1)
          (λ a ne.
            by_level (λ b ys. a ≢ b → Apart (q a) ys) q p rest
              (λ d. Apart-tail t rest (q a) (rw e at (apart a p d))) (λ b _ d. apart a b d));
  }
