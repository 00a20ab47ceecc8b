-- ===== src/Sched/Reap/Unlink.antt =====
-- `unlink_task` on the circular list of all tasks.
use kernel_smp.Base.{
  ℕ, ◌≡◌, ◌≢◌, sym, subst, ◌∙◌, fun_ext, inl, inr, List, [], ◌∷◌, ◌++◌, ◌==◌, ==_refl, false, ne→==,
  update, arith,
}
use kernel_smp.RunQueue.Chain.{NotIn, Distinct}
use kernel_smp.Sched.{Kernel}
use kernel_smp.Sched.Reap.{unlink_task}
use kernel_smp.Sched.Circle.{Linked, Linked-remove, Linked-remove_first}
use kernel_smp.Sched.Members.{forth, rear, IsRing, Member, NotIn-Member, without, split}

-- The links afterwards, whatever the neighbours of `t` are.
forth-unlink :
    (t : ℕ) (k : Kernel)
    → forth (unlink_task t k).tasks ≡ update (forth k.tasks) (rear k.tasks t) (forth k.tasks t)
unfolding unlink_task
forth-unlink t k = fun_ext λ y. ground arith

rear-unlink :
    (t : ℕ) (k : Kernel)
    → rear (unlink_task t k).tasks ≡ update (rear k.tasks) (forth k.tasks t) (rear k.tasks t)
unfolding unlink_task
rear-unlink t k = fun_ext λ y. ground arith

-- What the reaper reads of a task is left as it is.
pub unlink-sched_next :
    (t : ℕ) (k : Kernel) (y : ℕ) → ((unlink_task t k).tasks y).sched_next ≡ (k.tasks y).sched_next
unfolding unlink_task
unlink-sched_next t k y = ground arith

pub unlink-tid : (t : ℕ) (k : Kernel) (y : ℕ) → ((unlink_task t k).tasks y).tid ≡ (k.tasks y).tid
unfolding unlink_task
unlink-tid t k y = ground arith

pub unlink-stack_base :
    (t : ℕ) (k : Kernel) (y : ℕ) → ((unlink_task t k).tasks y).stack_base ≡ (k.tasks y).stack_base
unfolding unlink_task
unlink-stack_base t k y = ground arith

root_first :
    (x y : ℕ) (k : Kernel)
    → k.root_task ≡ x
    → (k.tasks x).next ≡ y
    → y ≢ x
    → (unlink_task x k).root_task ≡ y
unfolding unlink_task
root_first x y k r n ne = ground arith

root_last :
    (x : ℕ) (k : Kernel) → k.root_task ≡ x → (k.tasks x).next ≡ x → (unlink_task x k).root_task ≡ 0
unfolding unlink_task
root_last x k r n = ground arith

root_other : (t : ℕ) (k : Kernel) → k.root_task ≢ t → (unlink_task t k).root_task ≡ k.root_task
unfolding unlink_task
root_other t k ne = ground arith

-- The links of the rest, from those of the functions alone.
relinked :
    (t : ℕ) (k : Kernel) (x : ℕ) (xs : List ℕ)
    → Linked
        (update (forth k.tasks) (rear k.tasks t) (forth k.tasks t))
        (update (rear k.tasks) (forth k.tasks t) (rear k.tasks t))
        x
        xs
        x
    → Linked (forth (unlink_task t k).tasks) (rear (unlink_task t k).tasks) x xs x
relinked t k x xs l = rw (forth-unlink t k, rear-unlink t k) l

first :
    (t : ℕ) (k : Kernel) (xs : List ℕ)
    → Distinct (t ∷ xs)
    → IsRing k (t ∷ xs)
    → IsRing (unlink_task t k) xs
first t k [] d (r, l) = root_last t k r l.0
first t k (y ∷ ys) d (r, l) = (
  root_first t y k r l.0 (λ e. d.0.0 (sym e)),
  relinked t k y ys (Linked-remove_first (forth k.tasks) (rear k.tasks) t y ys d l),
)

later :
    (t : ℕ) (k : Kernel) (x : ℕ) (before after : List ℕ)
    → Distinct (x ∷ (before ++ (t ∷ after)))
    → x ≢ t
    → IsRing k (x ∷ (before ++ (t ∷ after)))
    → IsRing (unlink_task t k) (x ∷ (before ++ after))
later t k x before after d ne (r, l) = (
  root_other t k (λ e. ne (sym r ∙ e)) ∙ r,
  relinked t k x (before ++ after)
      (Linked-remove (forth k.tasks) (rear k.tasks) x before t after d l),
)

-- A task that is taken out leaves the others in a ring, in their order.
pub unlink_task-IsRing :
    (t : ℕ) (k : Kernel) (ts : List ℕ)
    → Distinct ts
    → Member t ts
    → IsRing k ts
    → IsRing (unlink_task t k) (without t ts)
unlink_task-IsRing t k [] d m ring = elim m [ ]
unlink_task-IsRing t k (x ∷ xs) d (inl e) ring = rw (e, ==_refl x) (first x k xs d ring)
unlink_task-IsRing t k (x ∷ xs) d (inr m) ring =
    let ne : x ≢ t = λ e. NotIn-Member t xs (subst (λ y. NotIn y xs) e d.0) m in
    let s = split t xs m in
    let other : (t == x) ≡ false = ne→== t x (λ e. ne (sym e)) in
    rw (other, s.rest)
      (later t k x s.before s.after (subst (λ ys. Distinct (x ∷ ys)) s.whole d) ne
        (subst (λ ys. IsRing k (x ∷ ys)) s.whole ring))
