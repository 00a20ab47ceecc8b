-- ===== src/Sched/Members.antt =====
-- The circular list of all tasks as a list: its members, and the list without one of them.
use kernel_smp.Base.{
  ℕ, ◌≡◌, ◌≢◌, sym, ap, ◌∙◌, false, ◌⊎◌, inl, inr, List, [], ◌∷◌, ◌++◌, ◌==◌, if◌then◌else◌,
  ==_refl, ne→==, ℕ_discrete,
}
use kernel_smp.RunQueue.Chain.{NotIn, Distinct}
use kernel_smp.Task.{Tasks}
use kernel_smp.Sched.{Kernel}
use kernel_smp.Sched.Circle.{Linked}

abbrev pub forth : Tasks → ℕ → ℕ
forth tasks t = (tasks t).next

abbrev pub rear : Tasks → ℕ → ℕ
rear tasks t = (tasks t).prev

-- The tasks from `root_task` on.
abbrev pub IsRing : Kernel → List ℕ → Type 0
IsRing k [] = k.root_task ≡ 0
IsRing k (x ∷ xs) = (k.root_task ≡ x) × Linked (forth k.tasks) (rear k.tasks) x xs x

abbrev pub Member : ℕ → List ℕ → Type 0
Member t [] = ⊥
Member t (x ∷ xs) = (t ≡ x) ⊎ Member t xs

abbrev pub without : ℕ → List ℕ → List ℕ
without t [] = []
without t (x ∷ xs) = if t == x then xs else x ∷ without t xs

pub NotIn-Member : (t : ℕ) (xs : List ℕ) → NotIn t xs → ¬ Member t xs
NotIn-Member t [] out m = m
NotIn-Member t (x ∷ xs) out (inl e) = out.0 e
NotIn-Member t (x ∷ xs) out (inr m) = NotIn-Member t xs out.1 m

-- The two parts of the list round the member `t`.
pub record Split (t : ℕ) (xs : List ℕ) : Type 0 where
  pub before : List ℕ
  pub after : List ℕ
  pub whole : xs ≡ before ++ (t ∷ after)
  pub rest : without t xs ≡ before ++ after

pub split : (t : ℕ) (xs : List ℕ) → Member t xs → Split t xs
split t [] m = elim m [ ]
split t (x ∷ xs) (inl e) = record {
  before = [];
  after = xs;
  whole = ap (λ y. y ∷ xs) (sym e);
  rest = rw (e, ==_refl x);
}
split t (x ∷ xs) (inr m) = elim (ℕ_discrete t x) [
  | yes e ↦ record {
    before = [];
    after = xs;
    whole = ap (λ y. y ∷ xs) (sym e);
    rest = rw (e, ==_refl x);
  }
  | no ne ↦
      let s = split t xs m in
      record {
        before = x ∷ s.before;
        after = s.after;
        whole = ap (λ ys. x ∷ ys) s.whole;
        rest = rw (ne→== t x ne) (ap (λ ys. x ∷ ys) s.rest);
      }
]

pub Member-without : (d t : ℕ) (xs : List ℕ) → t ≢ d → Member d xs → Member d (without t xs)
Member-without d t [] ne m = m
Member-without d t (x ∷ xs) ne (inl e) =
    let same : (t == x) ≡ false = ne→== t x (λ h. ne (h ∙ sym e)) in rw same (inl e)
Member-without d t (x ∷ xs) ne (inr m) = elim (ℕ_discrete t x) [
  | yes e ↦ rw (e, ==_refl x) m
  | no other ↦ rw (ne→== t x other) (inr (Member-without d t xs ne m))
]

NotIn-without : (d t : ℕ) (xs : List ℕ) → NotIn d xs → NotIn d (without t xs)
NotIn-without d t [] out = tt
NotIn-without d t (x ∷ xs) out = elim (ℕ_discrete t x) [
  | yes e ↦ rw (e, ==_refl x) out.1
  | no other ↦ rw (ne→== t x other) (out.0, NotIn-without d t xs out.1)
]

pub Distinct-without : (t : ℕ) (xs : List ℕ) → Distinct xs → Distinct (without t xs)
Distinct-without t [] d = tt
Distinct-without t (x ∷ xs) d = elim (ℕ_discrete t x) [
  | yes e ↦ rw (e, ==_refl x) d.1
  | no other ↦ rw (ne→== t x other) (NotIn-without x t xs d.0, Distinct-without t xs d.1)
]
