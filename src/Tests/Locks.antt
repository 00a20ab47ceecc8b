-- ===== src/Tests/Locks.antt =====
-- The theorems of the spinlock at a run of three CPUs.
use kernel_smp.Base.{ℕ, ◌≡◌, ◌⊎◌, refl, true, none, update, arith}
use kernel_smp.Spinlock.{
  Pc, System, Reach, init, start, later, pick, take, served, owns, spinning, acquired,
}
use kernel_smp.Spinlock.Safety.{mutual_exclusion, no_deadlock}

abbrev after : System → ℕ → ℕ → Pc → System
after s cpu ticket p = record {
  lock = record { ticket = ticket; current = 0; last_cpu = none };
  pc = update s.pc cpu p;
}

-- CPUs 0, 1 and 2 take tickets, and CPU 0 is served.
abbrev three_takes : System
three_takes = after (after (after init 0 1 (spinning 0)) 1 2 (spinning 1)) 2 3 (spinning 2)

abbrev one_in : System
one_in = after three_takes 0 3 acquired

one_in_reached : Reach true 4 one_in
one_in_reached =
    later
      (later (later (later start (pick 0 (take refl))) (pick 1 (take refl))) (pick 2 (take refl)))
      (pick 0 (served refl))

abbrev owner : ℕ
owner = 0

mutual_exclusion_example : owner ≡ owner
mutual_exclusion_example = mutual_exclusion (omega arith) one_in_reached owner owner refl refl

no_deadlock_example : (j : ℕ) × ((owns (one_in.pc j) ≡ true) ⊎ (one_in.pc j ≡ spinning 0))
no_deadlock_example = no_deadlock (omega arith) one_in_reached 1 refl
