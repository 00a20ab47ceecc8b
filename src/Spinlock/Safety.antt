-- ===== src/Spinlock/Safety.antt =====
-- What holds of the spinlock in every state that fewer than `2 ^ 32` steps reach.
use kernel_smp.Base.{ℕ, ◌^◌, ◌<◌, ◌≡◌, ◌≢◌, ◌⊎◌, true, arith}
use kernel_smp.Spinlock.{spinning, System, Reach, owns}
use kernel_smp.Spinlock.Invariant.{Reach-Inv}

-- Within 2^32 - 1 accesses from the free lock, with locking enabled, no two CPUs own the lock at
-- once, by `spin_lock` or by `spin_trylock`, in any interleaving of their accesses.
pub mutual_exclusion :
    {k : ℕ} {s : System}
    → k < 2 ^ 32
    → Reach true k s
    → (i j : ℕ) → owns (s.pc i) ≡ true
    → owns (s.pc j) ≡ true
    → i ≡ j
mutual_exclusion {s = s} few r i j in_i in_j =
    let inv = Reach-Inv few r in
    inv.unique i j s.lock.current (ground (arith, inv.fits i)) (ground (arith, inv.fits j))

-- While some CPU spins, a CPU owns the lock or a CPU holds the ticket that is being served and
-- leaves its loop at its next access: the queue never stands still for want of an owner.
pub no_deadlock :
    {k t : ℕ} {s : System}
    → k < 2 ^ 32
    → Reach true k s
    → (i : ℕ) → s.pc i ≡ spinning t
    → (j : ℕ) × ((owns (s.pc j) ≡ true) ⊎ (s.pc j ≡ spinning s.lock.current))
no_deadlock {s = s} few r i e =
    let inv = Reach-Inv few r in
    let (j, held) = inv.covered s.lock.current (omega arith) (ground (arith, inv.fits i)) in
    (j, ground arith)

-- Service is in the order of the tickets: of two CPUs that spin, the one with the later ticket
-- cannot enter first, for at its turn the other has a ticket that was served before.
pub in_order :
    {k a b : ℕ} {s : System}
    → k < 2 ^ 32
    → Reach true k s
    → (i j : ℕ) → s.pc i ≡ spinning a
    → s.pc j ≡ spinning b
    → a < b
    → s.lock.current ≢ b
in_order few r i j ei ej lt e = let inv = Reach-Inv few r in ground (arith, inv.fits i)
