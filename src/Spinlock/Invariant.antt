-- ===== src/Spinlock/Invariant.antt =====
-- Which CPU holds which ticket, kept by every step while fewer than `2 ^ 32` steps were made.
use kernel_smp.Base.{
  ℕ, suc, ◌+◌, ◌^◌, ◌≤◌, ◌<◌, ◌≡◌, ◌≢◌, refl, true, false, Option, none, some, update, arith,
  ℕ_discrete,
}
use kernel_smp.Spinlock.{
  Lock, Pc, idle, spinning, loaded, matched, releasing, Move, disabled_lock, disabled_unlock, take,
  pause, served, try_match, cas_win, release, System, Step, pick, Reach, start, later,
}

abbrev pub ticket_of : Lock → Pc → Option ℕ
ticket_of m idle = none
ticket_of m (spinning t) = some t
ticket_of m (loaded t) = none
ticket_of m (matched t) = none
ticket_of m _ = some m.current

-- What the local state of a CPU says of the lock.
abbrev pub Fits : Lock → Pc → Type 0
Fits m idle = Unit {0}
Fits m (spinning t) = (m.current ≤ t) × (t < m.ticket)
Fits m (loaded t) = t ≤ m.ticket
Fits m (matched t) = t ≤ m.current
Fits m (releasing t) = (t ≡ m.current) × (m.current < m.ticket)
Fits m _ = m.current < m.ticket

pub record Inv (k : ℕ) (m : Lock) (pc : ℕ → Pc) : Type 0 where
  pub few : m.ticket ≤ k
  pub order : m.current ≤ m.ticket
  pub fits : (i : ℕ) → Fits m (pc i)
  pub unique : (i j t : ℕ) → ticket_of m (pc i) ≡ some t → ticket_of m (pc j) ≡ some t → i ≡ j
  pub covered : (t : ℕ) → m.current ≤ t → t < m.ticket → (i : ℕ) × (ticket_of m (pc i) ≡ some t)

-- The premise of a move, for the catch-all clauses below.
abbrev Premise : {c : ℕ} {m m' : Lock} {p p' : Pc} → Move true c m p m' p' → Type 0
Premise (disabled_lock e) = true ≡ false
Premise (disabled_unlock e) = true ≡ false
Premise {m} (pause {t} h) = m.current ≢ t
Premise {m} (served {t} h) = m.current ≡ t
Premise {m} (try_match {t} h) = m.current ≡ t
Premise {m} (cas_win {t} h) = m.ticket ≡ t
Premise _ = Unit

premise : {c : ℕ} {m m' : Lock} {p p' : Pc} (mv : Move true c m p m' p') → Premise mv
premise (disabled_lock e) = e
premise (disabled_unlock e) = e
premise (pause h) = h
premise (served h) = h
premise (try_match h) = h
premise (cas_win h) = h
premise _ = tt

module _ {k : ℕ} {m : Lock} {pc : ℕ → Pc} (inv : Inv k m pc) (few_steps : k + 1 < 2 ^ 32)
    (i : ℕ) where
  open inv use {few, order, fits, unique, covered}

  Move-bounds :
      {p p' : Pc} {m' : Lock}
      → Move true i m p m' p'
      → pc i ≡ p
      → (m'.ticket ≤ suc k) × (m'.current ≤ m'.ticket)
  Move-bounds (take e) here = ground (arith, fits i)
  Move-bounds mv here = ground (arith, premise mv, fits i)

  Move-Fits :
      {p p' : Pc} {m' : Lock}
      → Move true i m p m' p'
      → pc i ≡ p
      → (j : ℕ) → Fits m' (update pc i p' j)
  Move-Fits (take e) here j = ground (arith, fits i, fits j)
  Move-Fits mv here j = ground (arith, premise mv, fits i, fits j, unique i j m.current)

  Move-unique :
      {p p' : Pc} {m' : Lock}
      → Move true i m p m' p'
      → pc i ≡ p
      → (a b t : ℕ) → ticket_of m' (update pc i p' a) ≡ some t
      → ticket_of m' (update pc i p' b) ≡ some t
      → a ≡ b
  Move-unique (take e) here a b t qa qb = ground (arith, fits a, fits b, unique a b t)
  Move-unique mv here a b t qa qb = ground (
    arith,
    premise mv,
    fits i,
    fits a,
    fits b,
    unique a b t,
    unique i a m.current,
    unique i b m.current,
  )

  -- A fresh ticket belongs to the CPU that drew it; the others stay with their CPUs.
  Move-covered :
      {p p' : Pc} {m' : Lock}
      → Move true i m p m' p'
      → pc i ≡ p
      → (t : ℕ) → m'.current ≤ t
      → t < m'.ticket
      → (j : ℕ) × (ticket_of m' (update pc i p' j) ≡ some t)
  Move-covered (take e) here t lo hi = elim (ℕ_discrete t m.ticket) [
    | yes fresh ↦ (i, ground arith)
    | no old ↦ let (j, held) = covered t lo (omega arith) in (j, ground arith)
  ]
  Move-covered (cas_win h) here t lo hi = elim (ℕ_discrete t m.ticket) [
    | yes fresh ↦ (i, ground (arith, fits i))
    | no old ↦ let (j, held) = covered t lo (omega arith) in (j, ground (arith, fits i))
  ]
  Move-covered release here t lo hi =
      let (j, held) = covered t (ground (arith, fits i)) hi in (j, ground (arith, fits i, fits j))
  Move-covered mv here t lo hi =
      let (j, held) = covered t (ground (arith, premise mv)) (ground (arith, premise mv)) in
      (j, ground (arith, premise mv))

  pub Move-Inv :
      {p' : Pc} {m' : Lock} → Move true i m (pc i) m' p' → Inv (suc k) m' (update pc i p')
  Move-Inv mv = record {
    few = (Move-bounds mv refl).0;
    order = (Move-bounds mv refl).1;
    fits = Move-Fits mv refl;
    unique = Move-unique mv refl;
    covered = Move-covered mv refl;
  }

Step-Inv :
    {k : ℕ} {s t : System}
    → k + 1 < 2 ^ 32
    → Step true s t
    → Inv k s.lock s.pc
    → Inv (suc k) t.lock t.pc
Step-Inv few (pick cpu mv) inv = Move-Inv inv few cpu mv

pub Reach-Inv : {k : ℕ} {s : System} → k < 2 ^ 32 → Reach true k s → Inv k s.lock s.pc
Reach-Inv few start = record {
  few = omega arith;
  order = omega arith;
  fits = λ i. tt;
  unique = λ i j t a b. cc;
  covered = λ t lo hi. absurd (omega arith);
}
Reach-Inv {k = suc k} few (later r st) = Step-Inv (omega arith) st (Reach-Inv (omega arith) r)
