-- ===== src/Spinlock.antt =====
-- The ticket spinlock of kernel/atomic/atomic.c and kernel/include/atomic/atomic.h, as the steps of
-- any number of CPUs. A CPU makes one shared access at a time, in any order with the others.
pub mod Invariant
pub mod Safety
use kernel_smp.Base.{
  ℕ, zero, suc, ◌+◌, ◌%◌, ◌^◌, ◌≡◌, ◌≢◌, Bool, true, false, Option, none, some, update, u32,
}

pub record Lock : Type 0 where
  pub ticket : ℕ
  pub current : ℕ
  pub last_cpu : Option ℕ  -- `none` is -1

-- Where a CPU stands in `spin_lock`, `spin_trylock` or `spin_unlock`.
pub data Pc : Type 0 where
  idle : Pc
  spinning : ℕ → Pc  -- the loop of `spin_lock`, with `my_ticket`
  acquired : Pc  -- before `last_cpu` is written
  loaded : ℕ → Pc  -- `spin_trylock` has read `ticket`
  matched : ℕ → Pc  -- and has found `current` equal to it
  critical : Pc
  cleared : Pc  -- `spin_unlock` has reset `last_cpu`
  releasing : ℕ → Pc  -- and has read `current`

-- One access of CPU `cpu`, with `enabled` for `g_lock_enabled`. `spin_trylock` does not read it.
pub data Move (enabled : Bool) (cpu : ℕ) (m : Lock) : Pc → Lock → Pc → Type 0 where
  disabled_lock : enabled ≡ false → Move enabled cpu m idle m critical
  disabled_unlock : enabled ≡ false → Move enabled cpu m critical m idle
  take :
      enabled ≡ true
      → Move enabled cpu m idle (record m { ticket = u32 (m.ticket + 1) }) (spinning m.ticket)
  pause : {t : ℕ} → m.current ≢ t → Move enabled cpu m (spinning t) m (spinning t)
  served : {t : ℕ} → m.current ≡ t → Move enabled cpu m (spinning t) m acquired
  sign : Move enabled cpu m acquired (record m { last_cpu = some cpu }) critical
  try_load : Move enabled cpu m idle m (loaded m.ticket)
  try_busy : {t : ℕ} → m.current ≢ t → Move enabled cpu m (loaded t) m idle
  try_match : {t : ℕ} → m.current ≡ t → Move enabled cpu m (loaded t) m (matched t)
  cas_win :
      {t : ℕ}
      → m.ticket ≡ t
      → Move enabled cpu m (matched t) (record m { ticket = u32 (t + 1) }) acquired
  cas_lose : {t : ℕ} → m.ticket ≢ t → Move enabled cpu m (matched t) m idle
  clear : enabled ≡ true → Move enabled cpu m critical (record m { last_cpu = none }) cleared
  read : Move enabled cpu m cleared m (releasing m.current)
  release : {t : ℕ} → Move enabled cpu m (releasing t) (record m { current = u32 (t + 1) }) idle

pub record System : Type 0 where
  pub lock : Lock
  pub pc : ℕ → Pc

pub data Step (enabled : Bool) (s : System) : System → Type 0 where
  pick :
      (cpu : ℕ) {m : Lock} {p : Pc}
      → Move enabled cpu s.lock (s.pc cpu) m p
      → Step enabled s (record { lock = m; pc = update s.pc cpu p })

-- `{ .ticket = 0, .current = 0, .last_cpu = -1 }`
abbrev pub unlocked : Lock
unlocked = record { ticket = 0; current = 0; last_cpu = none }

abbrev pub init : System
init = record { lock = unlocked; pc = λ _. idle }

-- What `k` steps reach.
pub data Reach (enabled : Bool) : ℕ → System → Type 0 where
  start : Reach enabled 0 init
  later : {k : ℕ} {s t : System} → Reach enabled k s → Step enabled s t → Reach enabled (suc k) t

-- The CPU has the lock: from the end of the wait to the store that lets the next CPU in.
abbrev pub owns : Pc → Bool
owns acquired = true
owns critical = true
owns cleared = true
owns (releasing _) = true
owns _ = false
