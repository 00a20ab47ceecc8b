-- ===== src/Vfs/Locks.antt =====
-- The locks that a lookup takes.
use kernel_smp.Base.{
  Bool, ℕ, ◌≡◌, refl, ◌∙◌, ap, List, [], ◌∷◌, ◌++◌, Option, none, some, ◌==◌, ==_refl,
  if◌then◌else◌, Bool-cases, Option-cases, inl, inr, arith, true, false,
}
use mathlib.Core.Option.{some-injective, none-ne-some}
use kernel_smp.Vfs.{
  Vfs, Event, opened, mutex_lock, mutex_unlock, call_open, call_close, call_read, call_write,
  entered, entering, walk, finddir_of, vfs_find_path, vfs_open, vfs_close, vfs_read, vfs_write,
  vfs_mount,
}

-- The events are gone through by a task that may hold one lock: `none` when it takes a second one,
-- or releases one that it does not hold.
abbrev pub replay : Option ℕ → List Event → Option (Option ℕ)
replay held [] = some held
replay none (mutex_lock p ∷ es) = replay (some p) es
replay (some q) (mutex_lock p ∷ es) = none
replay none (mutex_unlock p ∷ es) = none
replay (some q) (mutex_unlock p ∷ es) = if q == p then replay none es else none
replay held (call_open p f ∷ es) = replay held es
replay held (call_close p ∷ es) = replay held es
replay held (call_read p ∷ es) = replay held es
replay held (call_write p ∷ es) = replay held es

replay-entering :
    (s : Vfs) (current : ℕ) (es : List Event)
    → replay none ((entering s current ++ mutex_unlock (entered s current) ∷ []) ++ es)
      ≡ replay none es
replay-entering s current es = elim (Bool-cases ((s.node current).ptr == 0)) [
  | inl e ↦ rw (e, ==_refl current) refl
  | inr e ↦ rw (e, ==_refl current, ==_refl ((s.node current).ptr)) refl
]

replay-left :
    (s : Vfs) (current : ℕ)
    → replay none (entering s current ++ mutex_unlock (entered s current) ∷ []) ≡ some none
replay-left s current = elim (Bool-cases ((s.node current).ptr == 0)) [
  | inl e ↦ rw (e, ==_refl current) refl
  | inr e ↦ rw (e, ==_refl current, ==_refl ((s.node current).ptr)) refl
]

-- The events of a round of the loop.
abbrev pub round : Vfs → ℕ → List Event
round s current = entering s current ++ mutex_unlock (entered s current) ∷ []

module _ (s : Vfs) (token : List ℕ) (tokens : List (List ℕ)) (current : ℕ) where
  pub walk_stuck :
      finddir_of (s.node (entered s current)) ≡ none
      → walk s (token ∷ tokens) current ≡ (0, round s current)
  unfolding walk
  walk_stuck e = rw (e, walk)

  module _ (finddir : ℕ → List ℕ → ℕ)
      (e : finddir_of (s.node (entered s current)) ≡ some finddir) where
    pub walk_missing :
        (finddir (entered s current) token == 0) ≡ true
        → walk s (token ∷ tokens) current ≡ (0, round s current)
    unfolding walk
    walk_missing z = rw (e, walk, z)

    pub walk_on :
        (finddir (entered s current) token == 0) ≡ false
        → let rest = walk s tokens (finddir (entered s current) token) in
          walk s (token ∷ tokens) current ≡ (rest.0, round s current ++ rest.1)
    unfolding walk
    walk_on z = rw (e, walk, z)

replay-walk :
    (s : Vfs) (tokens : List (List ℕ)) (current : ℕ)
    → replay none (walk s tokens current).1 ≡ some none
unfolding walk
replay-walk s [] current = refl
replay-walk s (token ∷ tokens) current =
    let stuck : walk s (token ∷ tokens) current ≡ (0, round s current)
        → replay none (walk s (token ∷ tokens) current).1 ≡ some none =
      λ e. ap (λ (r : ℕ × List Event). replay none r.1) e ∙ replay-left s current in
    elim (Option-cases (finddir_of (s.node (entered s current)))) [
      | inl e ↦ stuck (walk_stuck s token tokens current e)
      | inr (finddir, e) ↦
          let next = finddir (entered s current) token in
          elim (Bool-cases (next == 0)) [
            | inl z ↦ stuck (walk_missing s token tokens current finddir e z)
            | inr z ↦
                ap (λ (r : ℕ × List Event). replay none r.1)
                  (walk_on s token tokens current finddir e z)
                ∙ replay-entering s current (walk s tokens next).1
                ∙ replay-walk s tokens next
          ]
    ]

vfs_find_path-replay :
    (tokens : List ℕ → List (List ℕ)) (path : List ℕ) (s : Vfs) (node : ℕ) (events : List Event)
    → vfs_find_path tokens path s ≡ some (node, events)
    → replay none events ≡ some none
unfolding vfs_find_path
vfs_find_path-replay tokens [] s node events e = ground arith
vfs_find_path-replay tokens (c ∷ []) s node events e = ground arith
vfs_find_path-replay tokens (c ∷ d ∷ rest) s node events e =
    let held = replay-walk s (tokens (d ∷ rest)) s.vfs_root in ground arith

replay-append :
    (h h' : Option ℕ) (es fs : List Event)
    → replay h es ≡ some h'
    → replay h (es ++ fs) ≡ replay h' fs
replay-append h h' [] fs e = ap (λ r. replay r fs) (some-injective h h' e)
replay-append none h' (mutex_lock p ∷ es) fs e = replay-append (some p) h' es fs e
replay-append (some q) h' (mutex_lock p ∷ es) fs e = cc
replay-append none h' (mutex_unlock p ∷ es) fs e = cc
replay-append (some q) h' (mutex_unlock p ∷ es) fs e = elim (Bool-cases (q == p)) [
  | inl same ↦ rw same (replay-append none h' es fs (rw same at e))
  | inr other ↦ absurd (none-ne-some h' (rw other at e))
]
replay-append h h' (call_open p f ∷ es) fs e = replay-append h h' es fs e
replay-append h h' (call_close p ∷ es) fs e = replay-append h h' es fs e
replay-append h h' (call_read p ∷ es) fs e = replay-append h h' es fs e
replay-append h h' (call_write p ∷ es) fs e = replay-append h h' es fs e

-- The operations of the component, with the events of a run.
pub data Runs (tokens : List ℕ → List (List ℕ)) (s : Vfs) (es : List Event) : Type 0 where
  opens :
      (path : List ℕ) (flags node : ℕ)
      → vfs_open tokens path flags s ≡ some (node, es)
      → Runs tokens s es
  closes : (node : ℕ) → vfs_close node s ≡ es → Runs tokens s es
  reads : (node offset size n : ℕ) → vfs_read node offset size s ≡ some (n, es) → Runs tokens s es
  writes : (node offset size n : ℕ) → vfs_write node offset size s ≡ some (n, es) → Runs tokens s es
  mounts :
      (path : List ℕ) (local_root : ℕ) (s' : Vfs) (done : Bool)
      → vfs_mount tokens path local_root s ≡ some (s', done, es)
      → Runs tokens s es

opened-replay : (node flags : ℕ) (s : Vfs) → replay none (opened node flags s) ≡ some none
opened-replay node flags s = ground arith

opens-replay :
    (tokens : List ℕ → List (List ℕ)) (path : List ℕ) (flags node : ℕ) (s : Vfs) (es : List Event)
    → vfs_open tokens path flags s ≡ some (node, es)
    → replay none es ≡ some none
unfolding vfs_open
opens-replay tokens path flags node s es e = elim (Option-cases (vfs_find_path tokens path s)) [
  | inl f ↦ ground arith
  | inr ((found, events), f) ↦
      let looked = vfs_find_path-replay tokens path s found events f in
      let all : es ≡ events ++ opened found flags s = ground arith in
      rw all
        (replay-append none none events (opened found flags s) looked ∙ opened-replay found flags s)
]

mounts-replay :
    (tokens : List ℕ → List (List ℕ)) (path : List ℕ) (local_root : ℕ) (s s' : Vfs) (done : Bool)
    (es : List Event)
    → vfs_mount tokens path local_root s ≡ some (s', done, es)
    → replay none es ≡ some none
unfolding vfs_mount
mounts-replay tokens path local_root s s' done es e =
    elim (Option-cases (vfs_find_path tokens path s)) [
      | inl f ↦ ground arith
      | inr ((found, events), f) ↦
          let looked = vfs_find_path-replay tokens path s found events f in
          let pair : List Event = mutex_lock found ∷ mutex_unlock found ∷ [] in
          let paired : replay none (events ++ pair) ≡ some none =
            replay-append none none events pair looked ∙ (rw (==_refl found)) in
          elim (Bool-cases (found == 0)) [
            | inl z ↦ let same : es ≡ events = ground arith in rw same looked
            | inr z ↦ let same : es ≡ events ++ pair = ground arith in rw same paired
          ]
    ]

reads-replay :
    (node offset size n : ℕ) (s : Vfs) (es : List Event)
    → vfs_read node offset size s ≡ some (n, es)
    → replay none es ≡ some none
unfolding vfs_read
reads-replay node offset size n s es e = ground arith

writes-replay :
    (node offset size n : ℕ) (s : Vfs) (es : List Event)
    → vfs_write node offset size s ≡ some (n, es)
    → replay none es ≡ some none
unfolding vfs_write
writes-replay node offset size n s es e = ground arith

closes-replay : (node : ℕ) (s : Vfs) → replay none (vfs_close node s) ≡ some none
unfolding vfs_close
closes-replay node s = ground arith

-- In a run of any operation, on each of its paths, a task holds one lock of a node at most, releases
-- only what it holds, and holds none at the end.
pub one_lock :
    {tokens : List ℕ → List (List ℕ)} {s : Vfs} {es : List Event}
    → Runs tokens s es
    → replay none es ≡ some none
one_lock {tokens} {s} {es} (opens path flags node e) = opens-replay tokens path flags node s es e
one_lock {tokens} {s} {es} (closes node e) = rw (← e) (closes-replay node s)
one_lock {tokens} {s} {es} (reads node offset size n e) = reads-replay node offset size n s es e
one_lock {tokens} {s} {es} (writes node offset size n e) = writes-replay node offset size n s es e
one_lock {tokens} {s} {es} (mounts path local_root s' done e) =
    mounts-replay tokens path local_root s s' done es e
