-- ===== src/Vfs/Mount.antt =====
-- A mount, and the lookups below it.
use kernel_smp.Base.{
  ℕ, ◌≡◌, ◌≢◌, ◌<◌, refl, sym, ◌∙◌, ap, List, [], ◌∷◌, ◌++◌, true, false, Option, none, some, ◌==◌,
  ne→==, ==→eq, if◌then◌else◌, Bool-cases, Option-cases, inl, inr, lt→ltb, length, update_self,
  update_ne, arith,
}
use mathlib.Core.Option.{some-injective}
use kernel_smp.RunQueue.Chain.{NotIn}
use kernel_smp.Vfs.{
  Vfs, Event, mutex_lock, mutex_unlock, entered, walk, finddir_of, vfs_find_path, vfs_mount,
  mounted,
}
use kernel_smp.Vfs.Locks.{walk_stuck, walk_missing, walk_on}

abbrev pub entry_in : Option (ℕ → List ℕ → ℕ) → ℕ → List ℕ → ℕ
entry_in none at name = 0
entry_in (some finddir) at name = finddir at name

-- The entry of the directory `at`, 0 for none.
abbrev pub entry_of : Vfs → ℕ → List ℕ → ℕ
entry_of s at name = entry_in (finddir_of (s.node at)) at name

-- The node that a name leads to from `current`.
abbrev pub step_to : Vfs → ℕ → List ℕ → ℕ
step_to s current token = entry_of s (entered s current) token

-- The nodes from which a walk looked for a name.
abbrev pub visited : Vfs → List (List ℕ) → ℕ → List ℕ
visited s [] current = []
visited s (token ∷ tokens) current = current ∷ visited s tokens (step_to s current token)

-- A walk without its events.
pub found : Vfs → List (List ℕ) → ℕ → ℕ
found s [] current = current
found s (token ∷ tokens) current =
    let next = step_to s current token in
    let rest = found s tokens next in if next == 0 then 0 else rest

module _ (s : Vfs) (token : List ℕ) (tokens : List (List ℕ)) (current : ℕ) where
  found_missing : (step_to s current token == 0) ≡ true → found s (token ∷ tokens) current ≡ 0
  unfolding found
  found_missing e = rw e

  found_on :
      (step_to s current token == 0) ≡ false
      → found s (token ∷ tokens) current ≡ found s tokens (step_to s current token)
  unfolding found
  found_on e = rw e

walk-found :
    (s : Vfs) (tokens : List (List ℕ)) (current : ℕ)
    → (walk s tokens current).0 ≡ found s tokens current
unfolding walk found
walk-found s [] current = refl
walk-found s (token ∷ tokens) current =
    let at = entered s current in
    let node : ℕ × List Event → ℕ = λ r. r.0 in
    elim (Option-cases (finddir_of (s.node at))) [
      | inl e ↦
          let here : step_to s current token ≡ 0 = ap (λ o. entry_in o at token) e in
          ap node (walk_stuck s token tokens current e)
          ∙ sym (found_missing s token tokens current (rw here refl))
      | inr (finddir, e) ↦
          let here : step_to s current token ≡ finddir at token = ap (λ o. entry_in o at token) e in
          elim (Bool-cases (finddir at token == 0)) [
            | inl z ↦
                ap node (walk_missing s token tokens current finddir e z)
                ∙ sym (found_missing s token tokens current (ap (λ n. n == 0) here ∙ z))
            | inr z ↦
                ap node (walk_on s token tokens current finddir e z)
                ∙ walk-found s tokens (finddir at token)
                ∙ ap (found s tokens) (sym here)
                ∙ sym (found_on s token tokens current (ap (λ n. n == 0) here ∙ z))
          ]
    ]

-- A lookup of one more name.
found-snoc :
    (s : Vfs) (tokens : List (List ℕ)) (name : List ℕ) (current m : ℕ)
    → found s tokens current ≡ m
    → m ≢ 0
    → found s (tokens ++ name ∷ []) current ≡ step_to s m name
unfolding found
found-snoc s [] name current m e real = elim (Bool-cases (step_to s current name == 0)) [
  | inl z ↦ found_missing s name [] current z ∙ sym (==→eq _ 0 z) ∙ ap (λ n. step_to s n name) e
  | inr z ↦ found_on s name [] current z ∙ ap (λ n. step_to s n name) e
]
found-snoc s (token ∷ tokens) name current m e real =
    elim (Bool-cases (step_to s current token == 0)) [
      | inl z ↦ absurd (real (sym e ∙ found_missing s token tokens current z))
      | inr z ↦
          found_on s token (tokens ++ name ∷ []) current z
          ∙ found-snoc s tokens name (step_to s current token) m
              (sym (found_on s token tokens current z) ∙ e) real
    ]

module _ (s : Vfs) (m r : ℕ) where
  finddir-mounted : (y : ℕ) → finddir_of ((mounted m r s).node y) ≡ finddir_of (s.node y)
  finddir-mounted y = ground arith

  entered-mounted : (y : ℕ) → m ≢ y → entered (mounted m r s) y ≡ entered s y
  entered-mounted y ne = rw (update_ne s.node m y _ ne)

  step_to-mounted :
      (y : ℕ) (name : List ℕ) → m ≢ y → step_to (mounted m r s) y name ≡ step_to s y name
  step_to-mounted y name ne =
      ap (λ a. entry_of (mounted m r s) a name) (entered-mounted y ne)
      ∙ ap (λ o. entry_in o (entered s y) name) (finddir-mounted (entered s y))

  found-mounted :
      (tokens : List (List ℕ)) (current : ℕ)
      → NotIn m (visited s tokens current)
      → found (mounted m r s) tokens current ≡ found s tokens current
  unfolding found
  found-mounted [] current out = refl
  found-mounted (token ∷ tokens) current out =
      rw (step_to-mounted current token out.0, found-mounted tokens (step_to s current token) out.1)

  entry-mounted : (name : List ℕ) → r ≢ 0 → step_to (mounted m r s) m name ≡ entry_of s r name
  entry-mounted name real =
      let at : entered (mounted m r s) m ≡ r = rw (update_self s.node m _, ne→== r 0 real) refl in
      ap (λ a. entry_of (mounted m r s) a name) at ∙ ap (λ o. entry_in o r name) (finddir-mounted r)

-- The node that a path leads to.
abbrev pub node_of : Option (ℕ × List Event) → Option ℕ
node_of none = none
node_of (some (node, events)) = some node

module _ (tokens : List ℕ → List (List ℕ)) (d : ℕ) (rest : List ℕ) where
  find_eq :
      (s : Vfs)
      → length (d ∷ rest) < 256
      → vfs_find_path tokens (b'/' ∷ d ∷ rest) s ≡ some (walk s (tokens (d ∷ rest)) s.vfs_root)
  unfolding vfs_find_path
  find_eq s short = rw (lt→ltb _ _ short)

  mount_eq :
      (s : Vfs) (m r : ℕ) (events : List Event)
      → vfs_find_path tokens (b'/' ∷ d ∷ rest) s ≡ some (m, events)
      → m ≢ 0
      → vfs_mount tokens (b'/' ∷ d ∷ rest) r s
        ≡ some (mounted m r s, true, events ++ mutex_lock m ∷ mutex_unlock m ∷ [])
  unfolding vfs_mount
  mount_eq s m r events e real = rw (e, vfs_mount, ne→== m 0 real)

-- A path to a node that does not lead through that node: a mount there succeeds, and afterwards a
-- path with one more name leads to the entry of that name in the root of what was mounted.
pub vfs_mount_lem :
    (tokens : List ℕ → List (List ℕ)) (d : ℕ) (rest : List ℕ) (d' : ℕ) (rest' : List ℕ)
    (name : List ℕ) (m r : ℕ) (s : Vfs)
    → length (d ∷ rest) < 256
    → length (d' ∷ rest') < 256
    → tokens (d' ∷ rest') ≡ tokens (d ∷ rest) ++ name ∷ []
    → node_of (vfs_find_path tokens (b'/' ∷ d ∷ rest) s) ≡ some m
    → m ≢ 0
    → r ≢ 0
    → NotIn m (visited s (tokens (d ∷ rest)) s.vfs_root)
    → (s' : Vfs) × (events : List Event) × (vfs_mount tokens (b'/' ∷ d ∷ rest) r s
        ≡ some (s', true, events))
      × (node_of (vfs_find_path tokens (b'/' ∷ d' ∷ rest') s') ≡ some (entry_of s r name))
vfs_mount_lem tokens d rest d' rest' name m r s short short' longer leads real real' out =
    let names = tokens (d ∷ rest) in
    let s' = mounted m r s in
    let walked = walk s names s.vfs_root in
    let at : walked.0 ≡ m =
      some-injective walked.0 m (ap node_of (sym (find_eq tokens d rest s short)) ∙ leads) in
    let before : vfs_find_path tokens (b'/' ∷ d ∷ rest) s ≡ some (m, walked.1) =
      find_eq tokens d rest s short ∙ ap (λ n. some (n, walked.1)) at in
    let there : found s' names s.vfs_root ≡ m =
      found-mounted s m r names s.vfs_root out ∙ sym (walk-found s names s.vfs_root) ∙ at in
    (
      s',
      walked.1 ++ mutex_lock m ∷ mutex_unlock m ∷ [],
      mount_eq tokens d rest s m r walked.1 before real,
      ap node_of (find_eq tokens d' rest' s' short')
          ∙ ap some (
              ap (λ ts. (walk s' ts s.vfs_root).0) longer
              ∙ walk-found s' (names ++ name ∷ []) s.vfs_root
              ∙ found-snoc s' names name s.vfs_root m there real
              ∙ entry-mounted s m r name real'),
    )
