-- ===== src/Vfs.antt =====
-- kernel/fs/vfs.c: the lookup of paths, mounts, and the calls of the drivers. A driver's functions
-- and `strtok_r` are arguments. What happens besides, in order, is a list of events; a result `none`
-- is an access through NULL or behind a buffer.
pub mod Locks
pub mod Mount
mod Tests
use kernel_smp.Base.{
  ℕ, zero, suc, ◌+◌, ◌%◌, Bool, true, false, not, List, [], ◌∷◌, ◌++◌, length, Option, none, some,
  ltb, ◌==◌, if◌then◌else◌, update,
}
use kernel_smp.Vmm.{bit}

-- `vfs_ops_t`: the functions that the component calls, of the node and what else they are given.
pub record Ops : Type 0 where
  pub read : Option (ℕ → ℕ → ℕ → ℕ)
  pub write : Option (ℕ → ℕ → ℕ → ℕ)
  pub open_file : Bool
  pub close_file : Bool
  pub finddir : Option (ℕ → List ℕ → ℕ)

-- `vfs_node_t`; `ptr` is the root of what is mounted here.
pub record Node : Type 0 where
  pub flags : ℕ
  pub ops : Option Ops
  pub ptr : ℕ

pub record Vfs : Type 0 where
  pub node : ℕ → Node
  pub vfs_root : ℕ

pub data Event : Type 0 where
  mutex_lock : ℕ → Event
  mutex_unlock : ℕ → Event
  call_open : ℕ → ℕ → Event
  call_close : ℕ → Event
  call_read : ℕ → Event
  call_write : ℕ → Event

-- `root` is the memory of the root, a directory.
pub vfs_init : ℕ → Vfs → Vfs
vfs_init root s = record {
  node = update s.node root (record { flags = 2; ops = none; ptr = 0 });
  vfs_root = root;
}

-- `current->ops && current->ops->finddir`
abbrev pub finddir_of : Node → Option (ℕ → List ℕ → ℕ)
finddir_of n = elim n.ops [ none ↦ none | some o ↦ o.finddir ]

-- The directory that is searched for an entry of `current`: the root of a mount, if there is one.
abbrev pub entered : Vfs → ℕ → ℕ
entered s current = if (s.node current).ptr == 0 then current else (s.node current).ptr

abbrev pub entering : Vfs → ℕ → List Event
entering s current =
    if (s.node current).ptr == 0
    then mutex_lock current ∷ []
    else mutex_lock current ∷ mutex_unlock current ∷ mutex_lock (s.node current).ptr ∷ []

-- The loop of `vfs_find_path` over the names that `strtok_r` finds.
pub walk : Vfs → List (List ℕ) → ℕ → ℕ × List Event
walk s [] current = (current, [])
walk s (token ∷ tokens) current =
    let at = entered s current in
    let left = entering s current ++ mutex_unlock at ∷ [] in
    elim (finddir_of (s.node at)) [
      | none ↦ (0, left)
      | some finddir ↦
          let next = finddir at token in
          let (found, later) = walk s tokens next in
          if next == 0 then (0, left) else (found, left ++ later)
    ]

-- The node of a path, 0 for none. `tokens` are the names that `strtok_r` finds in a string. A path
-- of more than 256 characters fills the buffer, and leaves no room for the NUL.
pub vfs_find_path : (List ℕ → List (List ℕ)) → List ℕ → Vfs → Option (ℕ × List Event)
vfs_find_path tokens [] s = some (0, [])
vfs_find_path tokens (c ∷ []) s = some (if c == b'/' then s.vfs_root else 0, [])
vfs_find_path tokens (c ∷ d ∷ rest) s =
    let found = walk s (tokens (d ∷ rest)) s.vfs_root in
    if not (c == b'/')
    then some (0, [])
    else if ltb (length (d ∷ rest)) 256
    then some found
    else none

-- The call of the driver's `open`, if it has one.
abbrev pub opened : ℕ → ℕ → Vfs → List Event
opened node flags s =
    let called : Bool = elim (s.node node).ops [ none ↦ false | some o ↦ o.open_file ] in
    if node == 0 then [] else if called then call_open node flags ∷ [] else []

pub vfs_open : (List ℕ → List (List ℕ)) → List ℕ → ℕ → Vfs → Option (ℕ × List Event)
vfs_open tokens path flags s = elim (vfs_find_path tokens path s) [
  | none ↦ none
  | some (node, events) ↦ some (node, events ++ opened node flags s)
]

pub vfs_close : ℕ → Vfs → List Event
vfs_close node s =
    let called : Bool = elim (s.node node).ops [ none ↦ false | some o ↦ o.close_file ] in
    if node == 0 then [] else if called then call_close node ∷ [] else []

-- `node->flags & (VFS_FILE | VFS_CHARDEVICE | VFS_PIPE)`: the three lowest bits.
abbrev pub is_readable : Node → Bool
is_readable n = not (n.flags % 8 == 0)

-- A call under the lock of the node.
abbrev pub locked_call : ℕ → Event → List Event
locked_call node e = mutex_lock node ∷ e ∷ mutex_unlock node ∷ []

pub vfs_read : ℕ → ℕ → ℕ → Vfs → Option (ℕ × List Event)
vfs_read node offset size s =
    let called : Option (ℕ × List Event) = elim (s.node node).ops [
      | none ↦ none
      | some o ↦ elim o.read [
        | none ↦ some (0, [])
        | some read ↦ some (read node offset size, locked_call node (call_read node))
      ]
    ] in
    if node == 0 then some (0, []) else if is_readable (s.node node) then called else some (0, [])

pub vfs_write : ℕ → ℕ → ℕ → Vfs → Option (ℕ × List Event)
vfs_write node offset size s =
    let called : Option (ℕ × List Event) = elim (s.node node).ops [
      | none ↦ none
      | some o ↦ elim o.write [
        | none ↦ some (0, [])
        | some write ↦ some (write node offset size, locked_call node (call_write node))
      ]
    ] in
    if node == 0 then some (0, []) else if is_readable (s.node node) then called else some (0, [])

abbrev pub mounted : ℕ → ℕ → Vfs → Vfs
mounted node local_root s =
    let n = s.node node in
    record s {
      node =
          update s.node node
            (record n { flags = if bit n.flags 3 then n.flags else n.flags + 8; ptr = local_root });
    }

-- The state, and whether the path was found.
pub vfs_mount : (List ℕ → List (List ℕ)) → List ℕ → ℕ → Vfs → Option (Vfs × Bool × List Event)
vfs_mount tokens path local_root s = elim (vfs_find_path tokens path s) [
  | none ↦ none
  | some (node, events) ↦ some (
      if node == 0
      then (s, false, events)
      else (mounted node local_root s, true, events ++ mutex_lock node ∷ mutex_unlock node ∷ []))
]
