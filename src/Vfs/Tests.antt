-- ===== src/Vfs/Tests.antt =====
-- A tree in which every node has one entry, the next node, and a tokenizer that splits at slashes.
use kernel_smp.Base.{
  ℕ, ◌+◌, ◌≡◌, refl, none, some, true, false, List, [], ◌∷◌, ◌++◌, Option, if◌then◌else◌, ◌==◌,
  arith,
}
use kernel_smp.Vfs.{Vfs, Event, walk, vfs_find_path, vfs_open, vfs_mount}
use kernel_smp.Vfs.Locks.{opens, replay, one_lock}
use kernel_smp.Vfs.Mount.{node_of, entry_of, vfs_mount_lem}

abbrev emit : List ℕ → List (List ℕ) → List (List ℕ)
emit [] words = words
emit (c ∷ cs) words = (c ∷ cs) ∷ words

abbrev split_from : List ℕ → List ℕ → List (List ℕ)
split_from word [] = emit word []
split_from word (c ∷ cs) =
    let next = emit word (split_from [] cs) in
    let on = split_from (word ++ c ∷ []) cs in if c == b'/' then next else on

abbrev names : List ℕ → List (List ℕ)
names path = split_from [] path

abbrev chain : Vfs
chain = record {
  node = λ n. record {
    flags = 2;
    ops = some (record {
      read = none;
      write = none;
      open_file = true;
      close_file = false;
      finddir = some (λ at name. at + 1);
    });
    ptr = 0;
  };
  vfs_root = 1;
}

abbrev opening : Option (ℕ × List Event)
opening = vfs_open names (b'/' ∷ b'a' ∷ b'/' ∷ b'b' ∷ []) 1 chain

abbrev events : List Event
events = elim opening [ none ↦ [] | some (node, es) ↦ es ]

opening_ends : opening ≡ some (3, events)
unfolding vfs_open vfs_find_path walk
opening_ends = refl

one_lock_example : replay none events ≡ some none
one_lock_example = one_lock (opens (b'/' ∷ b'a' ∷ b'/' ∷ b'b' ∷ []) 1 3 opening_ends)

leads : node_of (vfs_find_path names (b'/' ∷ b'a' ∷ []) chain) ≡ some 2
unfolding vfs_find_path walk
leads = refl

-- Node 10 is mounted at `/a`, and `/a/b` is its entry.
vfs_mount_lem_example :
    (s' : Vfs) × (es : List Event) × (vfs_mount names (b'/' ∷ b'a' ∷ []) 10 chain
      ≡ some (s', true, es))
    × (node_of (vfs_find_path names (b'/' ∷ b'a' ∷ b'/' ∷ b'b' ∷ []) s')
        ≡ some (entry_of chain 10 (b'b' ∷ [])))
vfs_mount_lem_example =
    vfs_mount_lem names b'a' [] b'a' (b'/' ∷ b'b' ∷ []) (b'b' ∷ []) 2 10 chain (omega arith)
      (omega arith) refl leads (omega arith) (omega arith) (omega arith, tt)
