-- ===== src/IdSet.antt =====
-- `_PersistentIdSet` of packages/jharness-kernel/src/jharness/kernel/_history.py: an immutable
-- byte trie of the tool call ids that a history has used. A key is the bytes of an id.
-- The children of a node are a list of edges in ascending order; nodes and lists of children
-- are one mutual block.
pub mod Laws
use jharness.Common.{
  ℕ, Bool, true, false, Option, none, some, List, [], ◌∷◌, ltb, ◌==◌, if◌then◌else◌, reverse,
}

mutual
  pub data IdNode : Type 0 where
    id_node : Bool → Children → IdNode

  pub data Children : Type 0 where
    no_child : Children
    edge : ℕ → IdNode → Children → Children

abbrev pub terminal : IdNode → Bool
terminal (id_node t cs) = t

abbrev pub children : IdNode → Children
children (id_node t cs) = cs

-- `_child`'s loop, which stops at the first greater edge.
unfoldable pub child_in : Children → ℕ → Option IdNode
child_in no_child e = none
child_in (edge candidate child rest) e =
    let later = child_in rest e in
    if candidate == e then some child else (if ltb e candidate then none else later)

-- `_with_child`'s loop.
unfoldable pub put_child : Children → ℕ → IdNode → Children
put_child no_child e child = edge e child no_child
put_child (edge candidate old rest) e child =
    let later = put_child rest e child in
    if candidate == e
    then edge e child rest
    else (if ltb e candidate
        then edge e child (edge candidate old rest)
        else edge candidate old later)

unfoldable pub with_child : IdNode → ℕ → IdNode → IdNode
unfolding put_child
with_child (id_node t cs) e child = id_node t (put_child cs e child)

-- `__contains__`, from a node on: a missing child ends the loop.
unfoldable pub contains : IdNode → List ℕ → Bool
unfolding child_in
contains node [] = terminal node
contains node (e ∷ key) = elim (child_in (children node) e) [
  | none ↦ false
  | some child ↦ contains child key
]

-- What the first loop of `add` leaves: `path` newest first, the node where it stopped, and the
-- bytes behind `missing_at`, if there is one.
pub record Walk : Type 0 where
  pub path : List (IdNode × ℕ)
  pub node : IdNode
  pub missing : Option (List ℕ)

unfoldable pub walk : List (IdNode × ℕ) → IdNode → List ℕ → Walk
unfolding child_in
walk path node [] = record { path = path; node = node; missing = none }
walk path node (e ∷ key) = elim (child_in (children node) e) [
  | none ↦ record { path = (node, e) ∷ path; node = node; missing = some key }
  | some child ↦ walk ((node, e) ∷ path) child key
]

-- `for edge in reversed(...): updated = _IdNode(False, ((edge, updated),))`.
unfoldable pub wrap : IdNode → List ℕ → IdNode
wrap updated [] = updated
wrap updated (e ∷ edges) = wrap (id_node false (edge e updated no_child)) edges

-- `for parent, edge in reversed(path): updated = _with_child(parent, edge, updated)`.
unfoldable pub rebuild : IdNode → List (IdNode × ℕ) → IdNode
unfolding with_child
rebuild updated [] = updated
rebuild updated ((parent, e) ∷ path) = rebuild (with_child parent e updated) path

unfoldable pub finish_add : IdNode → Walk → Option (List ℕ) → IdNode
unfolding wrap rebuild
finish_add root w none =
    if terminal w.node then root else rebuild (id_node true (children w.node)) w.path
finish_add root w (some key) = rebuild (wrap (id_node true no_child) (reverse key)) w.path

unfoldable pub add : IdNode → List ℕ → IdNode
unfolding walk finish_add
add root key = let w = walk [] root key in finish_add root w w.missing

abbrev pub empty_root : IdNode
empty_root = id_node false no_child
