-- ===== src/IdSet/Laws.antt =====
-- The trie of _history.py holds exactly the keys that were added.
use jharness.Common.{
  ℕ, Bool, true, false, Option, none, some, List, [], ◌∷◌, ◌++◌, ◌==◌, if◌then◌else◌, reverse,
  reverse-append, ◌≡◌, refl, ◌∙◌, sym, ◌&&◌, ◌||◌, arith, Bool-cases, Option-cases, inl, inr,
  ==_iff, ◌↔◌,
}
use jharness.IdSet.{
  IdNode, id_node, Children, no_child, edge, terminal, children, child_in, put_child, with_child,
  contains, walk, wrap, rebuild, finish_add, add, empty_root,
}

-- Equality of keys, byte by byte.
abbrev pub same_key : List ℕ → List ℕ → Bool
same_key [] [] = true
same_key [] (b ∷ bs) = false
same_key (a ∷ as') [] = false
same_key (a ∷ as') (b ∷ bs) = (a == b) && same_key as' bs

pub same_key_iff : (k j : List ℕ) → (same_key k j ≡ true) ↔ (k ≡ j)
same_key_iff [] [] = (λ h. refl, λ h. refl)
same_key_iff [] (b ∷ bs) = (λ h. cc, λ h. cc)
same_key_iff (a ∷ as') [] = (λ h. cc, λ h. cc)
same_key_iff (a ∷ as') (b ∷ bs) =
    (λ h. ground (arith, (same_key_iff as' bs).0), λ h. ground (arith, (same_key_iff as' bs).1))

child_in-put_child :
    (cs : Children) (e f : ℕ) (c : IdNode)
    → child_in (put_child cs e c) f ≡ (if e == f then some c else child_in cs f)
unfolding child_in put_child
child_in-put_child no_child e f c = ground arith
child_in-put_child (edge candidate old rest) e f c = ground (arith, child_in-put_child rest e f c)

-- A chain of single edges to a terminal node.
chain : List ℕ → IdNode
chain [] = id_node true no_child
chain (e ∷ key) = id_node false (edge e (chain key) no_child)

wrap-append : (t : IdNode) (xs ys : List ℕ) → wrap t (xs ++ ys) ≡ wrap (wrap t xs) ys
unfolding wrap
wrap-append t [] ys = refl
wrap-append t (x ∷ xs) ys = wrap-append (id_node false (edge x t no_child)) xs ys

wrap-reverse : (key : List ℕ) → wrap (id_node true no_child) (reverse key) ≡ chain key
unfolding chain
wrap-reverse [] = unfold wrap in refl
wrap-reverse (e ∷ key) =
    rw
      (
        reverse-append (e ∷ []) key,
        wrap-append (id_node true no_child) (reverse key) (e ∷ []),
        wrap-reverse key,
      )
      (unfold wrap in refl)

contains-chain : (k j : List ℕ) → contains (chain k) j ≡ same_key k j
unfolding contains chain
contains-chain [] [] = refl
contains-chain [] (b ∷ j) = refl
contains-chain (a ∷ k) [] = refl
contains-chain (a ∷ k) (b ∷ j) = ground (arith, contains-chain k j)

-- Insertion by recursion, which the two loops of `add` implement.
insert_below : Option IdNode → List ℕ → (IdNode → IdNode) → IdNode
insert_below none key go = chain key
insert_below (some c) key go = go c

insert : List ℕ → IdNode → IdNode
insert [] node = id_node true (children node)
insert (e ∷ key) node =
    with_child node e (insert_below (child_in (children node) e) key (insert key))

children-with_child :
    (node : IdNode) (e f : ℕ) (c : IdNode)
    → child_in (children (with_child node e c)) f
      ≡ (if e == f then some c else child_in (children node) f)
children-with_child (id_node t cs) e f c = unfold with_child in child_in-put_child cs e f c

-- What `contains` does below a node.
abbrev after : Option IdNode → List ℕ → Bool
after none key = false
after (some c) key = contains c key

contains-cons :
    (node : IdNode) (e : ℕ) (key : List ℕ)
    → contains node (e ∷ key) ≡ after (child_in (children node) e) key
unfolding contains
contains-cons node e key = ground arith

contains-insert_below :
    (o : Option IdNode) (k j : List ℕ)
    → ((c : IdNode) → contains (insert k c) j ≡ (same_key k j || contains c j))
    → contains (insert_below o k (insert k)) j ≡ (same_key k j || after o j)
unfolding insert_below
contains-insert_below none k j h = rw (contains-chain k j) (ground arith)
contains-insert_below (some c) k j h = h c

insert-cons :
    (e : ℕ) (k : List ℕ) (node : IdNode)
    → insert (e ∷ k) node
      ≡ with_child node e (insert_below (child_in (children node) e) k (insert k))
unfolding insert
insert-cons e k node = refl

contains-insert :
    (k : List ℕ) (node : IdNode) (j : List ℕ)
    → contains (insert k node) j ≡ (same_key k j || contains node j)
contains-insert [] node [] = unfold insert contains in refl
contains-insert [] node (f ∷ j) =
    rw (contains-cons (insert [] node) f j, contains-cons node f j) (unfold insert in refl)
contains-insert (e ∷ k) (id_node t cs) [] = unfold insert contains with_child in refl
contains-insert (e ∷ k) node (f ∷ j) =
    let below = insert_below (child_in (children node) e) k (insert k) in
    let ih = contains-insert_below (child_in (children node) e) k j (λ c. contains-insert k c j) in
    rw
      (
        contains-cons (insert (e ∷ k) node) f j,
        contains-cons node f j,
        insert-cons e k node,
        children-with_child node e f below,
      )
      (elim (Bool-cases (e == f)) [
        | inl same ↦ rw (same, ← (==_iff e f).0 same) ih
        | inr other ↦ rw other
      ])

module _ (path : List (IdNode × ℕ)) (node : IdNode) (e : ℕ) (key : List ℕ) where
  walk_absent :
      child_in (children node) e ≡ none
      → walk path node (e ∷ key)
        ≡ record { path = (node, e) ∷ path; node = node; missing = some key }
  unfolding walk
  walk_absent absent = rw (absent, walk)

  walk_present :
      (c : IdNode)
      → child_in (children node) e ≡ some c
      → walk path node (e ∷ key) ≡ walk ((node, e) ∷ path) c key
  unfolding walk
  walk_present c present = rw (present, walk)

-- The node that `add` builds from a walk.
finished : IdNode → List (IdNode × ℕ) → IdNode → List ℕ → IdNode
finished root path node key = finish_add root (walk path node key) (walk path node key).missing

finished_present :
    (root : IdNode) (path : List (IdNode × ℕ)) (node : IdNode) (e : ℕ) (key : List ℕ) (c : IdNode)
    → child_in (children node) e ≡ some c
    → finished root path node (e ∷ key) ≡ finished root ((node, e) ∷ path) c key
unfolding finished
finished_present root path node e key c present = rw (walk_present path node e key c present)

finished_absent :
    (root : IdNode) (path : List (IdNode × ℕ)) (node : IdNode) (e : ℕ) (key : List ℕ)
    → child_in (children node) e ≡ none
    → finished root path node (e ∷ key) ≡ rebuild (insert (e ∷ key) node) path
unfolding finished insert insert_below
finished_absent root path node e key absent =
    rw (walk_absent path node e key absent, absent) (unfold finish_add in rw (wrap-reverse key))

insert_present :
    (path : List (IdNode × ℕ)) (node : IdNode) (e : ℕ) (key : List ℕ) (c : IdNode)
    → child_in (children node) e ≡ some c
    → rebuild (insert (e ∷ key) node) path ≡ rebuild (insert key c) ((node, e) ∷ path)
unfolding rebuild insert insert_below
insert_present path node e key c present = rw present

finished_here :
    (root : IdNode) (path : List (IdNode × ℕ)) (node : IdNode)
    → finished root path node [] ≡ (if terminal node then root else rebuild (insert [] node) path)
unfolding finished walk finish_add insert
finished_here root path node = refl

-- The loops of `add` insert a new key: the path that was walked is rebuilt around its node.
finished-insert :
    (root : IdNode) (path : List (IdNode × ℕ)) (node : IdNode) (key : List ℕ)
    → contains node key ≡ false
    → finished root path node key ≡ rebuild (insert key node) path
finished-insert root path (id_node t cs) [] h =
    let fresh : t ≡ false = unfold contains in h in
    rw (finished_here root path (id_node t cs), fresh)
finished-insert root path node (e ∷ key) h = elim (Option-cases (child_in (children node) e)) [
  | inl absent ↦ finished_absent root path node e key absent
  | inr (c, present) ↦
      let rest : contains c key ≡ false = rw (contains-cons node e key, present) at h in
      finished_present root path node e key c present
      ∙ finished-insert root ((node, e) ∷ path) c key rest
      ∙ sym (insert_present path node e key c present)
]

-- A key that is there already leaves the root as it is.
finished_member :
    (root : IdNode) (path : List (IdNode × ℕ)) (node : IdNode) (key : List ℕ)
    → contains node key ≡ true
    → finished root path node key ≡ root
finished_member root path (id_node t cs) [] h =
    let there : t ≡ true = unfold contains in h in
    rw (finished_here root path (id_node t cs), there)
finished_member root path node (e ∷ key) h = elim (Option-cases (child_in (children node) e)) [
  | inl absent ↦ cc (rw (contains-cons node e key, absent) at h)
  | inr (c, present) ↦
      let rest : contains c key ≡ true = rw (contains-cons node e key, present) at h in
      finished_present root path node e key c present
      ∙ finished_member root ((node, e) ∷ path) c key rest
]

pub add-member : (root : IdNode) (k : List ℕ) → contains root k ≡ true → add root k ≡ root
unfolding add finished
add-member root k h = finished_member root [] root k h

add-insert : (root : IdNode) (k : List ℕ) → contains root k ≡ false → add root k ≡ insert k root
unfolding add finished rebuild
add-insert root k h = finished-insert root [] root k h

same_key-contains :
    (root : IdNode) (k j : List ℕ)
    → contains root k ≡ true
    → contains root j ≡ (same_key k j || contains root j)
same_key-contains root k j h = elim (Bool-cases (same_key k j)) [
  | inl same ↦ rw (same, ← (same_key_iff k j).0 same) h
  | inr other ↦ rw other
]

-- After `add`, a set holds a key exactly when it is the added key or was held before.
pub contains-add :
    (root : IdNode) (k j : List ℕ) → contains (add root k) j ≡ (same_key k j || contains root j)
contains-add root k j = elim (Bool-cases (contains root k)) [
  | inl member ↦ rw (add-member root k member) (same_key-contains root k j member)
  | inr fresh ↦ rw (add-insert root k fresh) (contains-insert k root j)
]

pub contains-empty_root : (j : List ℕ) → contains empty_root j ≡ false
unfolding contains
contains-empty_root [] = refl
contains-empty_root (e ∷ j) = refl
