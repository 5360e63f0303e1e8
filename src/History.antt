-- ===== src/History.antt =====
-- packages/jharness-kernel/src/jharness/kernel/history.py: the persistent conversation history.
-- `_digits` is a linked list of perfect trees, newest first; a `None` tail is the empty list.
-- The message type is a parameter of the structure.
pub mod Order
pub mod Lookup
pub mod Pick
pub mod Window
pub mod Run
use jharness.Common.{
  ℕ, zero, suc, ◌+◌, ◌-◌, ◌*◌, ◌/◌, ◌≤◌, min, max, Bool, ◌&&◌, ◌||◌, Option, none, some, List, [],
  ◌∷◌, ◌++◌, reverse, leb, ltb, ◌==◌, if◌then◌else◌, length,
}

-- `_HistoryLeaf` and `_HistoryNode`.
pub data HistoryTree {ℓ} (A : Type ℓ) : Type ℓ where
  leaf : A → HistoryTree A
  node : A → HistoryTree A → HistoryTree A → HistoryTree A

pub record HistoryDigit {ℓ} (A : Type ℓ) : Type ℓ where
  pub weight : ℕ
  pub tree : HistoryTree A

abbrev pub Digits {ℓ} : Type ℓ → Type ℓ
Digits A = List (HistoryDigit A)

module _ {ℓ} {A : Type ℓ} where
  abbrev pub unit_digit : A → HistoryDigit A
  unit_digit message = record { weight = 1; tree = leaf message }

  unfoldable pub cons : Digits A → A → Digits A
  cons [] message = unit_digit message ∷ []
  cons (d ∷ []) message = unit_digit message ∷ d ∷ []
  cons (d ∷ second ∷ rest) message =
      if d.weight == second.weight
      then record { weight = d.weight * 2 + 1; tree = node message d.tree second.tree } ∷ rest
      else unit_digit message ∷ d ∷ second ∷ rest

  -- `none` is the AssertionError of an inconsistent weight.
  unfoldable pub lookup_tree : HistoryTree A → ℕ → ℕ → Option A
  lookup_tree (leaf message) weight index = if index == 0 then some message else none
  lookup_tree (node message left right) weight index =
      let child_weight = (weight - 1) / 2 in
      let in_left = lookup_tree left child_weight (index - 1) in
      let in_right = lookup_tree right child_weight (index - (child_weight + 1)) in
      if index == 0 then some message else (if leb index child_weight then in_left else in_right)

  unfoldable pub iter_tree : HistoryTree A → List A
  iter_tree (leaf message) = message ∷ []
  iter_tree (node message left right) = message ∷ (iter_tree left ++ iter_tree right)

  -- `__reversed__`: newest first.
  unfoldable pub iter_reversed : Digits A → List A
  iter_reversed [] = []
  iter_reversed (d ∷ rest) = iter_tree d.tree ++ iter_reversed rest

  unfoldable pub lookup_reverse : Digits A → ℕ → Option A
  lookup_reverse [] index = none
  lookup_reverse (d ∷ rest) index =
      let later = lookup_reverse rest (index - d.weight) in
      if ltb index d.weight then lookup_tree d.tree d.weight index else later

  -- `visit` of `_iter_tree_reverse_window`.
  unfoldable pub visit : ℕ → ℕ → HistoryTree A → ℕ → ℕ → List A
  visit start stop (leaf message) item_weight offset =
      if leb stop offset || leb (offset + item_weight) start then [] else message ∷ []
  visit start stop (node message left right) item_weight offset =
      let child_weight = (item_weight - 1) / 2 in
      let from_right = visit start stop right child_weight (offset + child_weight + 1) in
      let from_left = visit start stop left child_weight (offset + 1) in
      let own = if leb start offset && ltb offset stop then message ∷ [] else [] in
      if leb stop offset || leb (offset + item_weight) start
      then []
      else from_right ++ (from_left ++ own)

  abbrev pub iter_tree_reverse_window : HistoryTree A → ℕ → ℕ → ℕ → List A
  iter_tree_reverse_window tree weight start stop = visit start stop tree weight 0

-- One entry of `selected`: a digit and its local window.
pub record Selected {ℓ} (A : Type ℓ) : Type ℓ where
  pub tree : HistoryTree A
  pub weight : ℕ
  pub local_start : ℕ
  pub local_stop : ℕ

module _ {ℓ} {A : Type ℓ} where
  -- The loop of `_iter_window` over the digits.
  unfoldable pub select : ℕ → ℕ → ℕ → Digits A → List (Selected A)
  select reverse_start reverse_stop offset [] = []
  select reverse_start reverse_stop offset (d ∷ rest) =
      let digit_stop = offset + d.weight in
      let local_start = max reverse_start offset - offset in
      let local_stop = min reverse_stop digit_stop - offset in
      let later = select reverse_start reverse_stop digit_stop rest in
      let here : Selected A = record {
        tree = d.tree;
        weight = d.weight;
        local_start = local_start;
        local_stop = local_stop;
      } in
      if ltb offset reverse_stop
      then (if ltb local_start local_stop then here ∷ later else later)
      else []

  unfoldable pub iter_selected : List (Selected A) → List A
  unfolding visit
  iter_selected [] = []
  iter_selected (s ∷ rest) =
      iter_tree_reverse_window s.tree s.weight s.local_start s.local_stop ++ iter_selected rest

  -- `_iter_window`, on the digits of a history of `count` messages.
  unfoldable pub iter_digits : Digits A → ℕ → ℕ → ℕ → List A
  unfolding select iter_selected
  iter_digits digits count start stop =
      if start == stop
      then []
      else iter_selected (reverse (select (count - stop) (count - start) 0 digits))
