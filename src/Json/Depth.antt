-- ===== src/Json/Depth.antt =====
-- The nesting limit of packages/jharness-kernel/src/jharness/kernel/json_values.py: the walk of
-- `_JsonCopier` over a value, which counts the containers that it is in, and the depth of a value.
use jharness.Common.{
  ℕ, suc, ◌+◌, ◌≤◌, ◌≡◌, ap, ◌∙◌, leb, max, if◌then◌else◌, Bool-cases, inl, inr, arith,
}
use jharness.Errors.{Error, Result, ok, err, ◌>>◌, raise_if}
use jharness.Json.{Json, Items, Entries, null, array, object, no_item, item, no_entry, entry}

abbrev pub max_json_nesting_depth : ℕ
max_json_nesting_depth = 128

-- The containers on the longest way into a value.
unfoldable mutual
  pub depth : Json → ℕ
  depth (array items) = suc (depth_items items)
  depth (object entries) = suc (depth_entries entries)
  depth _ = 0

  pub depth_items : Items → ℕ
  depth_items no_item = 0
  depth_items (item v rest) = max (depth v) (depth_items rest)

  pub depth_entries : Entries → ℕ
  depth_entries no_entry = 0
  depth_entries (entry k v rest) = max (depth v) (depth_entries rest)

-- The recursive walk, from inside `active` containers, with the exception for one too many. A value
-- is a tree here, so that no container is met inside itself.
unfoldable mutual
  pub walk : Error → ℕ → Json → Result (Unit {0})
  walk deep active (array items) =
      raise_if (leb max_json_nesting_depth active) deep >> walk_items deep (suc active) items
  walk deep active (object entries) =
      raise_if (leb max_json_nesting_depth active) deep >> walk_entries deep (suc active) entries
  walk deep active _ = ok tt

  pub walk_items : Error → ℕ → Items → Result (Unit {0})
  walk_items deep active no_item = ok tt
  walk_items deep active (item v rest) = walk deep active v >> walk_items deep active rest

  pub walk_entries : Error → ℕ → Entries → Result (Unit {0})
  walk_entries deep active no_entry = ok tt
  walk_entries deep active (entry k v rest) = walk deep active v >> walk_entries deep active rest

abbrev pub within : Error → ℕ → Result (Unit {0})
within deep n = if leb n max_json_nesting_depth then ok tt else err deep

both_within :
    (deep : Error) (a m n : ℕ)
    → (within deep (a + m) >> within deep (a + n)) ≡ within deep (a + max m n)
both_within deep a m n = ground arith

entered :
    (deep : Error) (active n : ℕ)
    → active ≤ max_json_nesting_depth
    → (raise_if (leb max_json_nesting_depth active) deep >> within deep (suc active + n))
      ≡ within deep (active + suc n)
entered deep active n h = ground arith

mutual
  unfolding walk walk_items walk_entries depth depth_items depth_entries

  walk-depth_json :
      (deep : Error) (active : ℕ) (v : Json)
      → active ≤ max_json_nesting_depth
      → walk deep active v ≡ within deep (active + depth v)
  walk-depth_json deep active (array items) h =
      elim (Bool-cases (leb max_json_nesting_depth active)) [
        | inl full ↦ rw full (ground (arith, entered deep active (depth_items items) h))
        | inr room ↦ rw room (
            walk_items-depth deep (suc active) items (ground arith)
            ∙ ap (within deep) (omega arith))
      ]
  walk-depth_json deep active (object entries) h =
      elim (Bool-cases (leb max_json_nesting_depth active)) [
        | inl full ↦ rw full (ground (arith, entered deep active (depth_entries entries) h))
        | inr room ↦ rw room (
            walk_entries-depth deep (suc active) entries (ground arith)
            ∙ ap (within deep) (omega arith))
      ]
  walk-depth_json deep active null h = ground arith
  walk-depth_json deep active _ h = ground arith

  walk_items-depth :
      (deep : Error) (active : ℕ) (items : Items)
      → active ≤ max_json_nesting_depth
      → walk_items deep active items ≡ within deep (active + depth_items items)
  walk_items-depth deep active no_item h = ground arith
  walk_items-depth deep active (item v rest) h =
      rw (walk-depth_json deep active v h, walk_items-depth deep active rest h)
        (both_within deep active (depth v) (depth_items rest))

  walk_entries-depth :
      (deep : Error) (active : ℕ) (entries : Entries)
      → active ≤ max_json_nesting_depth
      → walk_entries deep active entries ≡ within deep (active + depth_entries entries)
  walk_entries-depth deep active no_entry h = ground arith
  walk_entries-depth deep active (entry k v rest) h =
      rw (walk-depth_json deep active v h, walk_entries-depth deep active rest h)
        (both_within deep active (depth v) (depth_entries rest))

-- The walk from outside succeeds for the values of at most the maximum depth, and raises for others.
pub walk-depth : (deep : Error) (v : Json) → walk deep 0 v ≡ within deep (depth v)
walk-depth deep v = walk-depth_json deep 0 v (omega arith) ∙ ap (within deep) (omega arith)
