-- ===== src/Json/Equal.antt =====
-- `==` on the frozen values of packages/jharness-kernel/src/jharness/kernel/json_values.py: lists are
-- compared in order, mappings by their keys. Python compares numbers of different kinds by value;
-- that comparison is an argument.
use jharness.Common.{ℕ, Bool, true, false, ◌&&◌, ◌+◌, none, some, same_string, ◌==◌}
use jharness.Json.{
  Json, Items, Entries, null, string, array, object, no_item, item, no_entry, entry,
}
use jharness.Wire.{find}

-- `len(mapping)`.
abbrev pub entry_count : Entries → ℕ
entry_count no_entry = 0
entry_count (entry k v rest) = entry_count rest + 1

module _ (same_number : Json → Json → Bool) where
  unfoldable mutual
    pub equal : Json → Json → Bool
    equal null null = true
    equal null _ = false
    equal (string s) (string t) = same_string s t
    equal (string s) _ = false
    equal (array xs) (array ys) = equal_items xs ys
    equal (array xs) _ = false
    equal (object es) (object fs) = (entry_count es == entry_count fs) && equal_entries es fs
    equal (object es) _ = false
    equal x y = same_number x y

    pub equal_items : Items → Items → Bool
    equal_items no_item no_item = true
    equal_items no_item (item y ys) = false
    equal_items (item x xs) no_item = false
    equal_items (item x xs) (item y ys) = equal x y && equal_items xs ys

    -- `all(key in other and other[key] == value for key, value in mapping.items())`.
    pub equal_entries : Entries → Entries → Bool
    equal_entries no_entry fs = true
    equal_entries (entry k v rest) fs =
        elim (find k fs) [ none ↦ false | some w ↦ equal v w ] && equal_entries rest fs
