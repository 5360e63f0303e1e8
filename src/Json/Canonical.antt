-- ===== src/Json/Canonical.antt =====
-- What `__eq__` of the frozen values of
-- packages/jharness-kernel/src/jharness/kernel/json_values.py compares: a mapping by its keys. Two
-- mappings with distinct keys are equal exactly when they are the same once their entries are in the
-- order of their keys, at every level. Numbers of different kinds are told apart here: where this is
-- used, digests have told them apart before.
use Prim.Native.Nat.{Ordering}
use Prim.Native.String.{compare}
use jharness.Common.{String}
use jharness.Json.{Json, Items, Entries, array, object, no_item, item, no_entry, entry}

unfoldable pub insert_entry : String → Json → Entries → Entries
insert_entry k v no_entry = entry k v no_entry
insert_entry k v (entry j w rest) = elim (compare k j) [
  | Ordering.gt ↦ entry j w (insert_entry k v rest)
  | _ ↦ entry k v (entry j w rest)
]

unfoldable pub sort_entries : Entries → Entries
unfolding insert_entry
sort_entries no_entry = no_entry
sort_entries (entry k v rest) = insert_entry k v (sort_entries rest)

unfoldable mutual
  unfolding sort_entries

  pub canonical : Json → Json
  canonical (array items) = array (canonical_items items)
  canonical (object entries) = object (sort_entries (canonical_entries entries))
  canonical v = v

  pub canonical_items : Items → Items
  canonical_items no_item = no_item
  canonical_items (item v rest) = item (canonical v) (canonical_items rest)

  pub canonical_entries : Entries → Entries
  canonical_entries no_entry = no_entry
  canonical_entries (entry k v rest) = entry k (canonical v) (canonical_entries rest)

unfoldable pub canonical_object : Entries → Entries
unfolding sort_entries canonical_entries
canonical_object entries = sort_entries (canonical_entries entries)
