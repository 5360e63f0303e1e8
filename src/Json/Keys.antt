-- ===== src/Json/Keys.antt =====
-- The keys of a mapping of json_values.py, and `tuple(sorted(mapping))`.
pub mod Laws
use Prim.Native.Nat.{Ordering}
use Prim.Native.String.{compare}
use jharness.Common.{String, List, [], ◌∷◌}
use jharness.Json.{Entries, no_entry, entry}

unfoldable pub keys : Entries → List String
keys no_entry = []
keys (entry k v rest) = k ∷ keys rest

insert_text : String → List String → List String
insert_text k [] = k ∷ []
insert_text k (j ∷ rest) = elim (compare k j) [
  | Ordering.gt ↦ j ∷ insert_text k rest
  | _ ↦ k ∷ j ∷ rest
]

sort_texts : List String → List String
unfolding insert_text
sort_texts [] = []
sort_texts (k ∷ ks) = insert_text k (sort_texts ks)

unfoldable pub sorted_keys : Entries → List String
unfolding keys sort_texts
sorted_keys entries = sort_texts (keys entries)
