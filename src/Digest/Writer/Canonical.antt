-- ===== src/Digest/Writer/Canonical.antt =====
-- What a `DigestWriter` of _digest.py writes of a JSON value does not depend on the order of the
-- entries of its mappings.
use Prim.Native.Nat.{Ordering}
use Prim.Native.String.{compare}
use jharness.Common.{ℕ, suc, ◌≡◌, refl, sym, ap, ◌∙◌, String, List, [], ◌∷◌, ◌++◌, length}
use jharness.Json.{
  Json, Items, Entries, null, boolean, integer, float, string, array, object, no_item, item,
  no_entry, entry,
}
use jharness.Json.Canonical.{
  insert_entry, sort_entries, canonical, canonical_items, canonical_entries, canonical_object,
}
use jharness.Digest.Writer.{
  Written, insert_key, sort_keys, write_entries, count_items, write_mapping, json, json_items,
  json_entries, sequence, mapping, json_object,
}

-- What is written of a value whose entries are in order already.
mutual
  unfolding sequence count_items mapping write_entries

  plain : Json → List ℕ
  plain (array items) = sequence (count_items items) ++ plain_items items
  plain (object entries) =
      mapping (length (plain_entries entries)) ++ write_entries (plain_entries entries)
  plain v = json v

  plain_items : Items → List ℕ
  plain_items no_item = []
  plain_items (item j rest) = plain j ++ plain_items rest

  plain_entries : Entries → List Written
  plain_entries no_entry = []
  plain_entries (entry k j rest) = (k, plain j) ∷ plain_entries rest

length-insert_key : (w : Written) (ws : List Written) → length (insert_key w ws) ≡ suc (length ws)
unfolding insert_key
length-insert_key (k, v) [] = refl
length-insert_key (k, v) ((j, w) ∷ rest) =
    elim (compare k j)
      as (λ o.
        length
          (elim o [ Ordering.gt ↦ (j, w) ∷ insert_key (k, v) rest | _ ↦ (k, v) ∷ (j, w) ∷ rest ])
        ≡ suc (suc (length rest))) [
          | Ordering.lt ↦ refl
          | Ordering.eq ↦ refl
          | Ordering.gt ↦ ap suc (length-insert_key (k, v) rest)
        ]

length-sort_keys : (ws : List Written) → length (sort_keys ws) ≡ length ws
unfolding sort_keys
length-sort_keys [] = refl
length-sort_keys (w ∷ ws) = length-insert_key w (sort_keys ws) ∙ ap suc (length-sort_keys ws)

plain_entries-insert_entry :
    (k : String) (v : Json) (es : Entries)
    → plain_entries (insert_entry k v es) ≡ insert_key (k, plain v) (plain_entries es)
unfolding plain_entries insert_entry insert_key
plain_entries-insert_entry k v no_entry = refl
plain_entries-insert_entry k v (entry j w rest) =
    elim (compare k j)
      as (λ o.
        plain_entries (elim o [
          | Ordering.gt ↦ entry j w (insert_entry k v rest)
          | _ ↦ entry k v (entry j w rest)
        ])
        ≡ elim o [
          | Ordering.gt ↦ (j, plain w) ∷ insert_key (k, plain v) (plain_entries rest)
          | _ ↦ (k, plain v) ∷ (j, plain w) ∷ plain_entries rest
        ]) [
          | Ordering.lt ↦ refl
          | Ordering.eq ↦ refl
          | Ordering.gt ↦ ap (λ t. (j, plain w) ∷ t) (plain_entries-insert_entry k v rest)
        ]

plain_entries-sort_entries :
    (es : Entries) → plain_entries (sort_entries es) ≡ sort_keys (plain_entries es)
unfolding plain_entries sort_entries sort_keys
plain_entries-sort_entries no_entry = refl
plain_entries-sort_entries (entry k v rest) =
    plain_entries-insert_entry k v (sort_entries rest)
    ∙ ap (insert_key (k, plain v)) (plain_entries-sort_entries rest)

count_items-canonical : (items : Items) → count_items (canonical_items items) ≡ count_items items
unfolding count_items canonical_items
count_items-canonical no_item = refl
count_items-canonical (item v rest) = ap suc (count_items-canonical rest)

mutual
  unfolding plain json json_items json_entries plain_items plain_entries write_mapping canonical
      canonical_items canonical_entries

  plain-canonical : (v : Json) → plain (canonical v) ≡ json v
  plain-canonical null = refl
  plain-canonical (boolean b) = refl
  plain-canonical (integer n) = refl
  plain-canonical (float hex) = refl
  plain-canonical (string s) = refl
  plain-canonical (array items) =
      rw (count_items-canonical items)
        (ap (λ t. sequence (count_items items) ++ t) (plain-canonical_items items))
  plain-canonical (object entries) =
      let written : plain_entries (sort_entries (canonical_entries entries))
          ≡ sort_keys (json_entries entries) =
        plain_entries-sort_entries (canonical_entries entries)
        ∙ ap sort_keys (plain-canonical_entries entries) in
      rw (written, length-sort_keys (json_entries entries)) refl

  plain-canonical_items : (items : Items) → plain_items (canonical_items items) ≡ json_items items
  plain-canonical_items no_item = refl
  plain-canonical_items (item v rest) =
      rw (plain-canonical v) (ap (λ t. json v ++ t) (plain-canonical_items rest))

  plain-canonical_entries : (es : Entries) → plain_entries (canonical_entries es) ≡ json_entries es
  plain-canonical_entries no_entry = refl
  plain-canonical_entries (entry k v rest) =
      rw (plain-canonical v) (ap (λ t. (k, json v) ∷ t) (plain-canonical_entries rest))

-- Equal mappings are written alike.
pub json_object-canonical :
    (es fs : Entries) → canonical_object es ≡ canonical_object fs → json_object es ≡ json_object fs
unfolding canonical_object
json_object-canonical es fs h =
    sym (plain-canonical (object es))
    ∙ (unfold canonical in ap (λ x. plain (object x)) h)
    ∙ plain-canonical (object fs)
