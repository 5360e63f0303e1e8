-- ===== src/Json/Keys/Laws.antt =====
-- Sorting the keys of a mapping keeps them, and keeps them distinct.
use Prim.Native.String.{compare}
use Prim.Native.Nat.{Ordering}
use jharness.Common.{
  ◌≡◌, refl, sym, ◌∙◌, Bool, true, false, not, ◌&&◌, ◌||◌, String, some, List, [], ◌∷◌, decide,
  String-discrete, decide-String-discrete, same_string, same_string_iff, Bool-cases, inl, inr,
  arith,
}
use jharness.Json.{Json, Entries, no_entry, entry}
use jharness.Json.Keys.{keys, insert_text, sort_texts, sorted_keys}
use jharness.State.Pending.{has_text, unique_texts}
use jharness.Wire.{find}
use jharness.Errors.{ok}
use jharness.Checkpoint.{check_texts}

has_text-insert_text :
    (s k : String) (ks : List String) → has_text s (insert_text k ks) ≡ has_text s (k ∷ ks)
unfolding has_text insert_text
has_text-insert_text s k [] = refl
has_text-insert_text s k (j ∷ rest) =
    elim (compare k j)
      as (λ o.
        has_text s (elim o [ Ordering.gt ↦ j ∷ insert_text k rest | _ ↦ k ∷ j ∷ rest ])
        ≡ has_text s (k ∷ j ∷ rest)) [
          | Ordering.lt ↦ refl
          | Ordering.eq ↦ refl
          | Ordering.gt ↦ ground (arith, has_text-insert_text s k rest)
        ]

has_text-sort_texts : (s : String) (ks : List String) → has_text s (sort_texts ks) ≡ has_text s ks
unfolding has_text sort_texts
has_text-sort_texts s [] = refl
has_text-sort_texts s (k ∷ ks) =
    has_text-insert_text s k (sort_texts ks) ∙ rw (has_text-sort_texts s ks)

find-has_text :
    (s : String) (entries : Entries) (v : Json)
    → find s entries ≡ some v
    → has_text s (keys entries) ≡ true
unfolding find has_text keys
find-has_text s no_entry v h = cc
find-has_text s (entry k w rest) v h = elim (Bool-cases (same_string k s)) [
  | inl same ↦
      let e : s ≡ k = sym ((same_string_iff k s).0 same) in
      let found : decide (String-discrete s k) ≡ true =
        decide-String-discrete s k ∙ (same_string_iff s k).1 e in
      rw found
  | inr other ↦ let later = find-has_text s rest v (rw other at h) in ground arith
]

pub has_text-sorted_keys :
    (s : String) (entries : Entries) (v : Json)
    → find s entries ≡ some v
    → has_text s (sorted_keys entries) ≡ true
unfolding sorted_keys
has_text-sorted_keys s entries v h =
    has_text-sort_texts s (keys entries) ∙ find-has_text s entries v h

same_text_comm : (s t : String) → decide (String-discrete s t) ≡ decide (String-discrete t s)
same_text_comm s t = elim (Bool-cases (same_string s t)) [
  | inl same ↦ rw ((same_string_iff s t).0 same) refl
  | inr other ↦ elim (Bool-cases (same_string t s)) [
    | inl same ↦ rw ((same_string_iff t s).0 same) refl
    | inr other' ↦ decide-String-discrete s t ∙ other ∙ sym (decide-String-discrete t s ∙ other')
  ]
]

-- Two keys that come first, in either order.
swap_new : (d a b u : Bool) → (not (d || a) && (not b && u)) ≡ (not (d || b) && (not a && u))
swap_new true a b u = refl
swap_new false true true u = refl
swap_new false true false u = refl
swap_new false false true u = refl
swap_new false false false u = refl

unique_texts-insert_text :
    (k : String) (ks : List String) → unique_texts (insert_text k ks) ≡ unique_texts (k ∷ ks)
unfolding unique_texts has_text insert_text
unique_texts-insert_text k [] = refl
unique_texts-insert_text k (j ∷ rest) =
    elim (compare k j)
      as (λ o.
        unique_texts (elim o [ Ordering.gt ↦ j ∷ insert_text k rest | _ ↦ k ∷ j ∷ rest ])
        ≡ unique_texts (k ∷ j ∷ rest)) [
          | Ordering.lt ↦ refl
          | Ordering.eq ↦ refl
          | Ordering.gt ↦
              rw
                (has_text-insert_text j k rest, unique_texts-insert_text k rest, same_text_comm j k)
                (swap_new (decide (String-discrete k j)) (has_text j rest) (has_text k rest)
                  (unique_texts rest))
        ]

unique_texts-sort_texts : (ks : List String) → unique_texts (sort_texts ks) ≡ unique_texts ks
unfolding unique_texts has_text sort_texts
unique_texts-sort_texts [] = refl
unique_texts-sort_texts (k ∷ ks) =
    unique_texts-insert_text k (sort_texts ks)
    ∙ rw (has_text-sort_texts k ks, unique_texts-sort_texts ks) refl

-- `_metadata_keys` accepts the sorted keys of a mapping that has no empty key.
pub check_texts-sorted_keys :
    (entries : Entries)
    → has_text "" (keys entries) ≡ false
    → unique_texts (keys entries) ≡ true
    → check_texts (sorted_keys entries) ≡ ok tt
unfolding sorted_keys check_texts
check_texts-sorted_keys entries filled distinct = rw (
  has_text-sort_texts "" (keys entries),
  filled,
  unique_texts-sort_texts (keys entries),
  distinct,
)
