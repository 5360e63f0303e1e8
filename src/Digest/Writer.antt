-- ===== src/Digest/Writer.antt =====
-- `DigestWriter` of _digest.py: tagged scalars and length-prefixed chunks.
pub mod Canonical
use Prim.Native.Nat.{Ordering}
use Prim.Native.String.{compare}
use jharness.Common.{
  ℕ, zero, suc, ◌+◌, ◌/◌, ◌%◌, Bool, true, false, String, List, [], ◌∷◌, ◌++◌, length, ltb, ℤ, pos,
  negsuc, if◌then◌else◌,
}
use jharness.Utf8.{encode}
use jharness.Json.{
  Json, null, boolean, integer as json_integer, float, string as json_string, array, object, Items,
  no_item, item, Entries, no_entry, entry,
}

-- `value.to_bytes(count, "big")`.
unfoldable pub to_bytes : ℕ → ℕ → List ℕ
to_bytes zero n = []
to_bytes (suc count) n = to_bytes count (n / 256) ++ (n % 256) ∷ []

-- `_chunk`: the tag is one byte.
unfoldable pub chunk : ℕ → List ℕ → List ℕ
unfolding to_bytes
chunk tag value = tag ∷ (to_bytes 8 (length value) ++ value)

-- `str(n)`: the fuel is the number itself, and each round divides it by ten.
unfoldable pub decimal_fuel : ℕ → ℕ → List ℕ
decimal_fuel zero n = (48 + n % 10) ∷ []
decimal_fuel (suc fuel) n =
    let front = decimal_fuel fuel (n / 10) in
    if ltb n 10 then (48 + n) ∷ [] else front ++ (48 + n % 10) ∷ []

unfoldable pub decimal : ℕ → List ℕ
unfolding decimal_fuel
decimal n = decimal_fuel n n

abbrev decimal_ℤ : ℤ → List ℕ
decimal_ℤ (pos n) = decimal n
decimal_ℤ (negsuc n) = b'-' ∷ decimal (n + 1)

unfoldable pub domain : String → List ℕ
unfolding chunk
domain name = chunk b'd' (encode name)

unfoldable pub field : String → List ℕ
unfolding chunk
field name = chunk b'k' (encode name)

abbrev pub write_none : List ℕ
write_none = b'n' ∷ []

abbrev pub write_boolean : Bool → List ℕ
write_boolean true = b'b' ∷ b'1' ∷ []
write_boolean false = b'b' ∷ b'0' ∷ []

unfoldable pub write_ℤ : ℤ → List ℕ
unfolding chunk decimal
write_ℤ n = chunk b'i' (decimal_ℤ n)

unfoldable pub integer : ℕ → List ℕ
unfolding chunk decimal
integer n = chunk b'i' (decimal n)

-- A float is given by its `float.hex()`.
unfoldable pub number : String → List ℕ
unfolding chunk
number hex = chunk b'f' (encode hex)

unfoldable pub string : String → List ℕ
unfolding chunk
string value = chunk b's' (encode value)

unfoldable pub bytes : List ℕ → List ℕ
unfolding chunk
bytes value = chunk b'x' value

unfoldable pub sequence : ℕ → List ℕ
unfolding chunk decimal
sequence n = chunk b'q' (decimal n)

unfoldable pub mapping : ℕ → List ℕ
unfolding chunk decimal
mapping n = chunk b'm' (decimal n)

-- `sorted(items)`, on the entries with their values written.
abbrev Written : Type 0
Written = String × List ℕ

insert_key : Written → List Written → List Written
insert_key (k, v) [] = (k, v) ∷ []
insert_key (k, v) ((j, w) ∷ rest) = elim (compare k j) [
  | Ordering.gt ↦ (j, w) ∷ insert_key (k, v) rest
  | _ ↦ (k, v) ∷ (j, w) ∷ rest
]

sort_keys : List Written → List Written
unfolding insert_key
sort_keys [] = []
sort_keys (w ∷ ws) = insert_key w (sort_keys ws)

write_entries : List Written → List ℕ
unfolding string
write_entries [] = []
write_entries ((k, v) ∷ rest) = string k ++ (v ++ write_entries rest)

count_items : Items → ℕ
count_items no_item = 0
count_items (item j rest) = suc (count_items rest)

write_mapping : List Written → List ℕ
unfolding mapping sort_keys write_entries
write_mapping ws = mapping (length ws) ++ write_entries (sort_keys ws)

unfoldable mutual
  unfolding write_ℤ number string sequence count_items write_mapping

  pub json : Json → List ℕ
  json null = write_none
  json (boolean b) = write_boolean b
  json (json_integer n) = write_ℤ n
  json (float hex) = number hex
  json (json_string s) = string s
  json (array items) = sequence (count_items items) ++ json_items items
  json (object entries) = write_mapping (json_entries entries)

  json_items : Items → List ℕ
  json_items no_item = []
  json_items (item j rest) = json j ++ json_items rest

  json_entries : Entries → List Written
  json_entries no_entry = []
  json_entries (entry k j rest) = (k, json j) ∷ json_entries rest

abbrev pub json_object : Entries → List ℕ
json_object entries = json (object entries)
