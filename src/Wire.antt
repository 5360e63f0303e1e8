-- ===== src/Wire.antt =====
-- packages/jharness-kernel/src/jharness/kernel/wire/_helpers.py: strict reading of host JSON trees.
-- A mapping is the list of its entries, in order, with distinct keys. Exceptions carry the label of
-- the value that is wrong.
pub mod Parts
pub mod Calls
pub mod Messages
pub mod State
pub mod Snapshot
pub mod Facts
pub mod Checkpoints
use jharness.Common.{
  ℕ, String, Bool, true, false, not, ◌&&◌, ◌||◌, Option, none, some, List, [], ◌∷◌, if◌then◌else◌,
  ltb, says, same_string, ℤ, pos, negsuc, map,
}
use jharness.Errors.{
  Error, Result, ok, err, value_error, type_error, key_error, protocol, ◌>>=◌, ◌>>◌, raise_if,
}
use jharness.Json.{
  Json, Items, Entries, null, boolean, integer, float, string, array, object, no_item, item,
  no_entry, entry,
}
use jharness.Json.Depth.{walk}
use jharness.State.Pending.{has_text, unique_texts}

-- `mapping.get(key)`, and the presence of a key.
unfoldable pub find : String → Entries → Option Json
find key no_entry = none
find key (entry k v rest) = if same_string k key then some v else find key rest

unfoldable pub includes : List String → String → Bool
includes [] key = false
includes (k ∷ ks) key = same_string k key || includes ks key

abbrev is_found : Option Json → Bool
is_found none = false
is_found (some v) = true

-- `required - keys` and `keys - required - optional` are empty.
unfoldable pub all_found : List String → Entries → Bool
unfolding find
all_found [] entries = true
all_found (k ∷ ks) entries = is_found (find k entries) && all_found ks entries

unfoldable pub all_known : List String → List String → Entries → Bool
unfolding includes
all_known required optional no_entry = true
all_known required optional (entry k v rest) =
    (includes required k || includes optional k) && all_known required optional rest

unfoldable pub json_object : Json → String → Result Entries
json_object (object entries) label = ok entries
json_object _ label = err (protocol (says label " must be an object"))

unfoldable pub object_fields : Json → String → List String → List String → Result Entries
unfolding json_object all_found all_known
object_fields v label required optional = do
  entries ← json_object v label
  raise_if (not (all_found required entries)) (protocol (says label " is missing field(s)"))
  raise_if (not (all_known required optional entries))
      (protocol (says label " has unknown field(s)"))
  ok entries

abbrev pub or_key_error : String → Option Json → Result Json
or_key_error key none = err (key_error key)
or_key_error key (some v) = ok v

-- `fields[key]`.
unfoldable pub field : String → Entries → Result Json
unfolding find
field key entries = or_key_error key (find key entries)

abbrev pub list_of : Items → List Json
list_of no_item = []
list_of (item v rest) = v ∷ list_of rest

abbrev pub items_of : List Json → Items
items_of [] = no_item
items_of (v ∷ rest) = item v (items_of rest)

unfoldable pub read_array : Json → String → Result (List Json)
read_array (array items) label = ok (list_of items)
read_array _ label = err (protocol (says label " must be an array"))

-- `tuple(f(item) for item in items)`.
unfoldable pub each {κ ℓ} : {A : Type κ} {B : Type ℓ} → (A → Result B) → List A → Result (List B)
each decode [] = ok []
each decode (v ∷ rest) = do x ← decode v; xs ← each decode rest; ok (x ∷ xs)

unfoldable pub read_string : Json → String → Result String
read_string (string s) label = ok s
read_string _ label = err (protocol (says label " must be a string"))

-- `string(value, label, non_empty=True)`.
unfoldable pub read_non_empty : Json → String → Result String
unfolding read_string
read_non_empty v label = do
  s ← read_string v label
  raise_if (same_string s "") (protocol (says label " must not be empty"))
  ok s

-- `None if value is None else read(value)`.
unfoldable pub optional {ℓ} : {A : Type ℓ} → (Json → Result A) → Json → Result (Option A)
optional read null = ok none
optional read v = do x ← read v; ok (some x)

abbrev pub read_found {ℓ} : {A : Type ℓ} → (Json → Result A) → Option Json → Result (Option A)
read_found read none = ok none
read_found read (some v) = do x ← read v; ok (some x)

-- `None if key not in fields else read(fields[key])`.
unfoldable pub present {ℓ} : {A : Type ℓ} → (Json → Result A) → String → Entries → Result (Option A)
unfolding find
present read key entries = read_found read (find key entries)

-- `integer(value, label, minimum=minimum)`, for a minimum of at least 0.
unfoldable pub read_integer : ℕ → Json → String → Result ℕ
read_integer minimum (integer (pos n)) label =
    raise_if (ltb n minimum) (protocol (says label " must be >= the minimum")) >> ok n
read_integer minimum (integer (negsuc n)) label =
    err (protocol (says label " must be >= the minimum"))
read_integer minimum _ label = err (protocol (says label " must be an integer"))

unfoldable pub read_boolean : Json → String → Result Bool
read_boolean (boolean b) label = ok b
read_boolean _ label = err (protocol (says label " must be a boolean"))

abbrev pub chosen {ℓ} : {A : Type ℓ} → List (String × A) → String → String → Result A
chosen [] s label = err (protocol (says label " has unsupported value"))
chosen ((t, a) ∷ rest) s label = if same_string t s then ok a else chosen rest s label

-- `enum_string`, on the allowed texts and what each stands for.
unfoldable pub read_enum {ℓ} : {A : Type ℓ} → List (String × A) → Json → String → Result A
unfolding read_string
read_enum allowed v label = do s ← read_string v label; chosen allowed s label

unfoldable pub unique_strings : (Json → Result String) → Json → String → Result (List String)
unfolding each read_array unique_texts
unique_strings read v label = do
  values ← read_array v label
  texts ← each read values
  raise_if (not (unique_texts texts)) (protocol (says label " items must be unique"))
  ok texts

-- The exceptions that `decode_document` turns into a `ProtocolError`.
unfoldable pub normalize {ℓ} : {A : Type ℓ} → String → Result A → Result A
normalize label (ok x) = ok x
normalize label (err (value_error m)) = err (protocol (says "invalid " label))
normalize label (err (type_error m)) = err (protocol (says "invalid " label))
normalize label (err (key_error k)) = err (protocol (says "invalid " label))
normalize label (err e) = err e

abbrev pub too_deep : String → Error
too_deep label = protocol (says label " exceeds the maximum JSON nesting depth of 128")

-- `decode_document`; the values of the model are JSON values, all that `_validate_json` leaves to
-- check is their nesting.
unfoldable pub decode_document {ℓ} : {A : Type ℓ} → Json → String → (Json → Result A) → Result A
unfolding normalize
decode_document v label decoder = normalize label (walk (too_deep label) 0 v >> decoder v)
