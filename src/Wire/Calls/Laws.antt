-- ===== src/Wire/Calls/Laws.antt =====
-- Decoding an encoded runtime tool call or output item gives it back.
use jharness.Common.{◌≡◌, refl, ap, false, String, Option, none, some, List, [], ◌∷◌, arith}
use jharness.Errors.{Result, ok, ◌>>=◌, >>=-eq-ok}
use jharness.Json.{Json, string, array, object}
use jharness.Messages.{
  ContentPart, StructuredToolCall, FreeformToolCall, RuntimeToolCall, structured, freeform,
  ErrorInfo, ProviderToolCall, ModelOutputItem, content_item, runtime_item, provider_item,
  ProviderToolStatus, in_progress, completed, incomplete, failed,
}
use jharness.Messages.Checks.{
  check_structured, check_freeform, check_runtime_call, check_tool_id, check_provider_call,
  check_error_info, empty_text, check_input,
}
use jharness.Wire.{each, list_of, items_of, optional, read_enum}
use jharness.Wire.Parts.{
  encode_content_part, decode_content_part_value, encode_error_info, decode_error_info_value,
}
use jharness.Wire.Parts.Laws.{
  IsPart, OptionHolds, decode_content_part-encode, decode_error_info-encode,
}
use jharness.Wire.Calls.{
  encode_runtime_tool_call, decode_runtime_tool_call_value, encode_model_output_item,
  decode_model_output_item_value, decode_parts, decode_structured, decode_freeform, call_entries,
  decode_provider_call, decode_content_item, decode_runtime_item, status_text, error_json, statuses,
}

pub list_of-items_of : (vs : List Json) → list_of (items_of vs) ≡ vs
list_of-items_of [] = refl
list_of-items_of (v ∷ vs) = ap (λ t. v ∷ t) (list_of-items_of vs)

abbrev pub All {ℓ} : {A : Type ℓ} → (A → Type 0) → List A → Type 0
All P [] = Unit
All P (x ∷ xs) = P x × All P xs

-- If each encoded item decodes to the item, then the encoded list decodes to the list.
pub each-each :
    {A B : Type 0} (encode : A → Result B) (decode : B → Result A) (P : A → Type 0)
    → ((a : A) → P a → (encode a >>= decode) ≡ ok a)
    → (xs : List A) → All P xs
    → (each encode xs >>= each decode) ≡ ok xs
unfolding each
each-each encode decode P back [] h = refl
each-each encode decode P back (x ∷ xs) (h, hs) =
    let (b, encoded, decoded) = >>=-eq-ok (encode x) decode (back x h) in
    let (bs, rest, more) =
      >>=-eq-ok (each encode xs) (each decode) (each-each encode decode P back xs hs) in
    rw (encoded, rest, decoded, more)

structured_inputs :
    (c : StructuredToolCall)
    → check_structured c ≡ ok tt
    → (empty_text c.id ≡ false)
      × (empty_text c.name ≡ false)
      × (check_input c.arguments c.raw_input ≡ ok tt)
unfolding check_structured
structured_inputs c h = ground arith

decode_structured-entries :
    (c : StructuredToolCall)
    → check_structured c ≡ ok tt
    → decode_structured (call_entries (structured c)) ≡ ok (structured c)
unfolding decode_structured call_entries
decode_structured-entries c h = ground (arith, structured_inputs c h)

freeform_texts :
    (c : FreeformToolCall)
    → check_freeform c ≡ ok tt
    → (empty_text c.id ≡ false) × (empty_text c.name ≡ false)
unfolding check_freeform
freeform_texts c h = ground arith

decode_freeform-entries :
    (c : FreeformToolCall)
    → check_freeform c ≡ ok tt
    → decode_freeform (call_entries (freeform c)) ≡ ok (freeform c)
unfolding decode_freeform call_entries
decode_freeform-entries c h = ground (arith, freeform_texts c h)

pub decode_runtime_tool_call-encode :
    (c : RuntimeToolCall)
    → check_runtime_call c ≡ ok tt
    → decode_runtime_tool_call_value (encode_runtime_tool_call c) ≡ ok c
unfolding decode_runtime_tool_call_value encode_runtime_tool_call check_runtime_call
decode_runtime_tool_call-encode (structured c) h = decode_structured-entries c h
decode_runtime_tool_call-encode (freeform c) h = decode_freeform-entries c h

decode_runtime_item-entries :
    (c : RuntimeToolCall)
    → check_runtime_call c ≡ ok tt
    → (encode_model_output_item (runtime_item c) >>= decode_model_output_item_value)
      ≡ ok (runtime_item c)
unfolding encode_model_output_item decode_model_output_item_value decode_runtime_item
decode_runtime_item-entries c h =
    let back : decode_runtime_tool_call_value (object (call_entries c)) ≡ ok c =
      unfold encode_runtime_tool_call in decode_runtime_tool_call-encode c h in
    rw back

-- What the constructors of a provider call's parts check.
pub record IsProviderCall (c : ProviderToolCall) : Type 0 where
  pub checked : check_provider_call c ≡ ok tt
  pub tool : check_tool_id c.tool ≡ ok tt
  pub output : All IsPart c.output
  pub error : OptionHolds (λ (e : ErrorInfo). check_error_info e ≡ ok tt) c.error

abbrev pub IsItem : ModelOutputItem → Type 0
IsItem (content_item p) = IsPart p
IsItem (runtime_item c) = check_runtime_call c ≡ ok tt
IsItem (provider_item c) = IsProviderCall c

provider_texts :
    (c : ProviderToolCall)
    → check_provider_call c ≡ ok tt
    → check_tool_id c.tool ≡ ok tt
    → (empty_text c.id ≡ false)
      × (empty_text c.tool.namespace ≡ false)
      × (empty_text c.tool.type ≡ false)
unfolding check_provider_call check_tool_id
provider_texts c h k = ground arith

decode_error_json :
    (o : Option ErrorInfo)
    → OptionHolds (λ (e : ErrorInfo). check_error_info e ≡ ok tt) o
    → optional decode_error_info_value (error_json o) ≡ ok o
unfolding optional encode_error_info
decode_error_json none h = refl
decode_error_json (some e) h = rw (decode_error_info-encode e h)

read_status :
    (s : ProviderToolStatus)
    → read_enum statuses (string (status_text s)) "provider tool status" ≡ ok s
unfolding read_enum
read_status in_progress = refl
read_status completed = refl
read_status incomplete = refl
read_status failed = refl

parts_back :
    (parts : List ContentPart)
    → All IsPart parts
    → (each encode_content_part parts >>= each decode_content_part_value) ≡ ok parts
parts_back =
    each-each encode_content_part decode_content_part_value IsPart decode_content_part-encode

-- Valid parts are encoded as items that decode to them.
pub parts_encode :
    (parts : List ContentPart)
    → All IsPart parts
    → (vs : List Json) × (each encode_content_part parts ≡ ok vs)
      × ((label : String) → decode_parts (array (items_of vs)) label ≡ ok parts)
unfolding decode_parts
parts_encode parts h =
    let (vs, encoded, decoded) =
      >>=-eq-ok (each encode_content_part parts) _ (parts_back parts h) in
    (vs, encoded, λ label. rw (list_of-items_of vs, decoded))

decode_provider_item-encode :
    (c : ProviderToolCall)
    → IsProviderCall c
    → (encode_model_output_item (provider_item c) >>= decode_model_output_item_value)
      ≡ ok (provider_item c)
unfolding encode_model_output_item decode_model_output_item_value decode_provider_call
decode_provider_item-encode c v =
    let (vs, encoded, decoded) = parts_encode c.output v.output in
    let (id, namespace, type) = provider_texts c v.checked v.tool in
    rw (
      encoded,
      read_status c.status,
      id,
      namespace,
      type,
      v.tool,
      decoded "provider tool output",
      decode_error_json c.error v.error,
      v.checked,
    )

-- Decoding what a valid item is encoded as gives the item.
pub decode_item-encode :
    (i : ModelOutputItem)
    → IsItem i
    → (encode_model_output_item i >>= decode_model_output_item_value) ≡ ok i
decode_item-encode (content_item p) h =
    let (content, encoded, decoded) =
      >>=-eq-ok (encode_content_part p) _ (decode_content_part-encode p h) in
    unfold encode_model_output_item decode_model_output_item_value decode_content_item in
    rw (encoded, decoded)
decode_item-encode (runtime_item c) h = decode_runtime_item-entries c h
decode_item-encode (provider_item c) h = decode_provider_item-encode c h
