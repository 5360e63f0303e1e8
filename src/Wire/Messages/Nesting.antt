-- ===== src/Wire/Messages/Nesting.antt =====
-- The nesting limit of decoding is also that of what constructors accept, so that an encoded message
-- can be too deep.
use jharness.Common.{◌<◌, ◌≡◌, ap, false, String, Option, none, some, leb, arith}
use jharness.Errors.{Result, ok, err, >>=-eq-ok}
use jharness.Json.{Json, Entries, object}
use jharness.Json.Depth.{depth, depth_entries, max_json_nesting_depth}
use jharness.Messages.{ToolOutcome, Role, system, assistant, tool, Message}
use jharness.Wire.{each, too_deep}
use jharness.Wire.Parts.{encode_content_part}
use jharness.Wire.Calls.{encode_model_output_item}
use jharness.Wire.Messages.{
  encode_tool_outcome, encode_role, encode_tool, encode_message, decode_message,
}
use jharness.Wire.Messages.Laws.{IsMessage, decode_message-encode}

same_depth : (w v : Json) → ◌≡◌ {A = Result Json} (ok w) (ok v) → depth w ≡ depth v
same_depth w v h = let same : w ≡ v = cc in ap depth same

encode_tool-depth :
    (id : Option String) (outcome : Option ToolOutcome) (metadata : Entries) (v : Json)
    → encode_tool id outcome metadata ≡ ok v
    → depth (object metadata) < depth v
encode_tool-depth (some i) (some o) metadata v h =
    let (w, outcome, made) = >>=-eq-ok (encode_tool_outcome o) _ h in
    unfold depth depth_entries in omega (arith, same_depth _ v made)
encode_tool-depth none outcome metadata v h = absurd (cc)
encode_tool-depth (some i) none metadata v h = absurd (cc)

encode_role-depth :
    (role : Role) (m : Message) (v : Json)
    → encode_role role m ≡ ok v
    → depth (object m.metadata) < depth v
encode_role-depth system m v h =
    let (vs, parts, made) = >>=-eq-ok (each encode_content_part m.parts) _ h in
    unfold depth depth_entries in omega (arith, same_depth _ v made)
encode_role-depth assistant m v h =
    let (vs, items, made) = >>=-eq-ok (each encode_model_output_item m.output) _ h in
    unfold depth depth_entries in omega (arith, same_depth _ v made)
encode_role-depth tool m v h = encode_tool-depth m.tool_call_id m.outcome m.metadata v h
encode_role-depth role m v h =
    let (vs, parts, made) = >>=-eq-ok (each encode_content_part m.parts) _ h in
    unfold depth depth_entries in omega (arith, same_depth _ v made)

-- A message whose metadata nests as deep as its constructor allows is encoded, and what it is
-- encoded as is refused.
pub decode_message-too_deep :
    (m : Message)
    → IsMessage m
    → depth (object m.metadata) ≡ max_json_nesting_depth
    → (v : Json) × (encode_message m ≡ ok v) × (decode_message v ≡ err (too_deep "message"))
decode_message-too_deep m v h =
    let (w, encoded, decoded) = decode_message-encode m v in
    let role : encode_role m.role m ≡ ok w = unfold encode_message in encoded in
    let deep = encode_role-depth m.role m w role in
    let over : leb (depth w) max_json_nesting_depth ≡ false = ground arith in
    (w, encoded, rw over at decoded)
