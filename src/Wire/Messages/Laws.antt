-- ===== src/Wire/Messages/Laws.antt =====
-- Decoding what a message is encoded as gives the message, as far as the nesting limit allows.
use jharness.Common.{
  ◌⊎◌, inl, inr, subst, ◌≡◌, refl, sym, true, false, String, Option, none, some, List, [], leb,
  if◌then◌else◌, arith,
}
use jharness.Errors.{Result, ok, err, ◌>>=◌, >>=-eq-ok}
use jharness.Json.{Json, Entries}
use jharness.Json.Depth.{depth, walk-depth, max_json_nesting_depth}
use jharness.Messages.{
  ContentPart, TaskRef, ToolOutcome, success, failure, accepted, waiting, Role, system, user,
  assistant, tool, external, Message, ModelOutputItem,
}
use jharness.Messages.Checks.{
  check_outcome, check_message, check_error_info, check_task, output_ids, empty_text,
}
use jharness.State.Pending.{unique_texts}
use jharness.Wire.{each, read_array, optional, too_deep, decode_document}
use jharness.Wire.Parts.{encode_task, decode_task}
use jharness.Wire.Parts.Laws.{IsPart, OptionHolds, decode_task-encode, decode_error_info-encode}
use jharness.Wire.Calls.{encode_model_output_item, decode_model_output_item_value}
use jharness.Wire.Calls.Laws.{
  All, IsItem, parts_encode, each-each, decode_item-encode, list_of-items_of,
}
use jharness.Wire.Messages.{
  task_json, encode_tool_outcome, decode_tool_outcome_value, encode_message, decode_message_value,
  decode_message,
}

decode_task_json :
    (o : Option TaskRef)
    → OptionHolds (λ (t : TaskRef). check_task t ≡ ok tt) o
    → optional decode_task (task_json o) ≡ ok o
unfolding optional encode_task
decode_task_json none h = refl
decode_task_json (some t) h = rw (decode_task-encode t h)

abbrev pub outcome_parts : ToolOutcome → List ContentPart
outcome_parts (success parts content) = parts
outcome_parts (failure parts error content) = parts
outcome_parts (accepted parts id task content) = parts
outcome_parts (waiting parts task content) = parts

abbrev OutcomeRest : ToolOutcome → Type 0
OutcomeRest (success parts content) = Unit
OutcomeRest (failure parts error content) = check_error_info error ≡ ok tt
OutcomeRest (accepted parts id task content) =
    OptionHolds (λ (t : TaskRef). check_task t ≡ ok tt) task
OutcomeRest (waiting parts task content) = OptionHolds (λ (t : TaskRef). check_task t ≡ ok tt) task

-- What the constructors of an outcome and of its parts check.
pub record IsOutcome (o : ToolOutcome) : Type 0 where
  pub checked : check_outcome o ≡ ok tt
  pub parts : All IsPart (outcome_parts o)
  pub rest : OutcomeRest o

correlation :
    (parts : List ContentPart) (id : String) (task : Option TaskRef) (content : Json)
    → check_outcome (accepted parts id task content) ≡ ok tt
    → empty_text id ≡ false
unfolding check_outcome
correlation parts id task content h = ground arith

-- Decoding what a valid outcome is encoded as gives the outcome.
pub decode_outcome-encode :
    (o : ToolOutcome) → IsOutcome o → (encode_tool_outcome o >>= decode_tool_outcome_value) ≡ ok o
unfolding encode_tool_outcome decode_tool_outcome_value
decode_outcome-encode (success parts content) v =
    let (vs, encoded, decoded) = parts_encode parts v.parts in
    rw (encoded, decoded "tool success parts", v.checked)
decode_outcome-encode (failure parts error content) v =
    let (vs, encoded, decoded) = parts_encode parts v.parts in
    rw (encoded, decoded "tool failure parts", decode_error_info-encode error v.rest, v.checked)
decode_outcome-encode (accepted parts id task content) v =
    let (vs, encoded, decoded) = parts_encode parts v.parts in
    rw (
      encoded,
      decoded "tool accepted parts",
      correlation parts id task content v.checked,
      decode_task_json task v.rest,
      v.checked,
    )
decode_outcome-encode (waiting parts task content) v =
    let (vs, encoded, decoded) = parts_encode parts v.parts in
    rw (encoded, decoded "tool waiting parts", decode_task_json task v.rest, v.checked)

-- What the constructors of a message and of its parts check.
pub record IsMessage (m : Message) : Type 0 where
  pub checked : check_message m ≡ ok tt
  pub parts : All IsPart m.parts
  pub output : All IsItem m.output
  pub outcome : OptionHolds IsOutcome m.outcome

abbrev IsRegular : Role → Type 0
IsRegular assistant = ⊥
IsRegular tool = ⊥
IsRegular _ = Unit

abbrev DecodesBack : Message → Type 0
DecodesBack m = (encode_message m >>= decode_message_value) ≡ ok m

abbrev regular_message : Role → List ContentPart → Entries → Message
regular_message role parts metadata = record {
  role = role;
  parts = parts;
  output = [];
  tool_call_id = none;
  outcome = none;
  metadata = metadata;
}

abbrev assistant_message : List ModelOutputItem → Entries → Message
assistant_message output metadata = record {
  role = assistant;
  parts = [];
  output = output;
  tool_call_id = none;
  outcome = none;
  metadata = metadata;
}

abbrev result_message : String → ToolOutcome → Entries → Message
result_message id outcome metadata = record {
  role = tool;
  parts = [];
  output = [];
  tool_call_id = some id;
  outcome = some outcome;
  metadata = metadata;
}

regular_back :
    (role : Role) (parts : List ContentPart) (metadata : Entries)
    → IsRegular role
    → IsMessage (regular_message role parts metadata)
    → DecodesBack (regular_message role parts metadata)
unfolding encode_message decode_message_value
regular_back system parts metadata r v =
    let (vs, encoded, decoded) = parts_encode parts v.parts in
    rw (encoded, decoded "message parts", v.checked)
regular_back user parts metadata r v =
    let (vs, encoded, decoded) = parts_encode parts v.parts in
    rw (encoded, decoded "message parts", v.checked)
regular_back external parts metadata r v =
    let (vs, encoded, decoded) = parts_encode parts v.parts in
    rw (encoded, decoded "message parts", v.checked)
regular_back assistant parts metadata r v = absurd r
regular_back tool parts metadata r v = absurd r

assistant_ids :
    (output : List ModelOutputItem) (metadata : Entries)
    → check_message (assistant_message output metadata) ≡ ok tt
    → unique_texts (output_ids output) ≡ true
unfolding check_message
assistant_ids output metadata h = ground arith

assistant_back :
    (output : List ModelOutputItem) (metadata : Entries)
    → IsMessage (assistant_message output metadata)
    → DecodesBack (assistant_message output metadata)
unfolding encode_message decode_message_value read_array
assistant_back output metadata v =
    let back =
      each-each encode_model_output_item decode_model_output_item_value IsItem decode_item-encode
        output v.output in
    let (vs, encoded, decoded) = >>=-eq-ok (each encode_model_output_item output) _ back in
    rw (encoded, list_of-items_of vs, decoded, assistant_ids output metadata v.checked, v.checked)

tool_id :
    (id : String) (outcome : ToolOutcome) (metadata : Entries)
    → check_message (result_message id outcome metadata) ≡ ok tt
    → empty_text id ≡ false
unfolding check_message
tool_id id outcome metadata h = ground arith

tool_back :
    (id : String) (outcome : ToolOutcome) (metadata : Entries)
    → IsMessage (result_message id outcome metadata)
    → DecodesBack (result_message id outcome metadata)
unfolding encode_message decode_message_value
tool_back id outcome metadata v =
    let (w, encoded, decoded) =
      >>=-eq-ok (encode_tool_outcome outcome) _ (decode_outcome-encode outcome v.outcome) in
    rw (encoded, tool_id id outcome metadata v.checked, decoded, v.checked)

regular_fields :
    (m : Message)
    → IsRegular m.role
    → check_message m ≡ ok tt
    → m ≡ regular_message m.role m.parts m.metadata
unfolding check_message
regular_fields m r h = ground arith

assistant_fields :
    (m : Message)
    → m.role ≡ assistant
    → check_message m ≡ ok tt
    → m ≡ assistant_message m.output m.metadata
unfolding check_message
assistant_fields m r h = ground arith

tool_fields :
    (role : Role) (parts : List ContentPart) (output : List ModelOutputItem) (id : Option String)
    (outcome : Option ToolOutcome) (metadata : Entries)
    → role ≡ tool
    → check_message (record {
      role = role;
      parts = parts;
      output = output;
      tool_call_id = id;
      outcome = outcome;
      metadata = metadata;
    })
      ≡ ok tt
    → (i : String) × (o : ToolOutcome) × (◌≡◌ {A = Message}
        (record {
          role = role;
          parts = parts;
          output = output;
          tool_call_id = id;
          outcome = outcome;
          metadata = metadata;
        })
        (result_message i o metadata))
unfolding check_message
tool_fields role parts output none outcome metadata r h = absurd (ground arith)
tool_fields role parts output (some i) none metadata r h = absurd (ground arith)
tool_fields role parts output (some i) (some o) metadata r h = (i, o, ground arith)

Role-cases : (r : Role) → IsRegular r ⊎ (r ≡ assistant) ⊎ (r ≡ tool)
Role-cases system = inl tt
Role-cases user = inl tt
Role-cases external = inl tt
Role-cases assistant = inr (inl refl)
Role-cases tool = inr (inr refl)

-- Decoding what a valid message is encoded as gives the message, before the nesting of the whole
-- is checked.
pub decode_value-encode : (m : Message) → IsMessage m → DecodesBack m
decode_value-encode m v = elim (Role-cases m.role) [
  | inl regular ↦
      let same = regular_fields m regular v.checked in
      subst DecodesBack (sym same)
        (regular_back m.role m.parts m.metadata regular (subst IsMessage same v))
  | inr (inl role) ↦
      let same = assistant_fields m role v.checked in
      subst DecodesBack (sym same) (assistant_back m.output m.metadata (subst IsMessage same v))
  | inr (inr role) ↦
      let (i, o, same) =
        tool_fields m.role m.parts m.output m.tool_call_id m.outcome m.metadata role v.checked in
      subst DecodesBack (sym same) (tool_back i o m.metadata (subst IsMessage same v))
]

pub decode_document-back :
    {A : Type 0} (v : Json) (label : String) (decoder : Json → Result A) (a : A)
    → decoder v ≡ ok a
    → decode_document v label decoder
      ≡ (if leb (depth v) max_json_nesting_depth then ok a else err (too_deep label))
unfolding decode_document
decode_document-back v label decoder a h = rw (walk-depth (too_deep label) v, h) (ground arith)

-- A valid message can be encoded, and decoding what it is encoded as gives the message back, or
-- raises if the whole nests deeper than the limit.
pub decode_message-encode :
    (m : Message)
    → IsMessage m
    → (v : Json) × (encode_message m ≡ ok v)
      × (decode_message v
          ≡ (if leb (depth v) max_json_nesting_depth then ok m else err (too_deep "message")))
unfolding decode_message
decode_message-encode m v =
    let (w, encoded, decoded) = >>=-eq-ok (encode_message m) _ (decode_value-encode m v) in
    (w, encoded, decode_document-back w "message" decode_message_value m decoded)
