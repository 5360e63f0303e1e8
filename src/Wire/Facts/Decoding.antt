-- ===== src/Wire/Facts/Decoding.antt =====
-- Decoding facts: the functions on facts of
-- packages/jharness-kernel/src/jharness/kernel/wire/checkpoint.py that decode.
use jharness.Common.{String, Option, none, some, List, [], ◌∷◌, ℤ, says, same_string, if◌then◌else◌}
use jharness.Errors.{Result, ok, err, protocol, ◌>>=◌}
use jharness.Json.{Json, Entries, object}
use jharness.Messages.{Role}
use jharness.Checkpoint.{
  SuspensionView, ControlDecision, suspended_control, failed_control, limited_control, FactBody,
  started, resumed, model_turn, tool_batch, conversation_insert, history_rewrite, control, Fact,
  check_fact, check_suspension_view,
}
use jharness.Wire.{
  find, field, object_fields, json_object, read_array, each, read_string, read_non_empty,
  read_integer, read_boolean, read_enum, optional, unique_strings, decode_document,
}
use jharness.Wire.Parts.{built}
use jharness.Wire.State.{decode_model_usage_value, limit_reasons}
use jharness.Wire.Snapshot.{read_number}
use jharness.Wire.Facts.{roles, model_results, outcome_kinds_allowed}

-- `_decode_roles`.
unfoldable pub decode_roles : Json → String → Result (List Role)
unfolding read_array each read_enum
decode_roles v label = do
  items ← read_array v label
  each (λ j. read_enum roles j (says label " item")) items

-- A tuple that must not be empty.
abbrev pub expect_items {ℓ} : {A : Type ℓ} → List A → String → Result (List A)
expect_items [] label = err (protocol (says label " must not be empty"))
expect_items xs label = ok xs

-- `unique_strings(value, label)`, and with `non_empty_items=True`.
unfoldable pub read_keys : Json → String → Result (List String)
unfolding unique_strings read_string
read_keys v label = unique_strings (λ j. read_string j (says label " item")) v label

unfoldable pub read_ids : Json → String → Result (List String)
unfolding unique_strings read_non_empty
read_ids v label = unique_strings (λ j. read_non_empty j (says label " item")) v label

-- `_decode_suspension_view`.
unfoldable pub decode_suspension_view : Json → Result SuspensionView
unfolding object_fields field read_non_empty optional read_keys check_suspension_view
decode_suspension_view v = do
  fields ←
      object_fields v "suspension view" ("reason" ∷ "source" ∷ "wait_id" ∷ "metadata_keys" ∷ []) []
  reason ← read_non_empty (← field "reason" fields) "suspension reason"
  source ← read_non_empty (← field "source" fields) "suspension source"
  wait_id ← optional (λ j. read_non_empty j "suspension wait_id") (← field "wait_id" fields)
  metadata_keys ← read_keys (← field "metadata_keys" fields) "suspension metadata_keys"
  built check_suspension_view (record {
    reason = reason;
    source = source;
    wait_id = wait_id;
    metadata_keys = metadata_keys;
  })

-- `_decode_started`.
unfoldable pub decode_started : Json → Result FactBody
unfolding object_fields field decode_roles
decode_started v = do
  fields ← object_fields v "started fact" ("history_roles" ∷ []) []
  read ← decode_roles (← field "history_roles" fields) "started history_roles"
  rs ← expect_items read "started history_roles"
  ok (started rs)

-- `_decode_resumed`.
unfoldable pub decode_resumed : Json → Result FactBody
unfolding object_fields field decode_roles read_keys
decode_resumed v = do
  fields ← object_fields v "resumed fact" ("appended_roles" ∷ "metadata_keys" ∷ []) []
  rs ← decode_roles (← field "appended_roles" fields) "resumed appended_roles"
  keys ← read_keys (← field "metadata_keys" fields) "resumed metadata_keys"
  ok (resumed rs keys)

-- `_decode_model_turn`.
unfoldable pub decode_model_turn : Json → Result FactBody
unfolding object_fields field read_enum read_integer read_ids read_boolean optional read_string
decode_model_turn v = do
  fields ←
      object_fields v "model turn fact"
        ("result" ∷ "part_count" ∷ "tool_call_ids" ∷ "provider_turn_pending" ∷ "finish_reason"
          ∷ "usage" ∷ "limit_reason" ∷ [])
        []
  raw_usage ← field "usage" fields
  raw_limit ← field "limit_reason" fields
  result ← read_enum model_results (← field "result" fields) "model turn result"
  part_count ← read_integer 0 (← field "part_count" fields) "model turn part_count"
  tool_call_ids ← read_ids (← field "tool_call_ids" fields) "model turn tool_call_ids"
  flag ← read_boolean (← field "provider_turn_pending" fields) "model turn provider_turn_pending"
  finish_reason ←
      optional (λ j. read_string j "model turn finish_reason") (← field "finish_reason" fields)
  usage ← optional decode_model_usage_value raw_usage
  limit_reason ← optional (λ j. read_enum limit_reasons j "model turn limit_reason") raw_limit
  ok (
      model_turn (record {
        result = result;
        part_count = part_count;
        tool_call_ids = tool_call_ids;
        provider_turn_pending = flag;
        finish_reason = finish_reason;
        usage = usage;
        limit_reason = limit_reason;
      }))

-- `_decode_tool_batch`.
unfoldable pub decode_tool_batch : Json → Result FactBody
unfolding object_fields field read_array each read_enum read_non_empty read_ids read_boolean
    optional decode_suspension_view
decode_tool_batch v = do
  fields ←
      object_fields v "tool batch fact"
        ("batch_id" ∷ "call_ids" ∷ "parallel" ∷ "outcome_kinds" ∷ "suspension" ∷ []) []
  items ← read_array (← field "outcome_kinds" fields) "tool batch outcome_kinds"
  read ← each (λ j. read_enum outcome_kinds_allowed j "tool outcome kind") items
  outcomes ← expect_items read "tool batch outcome_kinds"
  raw_suspension ← field "suspension" fields
  batch_id ← read_non_empty (← field "batch_id" fields) "tool batch id"
  ids ← read_ids (← field "call_ids" fields) "tool batch call_ids"
  call_ids ← expect_items ids "tool batch call_ids"
  parallel ← read_boolean (← field "parallel" fields) "tool batch parallel"
  suspension ← optional decode_suspension_view raw_suspension
  ok (
      tool_batch (record {
        batch_id = batch_id;
        call_ids = call_ids;
        parallel = parallel;
        outcome_kinds = outcomes;
        suspension = suspension;
      }))

-- The `conversation_insert` branch of `decode_fact_value`.
unfoldable pub decode_insert : Json → Result FactBody
unfolding object_fields field read_non_empty
decode_insert v = do
  fields ← object_fields v "conversation insert fact" ("source" ∷ []) []
  source ← read_non_empty (← field "source" fields) "conversation insert source"
  ok (conversation_insert source)

-- `_decode_history_rewrite`.
unfoldable pub decode_rewrite : Json → Result FactBody
unfolding object_fields field decode_roles read_integer read_non_empty read_keys
decode_rewrite v = do
  fields ←
      object_fields v "history rewrite fact"
        ("before_count" ∷ "after_roles" ∷ "reason" ∷ "metadata_keys" ∷ []) []
  read ← decode_roles (← field "after_roles" fields) "history rewrite after_roles"
  rs ← expect_items read "history rewrite after_roles"
  before_count ← read_integer 1 (← field "before_count" fields) "history rewrite before_count"
  reason ← read_non_empty (← field "reason" fields) "history rewrite reason"
  metadata_keys ← read_keys (← field "metadata_keys" fields) "history rewrite metadata_keys"
  ok (
      history_rewrite (record {
        before_count = before_count;
        after_roles = rs;
        reason = reason;
        metadata_keys = metadata_keys;
      }))

abbrev pub control_actions : List (String × String)
control_actions = ("suspended", "suspended") ∷ ("failed", "failed") ∷ ("limited", "limited") ∷ []

unfoldable pub decode_suspended_control : Entries → Result ControlDecision
unfolding object_fields field read_non_empty optional read_keys check_suspension_view
decode_suspended_control raw = do
  fields ←
      object_fields (object raw) "suspended control"
        ("action" ∷ "reason" ∷ "source" ∷ "wait_id" ∷ "metadata_keys" ∷ []) []
  reason ← read_non_empty (← field "reason" fields) "control reason"
  source ← read_non_empty (← field "source" fields) "control source"
  wait_id ← optional (λ j. read_non_empty j "control wait_id") (← field "wait_id" fields)
  metadata_keys ← read_keys (← field "metadata_keys" fields) "control metadata_keys"
  view ← built check_suspension_view (record {
    reason = reason;
    source = source;
    wait_id = wait_id;
    metadata_keys = metadata_keys;
  })
  ok (suspended_control view)

unfoldable pub decode_failed_control : Entries → Result ControlDecision
unfolding object_fields field read_non_empty
decode_failed_control raw = do
  fields ← object_fields (object raw) "failed control" ("action" ∷ "code" ∷ []) []
  code ← read_non_empty (← field "code" fields) "control failure code"
  ok (failed_control code)

unfoldable pub decode_limited_control : Entries → Result ControlDecision
unfolding object_fields field read_enum
decode_limited_control raw = do
  fields ← object_fields (object raw) "limited control" ("action" ∷ "reason" ∷ []) []
  reason ← read_enum limit_reasons (← field "reason" fields) "control limit reason"
  ok (limited_control reason)

abbrev or_missing_action : Option Json → Result Json
or_missing_action none = err (protocol "control fact is missing field(s): action")
or_missing_action (some v) = ok v

abbrev pub decode_action : String → Entries → Result ControlDecision
decode_action action raw =
    if same_string action "suspended"
    then decode_suspended_control raw
    else if same_string action "failed"
    then decode_failed_control raw
    else decode_limited_control raw

-- `_decode_control`.
unfoldable pub decode_control : Json → Result ControlDecision
unfolding json_object find read_enum
decode_control v = do
  raw ← json_object v "control fact"
  value ← or_missing_action (find "action" raw)
  action ← read_enum control_actions value "control action"
  decode_action action raw

abbrev pub fact_kinds : List (String × String)
fact_kinds =
    ("started", "started")
    ∷ ("resumed", "resumed")
    ∷ ("model_turn", "model_turn")
    ∷ ("tool_batch", "tool_batch")
    ∷ ("conversation_insert", "conversation_insert")
    ∷ ("history_rewrite", "history_rewrite")
    ∷ ("control", "control")
    ∷ []

abbrev pub decode_body : String → Json → Result FactBody
decode_body kind v =
    if same_string kind "started"
    then decode_started v
    else if same_string kind "resumed"
    then decode_resumed v
    else if same_string kind "model_turn"
    then decode_model_turn v
    else if same_string kind "tool_batch"
    then decode_tool_batch v
    else if same_string kind "conversation_insert"
    then decode_insert v
    else if same_string kind "history_rewrite"
    then decode_rewrite v
    else do decision ← decode_control v; ok (control decision)

module _ (float_of : ℤ → String) where
  -- `decode_fact_value`; the constructor of the fact checks its body.
  unfoldable pub decode_fact_value : Json → Result Fact
  unfolding object_fields field read_enum read_number check_fact
  decode_fact_value v = do
    raw ← object_fields v "checkpoint fact" ("kind" ∷ "at" ∷ "data" ∷ []) []
    kind ← read_enum fact_kinds (← field "kind" raw) "fact kind"
    at ← read_number float_of (← field "at" raw) "fact at"
    body ← decode_body kind (← field "data" raw)
    built (λ (f : Fact). check_fact f.body) (record { at = at; body = body })

  unfoldable pub decode_fact : Json → Result Fact
  unfolding decode_document
  decode_fact v = decode_document v "checkpoint fact" decode_fact_value
