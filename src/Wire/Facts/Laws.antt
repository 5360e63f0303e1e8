-- ===== src/Wire/Facts/Laws.antt =====
-- Decoding an encoded fact gives it back.
use jharness.Common.{
  ℕ, ◌≤◌, ◌≡◌, refl, false, String, Option, none, some, List, [], ◌∷◌, ℤ, pos, arith,
}
use jharness.Errors.{ok, >>-eq-ok}
use jharness.Json.{string, float, integer}
use jharness.State.{LimitReason}
use jharness.State.Usage.{ModelUsage}
use jharness.Checkpoint.{
  SuspensionView, ModelTurn, ToolBatchTurn, Rewrite, ControlDecision, suspended_control,
  failed_control, limited_control, FactBody, started, resumed, model_turn, tool_batch,
  conversation_insert, history_rewrite, control, Fact, check_fact, check_texts,
  check_suspension_view, check_tool_batch, check_rewrite, is_empty, is_blank, check_optional_view,
}
use jharness.Wire.{read_enum, read_integer, optional, read_string}
use jharness.Wire.Parts.{or_null, text_json}
use jharness.Wire.State.{limit_reasons, encode_model_usage, decode_model_usage_value}
use jharness.Wire.State.Laws.{decode_usage-encode, read_integer-pos}
use jharness.Wire.Snapshot.{negative, read_number}
use jharness.Wire.Facts.{
  encode_suspension_view, control_data, body_data, encode_fact, kind_text, outcome_kinds_allowed,
  usage_json, limit_json, view_json, body_kind,
}
use jharness.Wire.Facts.Decoding.{
  decode_suspension_view, decode_started, decode_resumed, decode_model_turn, decode_tool_batch,
  decode_insert, decode_rewrite, decode_control, decode_suspended_control, decode_failed_control,
  decode_limited_control, decode_fact_value, expect_items, decode_body, fact_kinds,
}
use jharness.Wire.Facts.Readers.{
  read_result, read_kind, read_limit, each-map, decode_roles-encode, texts_facts, filled_text,
  read_keys-encode, read_ids-encode, view_facts, read_wait,
}

decode_suspension_view-encode :
    (v : SuspensionView)
    → check_suspension_view v ≡ ok tt
    → decode_suspension_view (encode_suspension_view v) ≡ ok v
unfolding decode_suspension_view encode_suspension_view
decode_suspension_view-encode v h =
    let (reason, source, wait, keys) = view_facts v h in
    rw (
      filled_text v.reason reason,
      filled_text v.source source,
      read_wait v.wait_id "suspension wait_id" wait,
      read_keys-encode v.metadata_keys "suspension metadata_keys"
          (texts_facts v.metadata_keys keys).1,
      h,
    )

decode_control-encode :
    (d : ControlDecision) → check_fact (control d) ≡ ok tt → decode_control (control_data d) ≡ ok d
unfolding decode_control control_data check_fact
decode_control-encode (suspended_control v) h =
    let (reason, source, wait, keys) = view_facts v h in
    unfold decode_suspended_control in
    rw (
      filled_text v.reason reason,
      filled_text v.source source,
      read_wait v.wait_id "control wait_id" wait,
      read_keys-encode v.metadata_keys "control metadata_keys" (texts_facts v.metadata_keys keys).1,
      h,
    )
decode_control-encode (failed_control code) h =
    unfold decode_failed_control in rw (filled_text code (ground arith))
decode_control-encode (limited_control reason) h =
    unfold decode_limited_control in rw (read_limit reason "control limit reason")

expect_items-full {ℓ} :
    {A : Type ℓ} (xs : List A) (label : String)
    → is_empty xs ≡ false
    → expect_items xs label ≡ ok xs
expect_items-full [] label h = cc
expect_items-full (x ∷ xs) label h = refl

read_optional_text :
    (o : Option String) (label : String)
    → optional (λ j. read_string j label) (or_null (text_json o)) ≡ ok o
unfolding optional read_string
read_optional_text none label = refl
read_optional_text (some s) label = refl

read_optional_usage :
    (o : Option ModelUsage) → optional decode_model_usage_value (usage_json o) ≡ ok o
unfolding optional
read_optional_usage none = refl
read_optional_usage (some u) = unfold encode_model_usage in rw (decode_usage-encode u)

read_optional_limit :
    (o : Option LimitReason) (label : String)
    → optional (λ j. read_enum limit_reasons j label) (limit_json o) ≡ ok o
unfolding optional
read_optional_limit none label = refl
read_optional_limit (some r) label = rw (read_limit r label)

read_optional_view :
    (o : Option SuspensionView)
    → check_optional_view o ≡ ok tt
    → optional decode_suspension_view (view_json o) ≡ ok o
unfolding optional
read_optional_view none h = refl
read_optional_view (some v) h =
    unfold encode_suspension_view in rw (decode_suspension_view-encode v h)

batch_facts :
    (t : ToolBatchTurn)
    → check_tool_batch t ≡ ok tt
    → (is_blank t.batch_id ≡ false)
      × (is_empty t.call_ids ≡ false)
      × (check_texts t.call_ids ≡ ok tt)
      × (is_empty t.outcome_kinds ≡ false)
      × (check_optional_view t.suspension ≡ ok tt)
unfolding check_tool_batch
batch_facts t h = ground arith

rewrite_facts :
    (r : Rewrite)
    → check_rewrite r ≡ ok tt
    → (1 ≤ r.before_count)
      × (is_empty r.after_roles ≡ false)
      × (is_blank r.reason ≡ false)
      × (check_texts r.metadata_keys ≡ ok tt)
unfolding check_rewrite
rewrite_facts r h = ground arith

read_positive : (n : ℕ) (label : String) → 1 ≤ n → read_integer 1 (integer (pos n)) label ≡ ok n
unfolding read_integer
read_positive n label h = ground arith

decode_model_turn-encode :
    (t : ModelTurn)
    → check_texts t.tool_call_ids ≡ ok tt
    → decode_model_turn (body_data (model_turn t)) ≡ ok (model_turn t)
unfolding decode_model_turn body_data
decode_model_turn-encode t h = rw (
  read_result t.result "model turn result",
  read_integer-pos t.part_count "model turn part_count",
  read_ids-encode t.tool_call_ids "model turn tool_call_ids" h,
  read_optional_text t.finish_reason "model turn finish_reason",
  read_optional_usage t.usage,
  read_optional_limit t.limit_reason "model turn limit_reason",
)

decode_tool_batch-encode :
    (t : ToolBatchTurn)
    → check_tool_batch t ≡ ok tt
    → decode_tool_batch (body_data (tool_batch t)) ≡ ok (tool_batch t)
unfolding decode_tool_batch body_data
decode_tool_batch-encode t h =
    let (named, called, ids, settled, view) = batch_facts t h in
    rw (
      each-map (λ k. string (kind_text k))
          (λ j. read_enum outcome_kinds_allowed j "tool outcome kind") t.outcome_kinds
          (λ k. read_kind k "tool outcome kind"),
      expect_items-full t.outcome_kinds "tool batch outcome_kinds" settled,
      filled_text t.batch_id named,
      read_ids-encode t.call_ids "tool batch call_ids" ids,
      expect_items-full t.call_ids "tool batch call_ids" called,
      read_optional_view t.suspension view,
    )

decode_rewrite-encode :
    (r : Rewrite)
    → check_rewrite r ≡ ok tt
    → decode_rewrite (body_data (history_rewrite r)) ≡ ok (history_rewrite r)
unfolding decode_rewrite body_data
decode_rewrite-encode r h =
    let (counted, kept, reason, keys) = rewrite_facts r h in
    rw (
      decode_roles-encode r.after_roles "history rewrite after_roles",
      expect_items-full r.after_roles "history rewrite after_roles" kept,
      read_positive r.before_count "history rewrite before_count" counted,
      filled_text r.reason reason,
      read_keys-encode r.metadata_keys "history rewrite metadata_keys"
          (texts_facts r.metadata_keys keys).1,
    )

decode_body-encode :
    (b : FactBody) → check_fact b ≡ ok tt → decode_body (body_kind b) (body_data b) ≡ ok b
unfolding check_fact
decode_body-encode (started rs) h =
    unfold decode_started body_data in
    rw (
      decode_roles-encode rs "started history_roles",
      expect_items-full rs "started history_roles" (ground arith),
    )
decode_body-encode (resumed rs keys) h =
    unfold decode_resumed body_data in
    rw (
      decode_roles-encode rs "resumed appended_roles",
      read_keys-encode keys "resumed metadata_keys" (texts_facts keys h).1,
    )
decode_body-encode (model_turn t) h = decode_model_turn-encode t (>>-eq-ok _ _ h).0
decode_body-encode (tool_batch t) h = decode_tool_batch-encode t h
decode_body-encode (conversation_insert source) h =
    unfold decode_insert body_data in rw (filled_text source (ground arith))
decode_body-encode (history_rewrite r) h = decode_rewrite-encode r h
decode_body-encode (control d) h = unfold body_data check_fact in rw (decode_control-encode d h)

read_fact_kind :
    (b : FactBody) (label : String)
    → read_enum fact_kinds (string (body_kind b)) label ≡ ok (body_kind b)
unfolding read_enum
read_fact_kind (started rs) label = refl
read_fact_kind (resumed rs keys) label = refl
read_fact_kind (model_turn t) label = refl
read_fact_kind (tool_batch t) label = refl
read_fact_kind (conversation_insert source) label = refl
read_fact_kind (history_rewrite r) label = refl
read_fact_kind (control d) label = refl

module _ (float_of : ℤ → String) where
  read_number-float :
      (x label : String) → negative x ≡ false → read_number float_of (float x) label ≡ ok x
  unfolding read_number
  read_number-float x label h = rw h

  pub decode_fact_value-encode :
      (f : Fact)
      → negative f.at ≡ false
      → check_fact f.body ≡ ok tt
      → decode_fact_value float_of (encode_fact f) ≡ ok f
  unfolding decode_fact_value encode_fact
  decode_fact_value-encode f time h = rw (
    read_fact_kind f.body "fact kind",
    read_number-float f.at "fact at" time,
    decode_body-encode f.body h,
    h,
  )
