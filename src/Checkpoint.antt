-- ===== src/Checkpoint.antt =====
-- packages/jharness-kernel/src/jharness/kernel/checkpoint.py: the semantic facts, their own
-- validation, and the checkpoint, which pairs one fact with the snapshot that it led to.
pub mod Boundary
pub mod Laws
use jharness.Common.{
  ℕ, Bool, true, false, not, ◌&&◌, ◌||◌, String, Option, none, some, List, [], ◌∷◌, length, ltb,
  ◌==◌, decide, if◌then◌else◌, String-discrete,
}
use jharness.Errors.{Result, ok, err, type_error, value_error, ◌>>=◌, ◌>>◌, raise_if}
use jharness.Messages.{Role}
use jharness.State.{LimitReason, max_total_tokens}
use jharness.State.Usage.{ModelUsage}
use jharness.State.Pending.{unique_texts, has_text}
use jharness.Snapshot.{RunSnapshot}

pub data ModelTurnResult : Type 0 where
  planning completed tools_pending limited : ModelTurnResult

pub data ToolOutcomeKind : Type 0 where
  success failure accepted waiting : ToolOutcomeKind

pub record SuspensionView : Type 0 where
  pub reason : String
  pub source : String
  pub wait_id : Option String
  pub metadata_keys : List String

pub record ModelTurn : Type 0 where
  pub result : ModelTurnResult
  pub part_count : ℕ
  pub tool_call_ids : List String
  pub provider_turn_pending : Bool
  pub finish_reason : Option String
  pub usage : Option ModelUsage
  pub limit_reason : Option LimitReason

pub record ToolBatchTurn : Type 0 where
  pub batch_id : String
  pub call_ids : List String
  pub parallel : Bool
  pub outcome_kinds : List ToolOutcomeKind
  pub suspension : Option SuspensionView

pub record Rewrite : Type 0 where
  pub before_count : ℕ
  pub after_roles : List Role
  pub reason : String
  pub metadata_keys : List String

pub data ControlDecision : Type 0 where
  suspended_control : SuspensionView → ControlDecision
  failed_control : String → ControlDecision
  limited_control : LimitReason → ControlDecision

pub data FactBody : Type 0 where
  started : List Role → FactBody
  resumed : List Role → List String → FactBody
  model_turn : ModelTurn → FactBody
  tool_batch : ToolBatchTurn → FactBody
  conversation_insert : String → FactBody
  history_rewrite : Rewrite → FactBody
  control : ControlDecision → FactBody

-- A fact is its time, by its `float.hex()`, and its body.
pub record Fact : Type 0 where
  pub at : String
  pub body : FactBody

pub record Checkpoint : Type 0 where
  pub id : String
  pub snapshot : RunSnapshot
  pub fact : Fact

abbrev pub is_empty {ℓ} : {A : Type ℓ} → List A → Bool
is_empty [] = true
is_empty (x ∷ xs) = false

abbrev pub is_some {ℓ} : {A : Type ℓ} → Option A → Bool
is_some none = false
is_some (some x) = true

abbrev pub is_blank : String → Bool
is_blank s = decide (String-discrete s "")

abbrev pub blank_wait : Option String → Bool
blank_wait none = false
blank_wait (some id) = is_blank id

abbrev pub LimitReason-is_total : Option LimitReason → Bool
LimitReason-is_total (some max_total_tokens) = true
LimitReason-is_total _ = false

-- `_metadata_keys`, and the ids of a turn: no empty item, no item twice.
unfoldable pub check_texts : List String → Result (Unit {0})
check_texts items =
    raise_if (has_text "" items) (value_error "items must not be empty")
    >> raise_if (not (unique_texts items)) (value_error "items must be unique")

-- `SuspensionView.__post_init__`, and that of `SuspendedControl`.
unfoldable pub check_suspension_view : SuspensionView → Result (Unit {0})
unfolding check_texts
check_suspension_view v =
    raise_if (is_blank v.reason) (value_error "suspension reason must not be empty")
    >> raise_if (is_blank v.source) (value_error "suspension source must not be empty")
    >> raise_if (blank_wait v.wait_id) (value_error "suspension wait_id must not be empty")
    >> check_texts v.metadata_keys

-- `ModelTurnFact._validate_result`.
unfoldable pub check_result : ModelTurn → ModelTurnResult → Result (Unit {0})
check_result t planning =
    raise_if (not (is_empty t.tool_call_ids) || is_some t.limit_reason)
      (value_error "planning model turn requires no runtime calls or limit")
check_result t completed =
    raise_if (not (is_empty t.tool_call_ids) || (is_some t.limit_reason || t.provider_turn_pending))
      (value_error "completed model turn requires no runtime calls or limit")
check_result t tools_pending =
    raise_if (is_empty t.tool_call_ids || is_some t.limit_reason)
      (value_error "tools_pending model turn requires calls and no limit")
check_result t limited =
    raise_if (not (LimitReason-is_total t.limit_reason) || t.provider_turn_pending)
      (value_error "limited model turn requires max_total_tokens")

abbrev pub has_waiting : List ToolOutcomeKind → Bool
has_waiting [] = false
has_waiting (waiting ∷ rest) = true
has_waiting (_ ∷ rest) = has_waiting rest

abbrev pub check_optional_view : Option SuspensionView → Result (Unit {0})
check_optional_view none = ok tt
check_optional_view (some v) = check_suspension_view v

-- `ToolBatchFact.__post_init__`.
unfoldable pub check_tool_batch : ToolBatchTurn → Result (Unit {0})
check_tool_batch t =
    raise_if (is_blank t.batch_id) (value_error "tool batch id must not be empty")
    >> raise_if (is_empty t.call_ids) (value_error "tool batch call_ids must not be empty")
    >> check_texts t.call_ids
    >> raise_if (is_empty t.outcome_kinds)
        (type_error "tool batch outcome_kinds must contain ToolOutcomeKind values")
    >> raise_if (not (length t.call_ids == length t.outcome_kinds))
        (value_error "tool batch call_ids and outcome_kinds must have equal length")
    >> check_optional_view t.suspension
    >> raise_if (has_waiting t.outcome_kinds && not (is_some t.suspension))
        (value_error "a waiting tool outcome requires suspension")

-- `HistoryRewriteFact.__post_init__`.
unfoldable pub check_rewrite : Rewrite → Result (Unit {0})
check_rewrite r =
    raise_if (r.before_count == 0) (value_error "history rewrite before_count must be >= 1")
    >> raise_if (is_empty r.after_roles)
        (value_error "history rewrite after_roles must not be empty")
    >> raise_if (ltb r.before_count (length r.after_roles))
        (value_error "history rewrite cannot increase message count")
    >> raise_if (is_blank r.reason) (value_error "history rewrite reason must not be empty")
    >> check_texts r.metadata_keys

-- The `__post_init__` of each fact, on fields of the right types and a time that is not negative.
unfoldable pub check_fact : FactBody → Result (Unit {0})
check_fact (started roles) =
    raise_if (is_empty roles) (value_error "started history_roles must not be empty")
check_fact (resumed roles metadata_keys) = check_texts metadata_keys
check_fact (model_turn t) = check_texts t.tool_call_ids >> check_result t t.result
check_fact (tool_batch t) = check_tool_batch t
check_fact (conversation_insert source) =
    raise_if (is_blank source) (value_error "conversation insert source must not be empty")
check_fact (history_rewrite r) = check_rewrite r
check_fact (control (suspended_control view)) = check_suspension_view view
check_fact (control (failed_control code)) =
    raise_if (is_blank code) (value_error "control failure code must not be empty")
check_fact (control (limited_control reason)) = ok tt
