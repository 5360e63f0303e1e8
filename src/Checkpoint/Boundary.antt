-- ===== src/Checkpoint/Boundary.antt =====
-- `_validate_boundary` of checkpoint.py: a fact must describe the snapshot that it stands beside.
use jharness.Common.{
  Bool, true, false, not, ◌&&◌, ◌||◌, String, Option, none, some, List, [], ◌∷◌, map, length, ◌==◌,
  decide, String-discrete, pos, negsuc,
}
use jharness.Errors.{Result, ok, err, value_error, ◌>>=◌, ◌>>◌, raise_if}
use jharness.Json.Keys.{keys}
use jharness.Messages.{
  Message, Role, assistant, tool, external, Role-discrete, runtime_tool_calls, visible_parts,
  ToolOutcome, success, failure, accepted, waiting, Parts-discrete,
}
use jharness.History.Run.{iter, iter_tail, get_item}
use jharness.State.{
  LimitReason, LimitReason-discrete, planning, tools_pending, Suspension, RunState, active,
  suspended, completed, failed, limited,
}
use jharness.State.Pending.{has_text, ids_of, remaining_calls, pending_count, Calls-discrete}
use jharness.Snapshot.{RunSnapshot}
use jharness.Checkpoint
use jharness.Checkpoint.{
  SuspensionView, ModelTurn, ToolBatchTurn, ControlDecision, suspended_control, failed_control,
  limited_control, FactBody, Fact, is_some,
}
use mathlib.Core.Option.{map as map_option}

abbrev pub roles_of : List Message → List Role
roles_of = map (λ m. m.role)

abbrev pub Roles-discrete : Discrete (List Role)
Roles-discrete = hlevel Role-discrete

abbrev pub Texts-discrete : Discrete (List String)
Texts-discrete = hlevel String-discrete

abbrev OptionText-discrete : Discrete (Option String)
OptionText-discrete = hlevel String-discrete

abbrev Ids-discrete : Discrete (List (Option String))
Ids-discrete = hlevel String-discrete

abbrev Kinds-discrete : Discrete (List (Option Checkpoint.ToolOutcomeKind))
Kinds-discrete = hlevel String-discrete

abbrev pub outcome_kind : ToolOutcome → Checkpoint.ToolOutcomeKind
outcome_kind (success p v) = Checkpoint.ToolOutcomeKind.success
outcome_kind (failure p e v) = Checkpoint.ToolOutcomeKind.failure
outcome_kind (accepted p a t v) = Checkpoint.ToolOutcomeKind.accepted
outcome_kind (waiting p t v) = Checkpoint.ToolOutcomeKind.waiting

abbrev pub kind_of : Message → Option Checkpoint.ToolOutcomeKind
kind_of m = map_option outcome_kind m.outcome

unfoldable pub same_roles : List Role → List Role → Bool
same_roles rs qs = decide (Roles-discrete rs qs)

abbrev pub all_in : List String → List String → Bool
all_in [] others = true
all_in (s ∷ ss) others = has_text s others && all_in ss others

-- `_matches_suspension`; the metadata keys are compared as sets.
unfoldable pub matches_suspension : Option SuspensionView → Suspension → Bool
unfolding keys has_text String-discrete
matches_suspension none suspension = false
matches_suspension (some view) suspension =
    decide (String-discrete view.reason suspension.reason)
    && (decide (String-discrete view.source suspension.source)
        && (decide (OptionText-discrete view.wait_id suspension.wait_id)
            && (all_in view.metadata_keys (keys suspension.metadata)
                && all_in (keys suspension.metadata) view.metadata_keys)))

abbrev pub is_planning : RunState → Bool
is_planning (active (planning b)) = true
is_planning _ = false

-- `_validate_started_boundary`.
unfoldable pub validate_started : RunSnapshot → List Role → Result (Unit {0})
unfolding iter same_roles
validate_started s roles =
    raise_if (not (s.revision == 0 && is_planning s.state))
      (value_error "started checkpoint must be revision 0 in Planning")
    >> raise_if (not (same_roles roles (roles_of (iter s.history))))
        (value_error "started fact roles must match snapshot history")

abbrev pub is_active : RunState → Bool
is_active (active a) = true
is_active _ = false

-- `_validate_resumed_boundary`.
unfoldable pub validate_resumed : RunState → Result (Unit {0})
validate_resumed state =
    raise_if (not (is_active state)) (value_error "resumed checkpoint must restore an active state")

-- The tests of `_validate_tool_boundary` on the state.
unfoldable pub validate_batch_state : Option SuspensionView → RunState → Result (Unit {0})
validate_batch_state none (active a) = ok tt
validate_batch_state none _ = err (value_error "settled tool batch must leave an active state")
validate_batch_state (some view) (suspended a suspension) =
    raise_if (not (matches_suspension (some view) suspension))
      (value_error "tool batch suspension must match Suspended state")
validate_batch_state (some view) _ =
    err (value_error "suspended tool batch must leave Suspended state")

abbrev pub all_tool : List Message → Bool
all_tool [] = true
all_tool (m ∷ ms) = decide (Role-discrete m.role tool) && all_tool ms

-- The tests of `_validate_tool_boundary` on the trailing messages.
unfoldable pub validate_batch_messages : ToolBatchTurn → List Message → Result (Unit {0})
validate_batch_messages t messages =
    raise_if (not (length messages == length t.call_ids) || not (all_tool messages))
      (value_error "tool batch fact requires matching trailing tool messages")
    >> raise_if
        (not (decide (Ids-discrete (map (λ m. m.tool_call_id) messages) (map some t.call_ids))))
        (value_error "tool batch call ids must match trailing tool messages")
    >> raise_if (not (decide (Kinds-discrete (map kind_of messages) (map some t.outcome_kinds))))
        (value_error "tool batch outcomes must match trailing tool messages")

-- `_validate_tool_boundary`.
unfoldable pub validate_tool : RunSnapshot → ToolBatchTurn → Result (Unit {0})
unfolding iter_tail
validate_tool s t = do
  validate_batch_state t.suspension s.state
  messages ← iter_tail s.history (pos (length t.call_ids))
  validate_batch_messages t messages

-- `_validate_planning_boundary`, and what `_validate_history_boundary` adds for each fact.
unfoldable pub validate_planning : RunState → String → Result (Unit {0})
validate_planning (active (planning false)) refusal = ok tt
validate_planning _ refusal = err (value_error refusal)

unfoldable pub validate_insert : RunSnapshot → Result (Unit {0})
unfolding get_item
validate_insert s = do
  validate_planning s.state "conversation_insert checkpoint must leave interruptible Planning state"
  last ← get_item s.history (negsuc 0)
  raise_if (not (decide (Role-discrete last.role external)))
      (value_error "conversation insert must append an external message")

unfoldable pub validate_rewrite : RunSnapshot → List Role → Result (Unit {0})
unfolding iter same_roles
validate_rewrite s roles =
    validate_planning s.state "history_rewrite checkpoint must leave interruptible Planning state"
    >> raise_if (not (same_roles roles (roles_of (iter s.history))))
        (value_error "history rewrite roles must match snapshot history")

-- `_validate_model_message`.
unfoldable pub validate_model_message : Message → ModelTurn → Result (Unit {0})
unfolding visible_parts runtime_tool_calls
validate_model_message m t =
    raise_if (not (decide (Role-discrete m.role assistant)))
      (value_error "model turn fact requires a trailing assistant message")
    >> raise_if (not (length (visible_parts m.output) == t.part_count))
        (value_error "model turn part_count must match the assistant message")
    >> raise_if
        (not (decide (Texts-discrete (ids_of (runtime_tool_calls m.output)) t.tool_call_ids)))
        (value_error "model turn call ids must match the assistant message")

abbrev pub same_reason : Option LimitReason → LimitReason → Bool
same_reason none r = false
same_reason (some q) r = decide (LimitReason-discrete q r)

abbrev pub same_flag : Bool → Bool → Bool
same_flag true b = b
same_flag false b = not b

-- The tests of `_validate_model_boundary` and `_validate_completed_model` on the state.
unfoldable pub validate_model_state :
    RunState → ModelTurn → Checkpoint.ModelTurnResult → Message → Result (Unit {0})
validate_model_state (completed parts) t Checkpoint.ModelTurnResult.completed m =
    raise_if (not (length parts == t.part_count))
      (value_error "completed model fact must match Completed state")
    >> raise_if (not (decide (Parts-discrete parts (visible_parts m.output))))
        (value_error "Completed parts must match the assistant message")
validate_model_state _ t Checkpoint.ModelTurnResult.completed m =
    err (value_error "completed model fact must match Completed state")
validate_model_state (active (planning b)) t Checkpoint.ModelTurnResult.planning m =
    raise_if (not (same_flag b t.provider_turn_pending))
      (value_error "planning model fact must match Planning state")
validate_model_state _ t Checkpoint.ModelTurnResult.planning m =
    err (value_error "planning model fact must match Planning state")
validate_model_state (active (tools_pending p b)) t Checkpoint.ModelTurnResult.tools_pending m =
    raise_if (not (same_flag b t.provider_turn_pending))
      (value_error "tools_pending provider continuation must match model fact")
    >> raise_if
        (not (pending_count p == length (runtime_tool_calls m.output))
          || not (decide (Calls-discrete (remaining_calls p) (runtime_tool_calls m.output))))
        (value_error "pending calls must match the assistant message")
validate_model_state _ t Checkpoint.ModelTurnResult.tools_pending m =
    err (value_error "tools_pending model fact must match ToolsPending state")
validate_model_state (limited reason) t Checkpoint.ModelTurnResult.limited m =
    raise_if (not (same_reason t.limit_reason reason))
      (value_error "limited model fact must match Limited state")
validate_model_state _ t Checkpoint.ModelTurnResult.limited m =
    err (value_error "limited model fact must match Limited state")

-- `_validate_model_boundary`.
unfoldable pub validate_model : RunSnapshot → ModelTurn → Result (Unit {0})
unfolding get_item
validate_model s t = do
  m ← get_item s.history (negsuc 0)
  validate_model_message m t
  validate_model_state s.state t t.result m

-- `_validate_control_boundary`.
unfoldable pub validate_control : RunState → ControlDecision → Result (Unit {0})
unfolding String-discrete
validate_control (suspended a suspension) (suspended_control view) =
    raise_if (not (matches_suspension (some view) suspension))
      (value_error "suspended control must match Suspended state")
validate_control _ (suspended_control view) =
    err (value_error "suspended control fact must match Suspended state")
validate_control (failed error) (failed_control code) =
    raise_if (not (decide (String-discrete error.code code)))
      (value_error "failed control fact must match Failed state")
validate_control _ (failed_control code) =
    err (value_error "failed control fact must match Failed state")
validate_control (limited reason) (limited_control other) =
    raise_if (not (decide (LimitReason-discrete reason other)))
      (value_error "limited control fact must match Limited state")
validate_control _ (limited_control other) =
    err (value_error "limited control fact must match Limited state")

unfoldable pub validate_advanced : RunSnapshot → FactBody → Result (Unit {0})
validate_advanced s (Checkpoint.started roles) = validate_started s roles
validate_advanced s (Checkpoint.resumed roles keys) = validate_resumed s.state
validate_advanced s (Checkpoint.model_turn t) = validate_model s t
validate_advanced s (Checkpoint.tool_batch t) = validate_tool s t
validate_advanced s (Checkpoint.conversation_insert source) = validate_insert s
validate_advanced s (Checkpoint.history_rewrite r) = validate_rewrite s r.after_roles
validate_advanced s (Checkpoint.control decision) = validate_control s.state decision

abbrev pub is_started : FactBody → Bool
is_started (Checkpoint.started roles) = true
is_started _ = false

-- `_validate_boundary`.
unfoldable pub validate_boundary : RunSnapshot → FactBody → Result (Unit {0})
validate_boundary s body =
    raise_if (not (is_started body) && s.revision == 0)
      (value_error "revision 0 checkpoint requires a started fact")
    >> validate_advanced s body

-- `Checkpoint(...)`.
unfoldable pub checkpoint : String → RunSnapshot → Fact → Result Checkpoint.Checkpoint
checkpoint id s fact =
    raise_if (Checkpoint.is_blank id) (value_error "checkpoint id must not be empty")
    >> validate_boundary s fact.body
    >> ok (record { id = id; snapshot = s; fact = fact })
