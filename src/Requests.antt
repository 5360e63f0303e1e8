-- ===== src/Requests.antt =====
-- packages/jharness-kernel/src/jharness/kernel/commands.py: the requests that start, continue and
-- resume a run, with what their constructors check.
pub mod Laws
pub mod Refused
use jharness.Common.{
  ℕ, String, Bool, true, false, not, ◌&&◌, ◌||◌, Option, none, some, List, [], ◌∷◌, same_string,
}
use jharness.Errors.{Result, ok, err, value_error, request_error, ◌>>=◌, ◌>>◌, raise_if}
use jharness.Json.{Json, Entries}
use jharness.Json.Equal.{equal_entries}
use jharness.Messages.{Message, Role, system, user, assistant, tool, external}
use jharness.Messages.Checks.{freeze_mapping, expect_present, has_entries, is_none}
use jharness.History.Run.{RunHistory, iter}
use jharness.State.{
  ActiveState, planning, tools_pending, Suspension, RunState, active, suspended, completed, failed,
  limited,
}
use jharness.Linkage.{analyze_messages}
use jharness.Snapshot.{RunContext}
use jharness.Checkpoint.{Checkpoint, is_empty}
use jharness.Change.{Change}
use jharness.Change.Engine.{resume}

pub record SuspensionSelector : Type 0 where
  pub reason : Option String
  pub source : Option String
  pub wait_id : Option String
  pub metadata : Entries

-- `SuspensionSelector.__post_init__`.
unfoldable pub check_selector : SuspensionSelector → Result (Unit {0})
unfolding freeze_mapping
check_selector s =
    expect_present s.reason "selector reason"
    >> expect_present s.source "selector source"
    >> expect_present s.wait_id "selector wait_id"
    >> freeze_mapping s.metadata
    >> raise_if
        (is_none s.reason
          && (is_none s.source && (is_none s.wait_id && not (has_entries s.metadata))))
        (value_error "suspension selector must set at least one field")

-- `expected is None or expected == actual`, for texts and for a wait id.
abbrev pub accepts_text : Option String → String → Bool
accepts_text none actual = true
accepts_text (some expected) actual = same_string expected actual

abbrev pub accepts_wait : Option String → Option String → Bool
accepts_wait none actual = true
accepts_wait (some expected) none = false
accepts_wait (some expected) (some actual) = same_string expected actual

-- `Planning | ToolsPending`.
abbrev pub expect_continuable : RunState → Result ActiveState
expect_continuable (active a) = ok a
expect_continuable _ = err (value_error "continue request requires an active checkpoint")

abbrev pub expect_suspended : RunState → Result (ActiveState × Suspension)
expect_suspended (suspended a s) = ok (a, s)
expect_suspended _ = err (value_error "resume request requires a suspended checkpoint")

-- `isinstance(resume_to, ToolsPending) or resume_to.provider_turn_pending`.
abbrev pub uninterruptible : ActiveState → Bool
uninterruptible (tools_pending p b) = true
uninterruptible (planning b) = b

-- `role not in {"system", "user", "external"}`.
abbrev pub irregular : Role → Bool
irregular system = false
irregular user = false
irregular external = false
irregular assistant = true
irregular tool = true

abbrev pub any_irregular : List Message → Bool
any_irregular [] = false
any_irregular (m ∷ ms) = irregular m.role || any_irregular ms

pub record ResumeRequest : Type 0 where
  pub checkpoint : Checkpoint
  pub selector : Option SuspensionSelector
  pub append_messages : List Message
  pub metadata : Entries

module _ (same_number : Json → Json → Bool) where
  -- `SuspensionSelector.matches`.
  unfoldable pub matches : SuspensionSelector → Suspension → Bool
  unfolding equal_entries
  matches selector suspension =
      accepts_text selector.reason suspension.reason
      && (accepts_text selector.source suspension.source
          && (accepts_wait selector.wait_id suspension.wait_id
              && equal_entries same_number selector.metadata suspension.metadata))

  abbrev pub check_matches : Option SuspensionSelector → Suspension → Result (Unit {0})
  check_matches none suspension = ok tt
  check_matches (some selector) suspension = raise_if (not (matches selector suspension)) (
      request_error "suspension_mismatch" "resume selector does not match the suspended checkpoint")

  -- `ResumeRequest.__post_init__`, on the state and the suspension of its checkpoint.
  unfoldable pub check_resume_fields : ResumeRequest → ActiveState → Suspension → Result (Unit {0})
  unfolding freeze_mapping
  check_resume_fields r resume_to suspension =
      check_matches r.selector suspension
      >> raise_if (not (is_empty r.append_messages) && uninterruptible resume_to) (
          request_error "messages_require_planning"
            "resume messages require an interruptible planning continuation")
      >> raise_if (any_irregular r.append_messages)
          (value_error "resume messages must use a regular role")
      >> freeze_mapping r.metadata

  unfoldable pub check_resume : ResumeRequest → Result (Unit {0})
  unfolding check_resume_fields
  check_resume r = do
    (resume_to, suspension) ← expect_suspended r.checkpoint.snapshot.state
    check_resume_fields r resume_to suspension

-- `StartRequest.__post_init__`, on its history.
unfoldable pub check_start : (List ℕ → List ℕ) → RunHistory Message → Result (Unit {0})
unfolding analyze_messages iter
check_start sha256 messages = do
  proof ← analyze_messages sha256 (iter messages) (active (planning false))
  ok tt

-- `ContinueRequest.__post_init__`.
unfoldable pub check_continue : Checkpoint → Result (Unit {0})
check_continue c = do a ← expect_continuable c.snapshot.state; ok tt

-- What `_initialize` of _engine/engine.py makes of a resume request: the change that it commits.
unfoldable pub resumption : String → ResumeRequest → Result Change
unfolding resume
resumption now r = do
  (resume_to, suspension) ← expect_suspended r.checkpoint.snapshot.state
  resume now resume_to r.append_messages r.metadata
