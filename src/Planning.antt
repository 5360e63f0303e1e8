-- ===== src/Planning.antt =====
-- The tools that a model is asked for and may answer with: `ToolChoice`, `ModelCapabilities` and
-- `ModelRequest` of packages/jharness-kernel/src/jharness/kernel/models.py, and the checks on tools of
-- _engine/planning.py. A frozenset is the list of its elements.
pub mod Laws
use jharness.Common.{
  ℕ, String, Bool, true, false, not, ◌&&◌, ◌||◌, Option, none, some, List, [], ◌∷◌, map, length,
  ltb, same_string, decide,
}
use jharness.Errors.{Result, ok, err, value_error, ◌>>=◌, ◌>>◌, raise_if}
use jharness.Json.{Entries}
use jharness.Messages.{
  Message, RuntimeToolCall, structured, freeform, call_name, ProviderToolId, ProviderToolCall,
}
use jharness.State.Pending.{has_text, unique_texts}
use jharness.Checkpoint.{is_empty, is_blank}
use jharness.Messages.Checks.{is_some, is_none}

pub data RuntimeToolKind : Type 0 where
  structured_kind freeform_kind : RuntimeToolKind

pub data ToolChoiceType : Type 0 where
  auto none_choice required runtime provider : ToolChoiceType

pub record ToolChoice : Type 0 where
  pub type : ToolChoiceType
  pub name : Option String
  pub provider_tool : Option ProviderToolId
  pub allow_parallel_runtime_tool_calls : Bool

-- The name and the kind of a `RuntimeToolSpec`.
pub record RuntimeToolSpec : Type 0 where
  pub name : String
  pub kind : RuntimeToolKind

pub record ProviderToolSpec : Type 0 where
  pub tool : ProviderToolId
  pub configuration : Entries

pub record ModelCapabilities : Type 0 where
  pub streaming : Bool
  pub runtime_tool_kinds : List RuntimeToolKind
  pub tool_choice_types : List ToolChoiceType
  pub parallel_runtime_tool_calls : Bool
  pub parallel_runtime_tool_call_control : Bool
  pub input_modalities : List String
  pub output_modalities : List String
  pub provider_tools : List ProviderToolId
  pub structured_output : Bool
  pub json_mode : Bool
  pub seed : Bool
  pub usage_reporting : Bool

pub record ModelRequest : Type 0 where
  pub messages : List Message
  pub runtime_tools : List RuntimeToolSpec
  pub provider_tools : List ProviderToolSpec
  pub tool_choice : ToolChoice

abbrev pub same_kind : RuntimeToolKind → RuntimeToolKind → Bool
same_kind structured_kind structured_kind = true
same_kind freeform_kind freeform_kind = true
same_kind _ _ = false

abbrev pub same_type : ToolChoiceType → ToolChoiceType → Bool
same_type auto auto = true
same_type none_choice none_choice = true
same_type required required = true
same_type runtime runtime = true
same_type provider provider = true
same_type _ _ = false

abbrev pub same_tool : ProviderToolId → ProviderToolId → Bool
same_tool t u = same_string t.namespace u.namespace && same_string t.type u.type

-- `item in items`, and `items.issubset(others)`, for a comparison.
abbrev pub among {ℓ} : {A : Type ℓ} → (A → A → Bool) → A → List A → Bool
among same a [] = false
among same a (b ∷ bs) = same a b || among same a bs

abbrev pub all_among {ℓ} : {A : Type ℓ} → (A → A → Bool) → List A → List A → Bool
all_among same [] bs = true
all_among same (a ∷ rest) bs = among same a bs && all_among same rest bs

-- `len(items) == len(set(items))`.
abbrev pub distinct_tools : List ProviderToolId → Bool
distinct_tools [] = true
distinct_tools (t ∷ ts) = not (among same_tool t ts) && distinct_tools ts

abbrev pub tools_of : List ProviderToolSpec → List ProviderToolId
tools_of = map (λ s. s.tool)

abbrev blank_name : Option String → Bool
blank_name none = true
blank_name (some s) = is_blank s

-- The branches of `ToolChoice.__post_init__`.
unfoldable pub check_target :
    ToolChoiceType → Option String → Option ProviderToolId → Result (Unit {0})
check_target runtime name tool =
    raise_if (blank_name name) (value_error "runtime tool choice requires name")
    >> raise_if (is_some tool) (value_error "runtime tool choice cannot carry provider_tool")
check_target provider name tool =
    raise_if (is_some name) (value_error "provider tool choice cannot carry name")
    >> raise_if (is_none tool) (value_error "provider tool choice requires provider_tool")
check_target _ name tool =
    raise_if (is_some name || is_some tool)
      (value_error "only targeted tool choice may carry a target")

unfoldable pub check_tool_choice : ToolChoice → Result (Unit {0})
unfolding check_target
check_tool_choice c = check_target c.type c.name c.provider_tool

-- `_modality_set`.
unfoldable pub check_modalities : List String → Result (Unit {0})
check_modalities items =
    raise_if (is_empty items) (value_error "modalities must not be empty")
    >> raise_if (has_text "" items) (value_error "modalities must contain non-empty strings")

-- `ModelCapabilities.__post_init__`, with `_validate_tool_choice_capabilities`.
unfoldable pub check_capabilities : ModelCapabilities → Result (Unit {0})
unfolding check_modalities
check_capabilities c =
    check_modalities c.input_modalities
    >> check_modalities c.output_modalities
    >> raise_if (not (among same_type auto c.tool_choice_types))
        (value_error "model tool_choice_types must include auto")
    >> raise_if (is_empty c.runtime_tool_kinds && among same_type runtime c.tool_choice_types)
        (value_error "model tool_choice_types cannot include runtime without runtime tool kinds")
    >> raise_if (is_empty c.provider_tools && among same_type provider c.tool_choice_types)
        (value_error "model tool_choice_types cannot include provider without provider_tools")

abbrev pub names_of : List RuntimeToolSpec → List String
names_of = map (λ s. s.name)

abbrev pub named_in : Option String → List String → Bool
named_in none names = false
named_in (some n) names = has_text n names

abbrev pub offered_in : Option ProviderToolId → List ProviderToolId → Bool
offered_in none tools = false
offered_in (some t) tools = among same_tool t tools

-- `ModelRequest.__post_init__`.
unfoldable pub check_request : ModelRequest → Result (Unit {0})
check_request r =
    raise_if (is_empty r.messages) (value_error "model request requires messages")
    >> raise_if (not (unique_texts (names_of r.runtime_tools)))
        (value_error "model request tool names must be unique")
    >> raise_if (not (distinct_tools (tools_of r.provider_tools)))
        (value_error "model request provider tools must be unique")
    >> raise_if
        (same_type r.tool_choice.type runtime
          && not (named_in r.tool_choice.name (names_of r.runtime_tools)))
        (value_error "model request tool choice names an unavailable runtime tool")
    >> raise_if
        (same_type r.tool_choice.type provider
          && not (offered_in r.tool_choice.provider_tool (tools_of r.provider_tools)))
        (value_error "model request tool choice names an unavailable provider tool")
    >> raise_if
        (same_type r.tool_choice.type required
          && (is_empty r.runtime_tools && is_empty r.provider_tools))
        (value_error "required tool choice requires at least one tool")

-- `may_return_runtime_tool_calls` and `runtime_tool_kinds`.
abbrev pub may_return_runtime_tool_calls : ModelRequest → Bool
may_return_runtime_tool_calls r =
    not (is_empty r.runtime_tools)
    && not (same_type r.tool_choice.type none_choice || same_type r.tool_choice.type provider)

abbrev pub kinds_of : List RuntimeToolSpec → List RuntimeToolKind
kinds_of = map (λ s. s.kind)

-- `_validate_request_tools`.
unfoldable pub validate_request_tools : ModelRequest → ModelCapabilities → Result (Unit {0})
validate_request_tools r c =
    raise_if (not (all_among same_kind (kinds_of r.runtime_tools) c.runtime_tool_kinds))
      (value_error "model does not support requested runtime tool kinds")
    >> raise_if (not (all_among same_tool (tools_of r.provider_tools) c.provider_tools))
        (value_error "model does not support requested provider tools")
    >> raise_if (not (among same_type r.tool_choice.type c.tool_choice_types))
        (value_error "model does not support tool_choice")
    >> raise_if
        (may_return_runtime_tool_calls r
          && (c.parallel_runtime_tool_calls
              && (not r.tool_choice.allow_parallel_runtime_tool_calls
                  && not c.parallel_runtime_tool_call_control)))
        (value_error "model cannot disable parallel runtime tool calls")

abbrev pub call_kind : RuntimeToolCall → RuntimeToolKind
call_kind (structured c) = structured_kind
call_kind (freeform c) = freeform_kind

abbrev pub all_named : Option String → List RuntimeToolCall → Bool
all_named name [] = true
all_named none (c ∷ cs) = false
all_named (some n) (c ∷ cs) = same_string (call_name c) n && all_named (some n) cs

abbrev pub all_of_tool : Option ProviderToolId → List ProviderToolCall → Bool
all_of_tool tool [] = true
all_of_tool none (c ∷ cs) = false
all_of_tool (some t) (c ∷ cs) = same_tool c.tool t && all_of_tool (some t) cs

-- `_validate_response_tool_choice`, for the type of the choice.
unfoldable pub validate_choice :
    ToolChoiceType → ToolChoice → List RuntimeToolCall → List ProviderToolCall → Result (Unit {0})
validate_choice none_choice choice calls provider_calls =
    raise_if (not (is_empty calls) || not (is_empty provider_calls))
      (value_error "model returned tool calls for tool_choice=none")
validate_choice required choice calls provider_calls =
    raise_if (is_empty calls && is_empty provider_calls)
      (value_error "model omitted required tool call")
validate_choice runtime choice calls provider_calls =
    raise_if
      (not (is_empty provider_calls) || (is_empty calls || not (all_named choice.name calls)))
      (value_error "model returned a tool other than the selected runtime tool")
validate_choice provider choice calls provider_calls =
    raise_if
      (not (is_empty calls)
        || (is_empty provider_calls || not (all_of_tool choice.provider_tool provider_calls)))
      (value_error "model returned a tool other than the selected provider tool")
validate_choice auto choice calls provider_calls = ok tt

abbrev pub called_tools : List ProviderToolCall → List ProviderToolId
called_tools = map (λ c. c.tool)

-- `_validate_response_tools`.
unfoldable pub validate_response_tools :
    List RuntimeToolCall
    → List ProviderToolCall
    → ModelRequest
    → ModelCapabilities
    → Result (Unit {0})
unfolding validate_choice
validate_response_tools calls provider_calls r c =
    raise_if (not (all_among same_kind (map call_kind calls) c.runtime_tool_kinds))
      (value_error "model returned unsupported runtime tool call kinds")
    >> raise_if (not (all_among same_tool (called_tools provider_calls) c.provider_tools))
        (value_error "model returned an unsupported provider tool call")
    >> raise_if
        (not (all_among same_tool (called_tools provider_calls) (tools_of r.provider_tools)))
        (value_error "model returned an unrequested provider tool call")
    >> raise_if
        (ltb 1 (length calls)
          && (not c.parallel_runtime_tool_calls
              || not r.tool_choice.allow_parallel_runtime_tool_calls))
        (value_error "model returned disallowed parallel runtime tool calls")
    >> validate_choice r.tool_choice.type r.tool_choice calls provider_calls
