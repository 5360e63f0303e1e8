-- ===== src/Planning/Laws.antt =====
-- What an answer that passes the checks of a planning step keeps of its request.
use jharness.Common.{
  ℕ, zero, suc, ◌+◌, ◌≤◌, ◌≡◌, refl, sym, ap, ◌∙◌, Bool, true, false, String, Option, none, some,
  List, [], ◌∷◌, map, length, arith, ltb, not, get_elem?, same_string_iff, ◌&&◌, ◌||◌, ◌↔◌,
}
use jharness.Errors.{ok}
use jharness.Messages.{RuntimeToolCall, call_name, ProviderToolCall}
use jharness.State.Pending.{has_text}
use jharness.Planning.{
  ToolChoiceType, auto, none_choice, required, runtime, provider, ToolChoice, ModelCapabilities,
  ModelRequest, check_request, validate_response_tools, validate_choice, all_named, all_of_tool,
  same_tool, same_kind, call_kind, all_among, called_tools, tools_of, names_of, named_in,
}

-- What a tool choice asks of the calls of an answer.
abbrev pub Honours :
    ToolChoiceType → ToolChoice → List RuntimeToolCall → List ProviderToolCall → Type 0
Honours auto choice calls provider_calls = Unit
Honours none_choice choice calls provider_calls = (calls ≡ []) × (provider_calls ≡ [])
Honours required choice calls provider_calls = 1 ≤ length calls + length provider_calls
Honours runtime choice calls provider_calls =
    (1 ≤ length calls) × (all_named choice.name calls ≡ true) × (provider_calls ≡ [])
Honours provider choice calls provider_calls =
    (1 ≤ length provider_calls)
    × (all_of_tool choice.provider_tool provider_calls ≡ true)
    × (calls ≡ [])

validate_choice-Honours :
    (t : ToolChoiceType) (choice : ToolChoice) (calls : List RuntimeToolCall)
    (provider_calls : List ProviderToolCall)
    → validate_choice t choice calls provider_calls ≡ ok tt
    → Honours t choice calls provider_calls
unfolding validate_choice
validate_choice-Honours auto choice calls provider_calls h = tt
validate_choice-Honours none_choice choice calls provider_calls h = ground arith
validate_choice-Honours required choice calls provider_calls h = ground arith
validate_choice-Honours runtime choice calls provider_calls h = ground arith
validate_choice-Honours provider choice calls provider_calls h = ground arith

-- An answer that a request and a model allow: what it was asked for, and one call at a time when
-- either forbids more.
pub record IsAllowed (calls : List RuntimeToolCall) (provider_calls : List ProviderToolCall)
    (r : ModelRequest) (c : ModelCapabilities) : Type 0 where
  pub honours : Honours r.tool_choice.type r.tool_choice calls provider_calls
  pub kinds : all_among same_kind (map call_kind calls) c.runtime_tool_kinds ≡ true
  pub supported : all_among same_tool (called_tools provider_calls) c.provider_tools ≡ true
  pub offered : all_among same_tool (called_tools provider_calls) (tools_of r.provider_tools) ≡ true
  pub single :
      c.parallel_runtime_tool_calls && r.tool_choice.allow_parallel_runtime_tool_calls ≡ false
      → length calls ≤ 1

answer_checks :
    (calls : List RuntimeToolCall) (provider_calls : List ProviderToolCall) (r : ModelRequest)
    (c : ModelCapabilities)
    → validate_response_tools calls provider_calls r c ≡ ok tt
    → (all_among same_kind (map call_kind calls) c.runtime_tool_kinds ≡ true)
      × (all_among same_tool (called_tools provider_calls) c.provider_tools ≡ true)
      × (all_among same_tool (called_tools provider_calls) (tools_of r.provider_tools) ≡ true)
      × (ltb 1 (length calls)
            && (not c.parallel_runtime_tool_calls
                || not r.tool_choice.allow_parallel_runtime_tool_calls)
          ≡ false)
      × (validate_choice r.tool_choice.type r.tool_choice calls provider_calls ≡ ok tt)
unfolding validate_response_tools
answer_checks calls provider_calls r c h = ground arith

single_call : (n : ℕ) (a b : Bool) → ltb 1 n && (not a || not b) ≡ false → a && b ≡ false → n ≤ 1
single_call n a b h k = ground arith

parallel_allowed :
    (n : ℕ) (a b : Bool) → (a && b ≡ false → n ≤ 1) → ltb 1 n && (not a || not b) ≡ false
parallel_allowed n true true single = ground arith
parallel_allowed n true false single = let one = single refl in ground arith
parallel_allowed n false b single = let one = single refl in ground arith

Honours-validate_choice :
    (t : ToolChoiceType) (choice : ToolChoice) (calls : List RuntimeToolCall)
    (provider_calls : List ProviderToolCall)
    → Honours t choice calls provider_calls
    → validate_choice t choice calls provider_calls ≡ ok tt
unfolding validate_choice
Honours-validate_choice auto choice calls provider_calls h = refl
Honours-validate_choice none_choice choice calls provider_calls h = ground arith
Honours-validate_choice required choice calls provider_calls h = ground arith
Honours-validate_choice runtime choice calls provider_calls h = ground arith
Honours-validate_choice provider choice calls provider_calls h = ground arith

allowed_passes :
    (calls : List RuntimeToolCall) (provider_calls : List ProviderToolCall) (r : ModelRequest)
    (c : ModelCapabilities)
    → IsAllowed calls provider_calls r c
    → validate_response_tools calls provider_calls r c ≡ ok tt
unfolding validate_response_tools
allowed_passes calls provider_calls r c v =
    rw
      (
        v.kinds,
        v.supported,
        v.offered,
        parallel_allowed (length calls) c.parallel_runtime_tool_calls
            r.tool_choice.allow_parallel_runtime_tool_calls v.single,
      )
      (Honours-validate_choice r.tool_choice.type r.tool_choice calls provider_calls v.honours)

-- An answer passes the checks of a planning step exactly when the request and the model allow it.
pub validate_response_tools_iff :
    (calls : List RuntimeToolCall) (provider_calls : List ProviderToolCall) (r : ModelRequest)
    (c : ModelCapabilities)
    → (validate_response_tools calls provider_calls r c ≡ ok tt)
      ↔ IsAllowed calls provider_calls r c
validate_response_tools_iff calls provider_calls r c = (
  λ h.
      let (kinds, supported, offered, parallel, chosen) =
        answer_checks calls provider_calls r c h in
      record {
        honours =
            validate_choice-Honours r.tool_choice.type r.tool_choice calls provider_calls chosen;
        kinds = kinds;
        supported = supported;
        offered = offered;
        single =
            single_call (length calls) c.parallel_runtime_tool_calls
              r.tool_choice.allow_parallel_runtime_tool_calls parallel;
      },
  allowed_passes calls provider_calls r c,
)

target_named :
    (r : ModelRequest)
    → check_request r ≡ ok tt
    → r.tool_choice.type ≡ runtime
    → named_in r.tool_choice.name (names_of r.runtime_tools) ≡ true
unfolding check_request
target_named r h k = ground arith

all_named-get_elem? :
    (n : String) (calls : List RuntimeToolCall) (i : ℕ) (call : RuntimeToolCall)
    → all_named (some n) calls ≡ true
    → get_elem? calls i ≡ some call
    → call_name call ≡ n
all_named-get_elem? n [] i call h found = cc
all_named-get_elem? n (c ∷ cs) zero call h found =
    let e : c ≡ call = cc in
    ap call_name (sym e) ∙ (same_string_iff (call_name c) n).0 (ground arith)
all_named-get_elem? n (c ∷ cs) (suc i) call h found =
    all_named-get_elem? n cs i call (ground arith) found

named_call :
    (name : Option String) (names : List String) (calls : List RuntimeToolCall) (i : ℕ)
    (call : RuntimeToolCall)
    → named_in name names ≡ true
    → all_named name calls ≡ true
    → get_elem? calls i ≡ some call
    → has_text (call_name call) names ≡ true
named_call none names calls i call h k found = cc
named_call (some n) names calls i call h k found =
    ap (λ s. has_text s names) (all_named-get_elem? n calls i call k found) ∙ h

targeted :
    (t : ToolChoiceType) (choice : ToolChoice) (calls : List RuntimeToolCall)
    (provider_calls : List ProviderToolCall)
    → Honours t choice calls provider_calls
    → t ≡ runtime
    → all_named choice.name calls ≡ true
targeted runtime choice calls provider_calls (some_call, named, alone) e = named
targeted auto choice calls provider_calls h e = cc
targeted none_choice choice calls provider_calls h e = cc
targeted required choice calls provider_calls h e = cc
targeted provider choice calls provider_calls h e = cc

-- When a valid request selects a runtime tool, every call of an answer that passes the checks names
-- a tool that the request offers.
pub validate_response_tools-offered :
    (calls : List RuntimeToolCall) (provider_calls : List ProviderToolCall) (r : ModelRequest)
    (c : ModelCapabilities) (i : ℕ) (call : RuntimeToolCall)
    → check_request r ≡ ok tt
    → r.tool_choice.type ≡ runtime
    → validate_response_tools calls provider_calls r c ≡ ok tt
    → get_elem? calls i ≡ some call
    → has_text (call_name call) (names_of r.runtime_tools) ≡ true
validate_response_tools-offered calls provider_calls r c i call checked selects passed found =
    let v = (validate_response_tools_iff calls provider_calls r c).0 passed in
    let named = targeted r.tool_choice.type r.tool_choice calls provider_calls v.honours selects in
    named_call r.tool_choice.name (names_of r.runtime_tools) calls i call
      (target_named r checked selects) named found
