-- ===== src/Samples/Planned.antt =====
-- The theorem on the tools of an answer at a sample request that selects a tool.
use jharness.Common.{◌≡◌, refl, true, some, none, false, [], ◌∷◌}
use jharness.Messages.{call_name}
use jharness.State.Pending.{has_text}
use jharness.Planning.{
  runtime, auto, freeform_kind, ModelCapabilities, ModelRequest, check_request,
  validate_response_tools, validate_choice, names_of,
}
use jharness.Planning.Laws.{validate_response_tools-offered}
use jharness.Samples.{call_a, question}

abbrev shell_request : ModelRequest
shell_request = record {
  messages = question ∷ [];
  runtime_tools = record { name = "shell"; kind = freeform_kind } ∷ [];
  provider_tools = [];
  tool_choice = record {
    type = runtime;
    name = some "shell";
    provider_tool = none;
    allow_parallel_runtime_tool_calls = false;
  };
}

abbrev shell_model : ModelCapabilities
shell_model = record {
  streaming = true;
  runtime_tool_kinds = freeform_kind ∷ [];
  tool_choice_types = auto ∷ runtime ∷ [];
  parallel_runtime_tool_calls = false;
  parallel_runtime_tool_call_control = false;
  input_modalities = "text" ∷ [];
  output_modalities = "text" ∷ [];
  provider_tools = [];
  structured_output = false;
  json_mode = false;
  seed = false;
  usage_reporting = true;
}

validate_response_tools-offered_example :
    has_text (call_name call_a) (names_of shell_request.runtime_tools) ≡ true
unfolding check_request validate_response_tools validate_choice has_text
    jharness.State.Pending.unique_texts jharness.Common.String-discrete
validate_response_tools-offered_example =
    validate_response_tools-offered (call_a ∷ []) [] shell_request shell_model 0 call_a refl refl
      refl refl
