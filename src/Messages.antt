-- ===== src/Messages.antt =====
-- packages/jharness-kernel/src/jharness/kernel/messages.py, and the tool outcomes of tools.py that
-- a message carries.
pub mod Checks
use jharness.Common.{String, ℕ, Option, List, [], ◌∷◌, ◌++◌, ℕ_discrete, String-discrete}
use jharness.Json.{Entries, Json}

pub record ArtifactRef : Type 0 where
  pub ref : String
  pub media_type : Option String
  pub name : Option String
  pub size_bytes : Option ℕ
  pub sha256 : Option String
  pub metadata : Entries

pub record ContentPart : Type 0 where
  pub type : String
  pub text : Option String
  pub uri : Option String
  pub artifact : Option ArtifactRef
  pub media_type : Option String
  pub name : Option String
  pub content : Entries  -- `data`
  pub metadata : Entries

pub record StructuredToolCall : Type 0 where
  pub id : String
  pub name : String
  pub arguments : Option Entries
  pub raw_input : Option String
  pub metadata : Entries

pub record FreeformToolCall : Type 0 where
  pub id : String
  pub name : String
  pub input : String
  pub metadata : Entries

pub data RuntimeToolCall : Type 0 where
  structured : StructuredToolCall → RuntimeToolCall
  freeform : FreeformToolCall → RuntimeToolCall

abbrev pub call_id : RuntimeToolCall → String
call_id (structured c) = c.id
call_id (freeform c) = c.id

abbrev pub call_name : RuntimeToolCall → String
call_name (structured c) = c.name
call_name (freeform c) = c.name

pub record ProviderToolId : Type 0 where
  pub namespace : String
  pub type : String

pub data ProviderToolStatus : Type 0 where
  in_progress completed incomplete failed : ProviderToolStatus

pub record ErrorInfo : Type 0 where
  pub code : String
  pub message : String

pub record TaskRef : Type 0 where
  pub id : String
  pub status : String
  pub metadata : Entries

pub record ProviderToolCall : Type 0 where
  pub id : String
  pub tool : ProviderToolId
  pub status : ProviderToolStatus
  pub arguments : Entries
  pub output : List ContentPart
  pub error : Option ErrorInfo
  pub metadata : Entries

pub data ModelOutputItem : Type 0 where
  content_item : ContentPart → ModelOutputItem
  runtime_item : RuntimeToolCall → ModelOutputItem
  provider_item : ProviderToolCall → ModelOutputItem

-- `ToolOutcome` of tools.py.
pub data ToolOutcome : Type 0 where
  success : List ContentPart → Json → ToolOutcome
  failure : List ContentPart → ErrorInfo → Json → ToolOutcome
  accepted : List ContentPart → String → Option TaskRef → Json → ToolOutcome
  waiting : List ContentPart → Option TaskRef → Json → ToolOutcome

pub data Role : Type 0 where
  system user assistant tool external : Role

pub record Message : Type 0 where
  pub role : Role
  pub parts : List ContentPart
  pub output : List ModelOutputItem
  pub tool_call_id : Option String
  pub outcome : Option ToolOutcome
  pub metadata : Entries

-- `runtime_tool_calls`.
unfoldable pub runtime_tool_calls : List ModelOutputItem → List RuntimeToolCall
runtime_tool_calls [] = []
runtime_tool_calls (runtime_item call ∷ rest) = call ∷ runtime_tool_calls rest
runtime_tool_calls (content_item part ∷ rest) = runtime_tool_calls rest
runtime_tool_calls (provider_item call ∷ rest) = runtime_tool_calls rest

unfoldable pub provider_tool_calls : List ModelOutputItem → List ProviderToolCall
provider_tool_calls [] = []
provider_tool_calls (provider_item call ∷ rest) = call ∷ provider_tool_calls rest
provider_tool_calls (content_item part ∷ rest) = provider_tool_calls rest
provider_tool_calls (runtime_item call ∷ rest) = provider_tool_calls rest

-- Direct content and the output of provider tools, in order.
unfoldable pub visible_parts : List ModelOutputItem → List ContentPart
visible_parts [] = []
visible_parts (content_item part ∷ rest) = part ∷ visible_parts rest
visible_parts (provider_item call ∷ rest) = call.output ++ visible_parts rest
visible_parts (runtime_item call ∷ rest) = visible_parts rest

abbrev pub RuntimeToolCall-discrete : Discrete RuntimeToolCall
RuntimeToolCall-discrete = hlevel (String-discrete, ℕ_discrete)

abbrev pub Role-discrete : Discrete Role
Role-discrete = hlevel (String-discrete, ℕ_discrete)

pub Message-discrete : Discrete Message
Message-discrete = hlevel (String-discrete, ℕ_discrete)

abbrev pub Parts-discrete : Discrete (List ContentPart)
Parts-discrete = hlevel (String-discrete, ℕ_discrete)
