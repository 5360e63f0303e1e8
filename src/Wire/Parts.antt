-- ===== src/Wire/Parts.antt =====
-- The codecs of packages/jharness-kernel/src/jharness/kernel/wire/messages.py for content parts,
-- artifacts, error details and tasks.
pub mod Laws
use jharness.Common.{
  ℕ, String, Bool, true, false, not, ◌&&◌, Option, none, some, List, [], ◌∷◌, if◌then◌else◌,
  same_string, pos, map,
}
use jharness.Errors.{Result, ok, err, protocol, ◌>>=◌, ◌>>◌, raise_if}
use jharness.Json.{Json, Entries, null, integer, string, array, object, no_entry, entry}
use jharness.Messages.{ArtifactRef, ContentPart, ErrorInfo, TaskRef}
use jharness.Messages.Checks.{
  check_artifact, check_content_part, check_error_info, check_task, has_entries, is_none, is_some,
}
use jharness.Wire.{
  find, field, object_fields, json_object, read_array, each, read_string, read_non_empty,
  read_integer, optional, present, items_of,
}

-- A validated value: the constructor raises, or gives the record.
abbrev pub built {ℓ} : {A : Type ℓ} → (A → Result (Unit {0})) → A → Result A
built check x = check x >> ok x

-- An entry that is left out when its value is `None`.
abbrev pub entry_if : String → Option Json → Entries → Entries
entry_if key none rest = rest
entry_if key (some v) rest = entry key v rest

abbrev pub text_json : Option String → Option Json
text_json none = none
text_json (some s) = some (string s)

abbrev pub or_null : Option Json → Json
or_null none = null
or_null (some v) = v

abbrev size_json : Option ℕ → Option Json
size_json none = none
size_json (some n) = some (integer (pos n))

abbrev filled : Entries → Option Json
filled no_entry = none
filled entries = some (object entries)

-- `_encode_artifact`.
unfoldable pub encode_artifact : ArtifactRef → Json
encode_artifact a = object (
    entry "ref" (string a.ref) (
      entry "metadata" (object a.metadata) (
        entry_if "media_type" (text_json a.media_type) (
          entry_if "name" (text_json a.name) (
            entry_if "size_bytes" (size_json a.size_bytes)
              (entry_if "sha256" (text_json a.sha256) no_entry))))))

-- `_decode_artifact`.
unfoldable pub decode_artifact : Json → Result ArtifactRef
unfolding object_fields field read_non_empty present read_integer check_artifact
decode_artifact v = do
  fields ←
      object_fields v "artifact" ("ref" ∷ "metadata" ∷ [])
        ("media_type" ∷ "name" ∷ "size_bytes" ∷ "sha256" ∷ [])
  ref ← read_non_empty (← field "ref" fields) "artifact ref"
  media_type ← present (λ j. read_non_empty j "artifact media_type") "media_type" fields
  name ← present (λ j. read_non_empty j "artifact name") "name" fields
  size_bytes ← present (λ j. read_integer 0 j "artifact size_bytes") "size_bytes" fields
  sha256 ← present (λ j. read_non_empty j "artifact sha256") "sha256" fields
  metadata ← json_object (← field "metadata" fields) "artifact metadata"
  built check_artifact (record {
    ref = ref;
    media_type = media_type;
    name = name;
    size_bytes = size_bytes;
    sha256 = sha256;
    metadata = metadata;
  })

-- The entries of an opaque part.
unfoldable pub opaque_entries : ContentPart → Entries
opaque_entries p = entry "type" (string p.type) (
    entry "metadata" (object p.metadata) (
      entry_if "text" (text_json p.text) (
        entry_if "uri" (text_json p.uri) (
          entry_if "media_type" (text_json p.media_type)
            (entry_if "name" (text_json p.name) (entry_if "data" (filled p.content) no_entry))))))

abbrev encode_artifact_part : Option ArtifactRef → Entries → Result Json
unfolding encode_artifact
encode_artifact_part none metadata = err (protocol "invalid trusted artifact content part")
encode_artifact_part (some a) metadata = ok (
    object (
      entry "type" (string "artifact")
        (entry "artifact" (encode_artifact a) (entry "metadata" (object metadata) no_entry))))

-- `encode_content_part`.
unfoldable pub encode_content_part : ContentPart → Result Json
unfolding encode_artifact opaque_entries
encode_content_part p =
    if same_string p.type "text"
    then ok (
        object (
          entry "type" (string "text") (
            entry "text" (or_null (text_json p.text))
              (entry "metadata" (object p.metadata) no_entry))))
    else if same_string p.type "artifact"
    then encode_artifact_part p.artifact p.metadata
    else ok (object (opaque_entries p))

unfoldable pub decode_text : Entries → Result ContentPart
unfolding object_fields field read_string json_object
decode_text mapping = do
  fields ← object_fields (object mapping) "text part" ("type" ∷ "text" ∷ "metadata" ∷ []) []
  text ← read_string (← field "text" fields) "text part text"
  metadata ← json_object (← field "metadata" fields) "content metadata"
  built check_content_part (record {
    type = "text";
    text = some text;
    uri = none;
    artifact = none;
    media_type = none;
    name = none;
    content = no_entry;
    metadata = metadata;
  })

unfoldable pub decode_artifact_part : Entries → Result ContentPart
unfolding object_fields field json_object decode_artifact
decode_artifact_part mapping = do
  fields ← object_fields (object mapping) "artifact part" ("type" ∷ "artifact" ∷ "metadata" ∷ []) []
  artifact ← decode_artifact (← field "artifact" fields)
  metadata ← json_object (← field "metadata" fields) "content metadata"
  built check_content_part (record {
    type = "artifact";
    text = none;
    uri = none;
    artifact = some artifact;
    media_type = none;
    name = none;
    content = no_entry;
    metadata = metadata;
  })

-- `{} if "data" not in fields else ...`.
abbrev or_no_entry : Option Entries → Entries
or_no_entry none = no_entry
or_no_entry (some entries) = entries

abbrev is_empty_data : Option Entries → Bool
is_empty_data (some no_entry) = true
is_empty_data _ = false

unfoldable pub decode_opaque : String → Entries → Result ContentPart
unfolding object_fields field json_object present read_string read_non_empty
decode_opaque part_type mapping = do
  fields ←
      object_fields (object mapping) "opaque part" ("type" ∷ "metadata" ∷ [])
        ("text" ∷ "uri" ∷ "media_type" ∷ "name" ∷ "data" ∷ [])
  opaque_data ← present (λ j. json_object j "opaque part data") "data" fields
  raise_if (is_empty_data opaque_data) (protocol "opaque part data must not be empty when present")
  text ← present (λ j. read_string j "opaque part text") "text" fields
  uri ← present (λ j. read_non_empty j "opaque part uri") "uri" fields
  media_type ← present (λ j. read_non_empty j "opaque part media_type") "media_type" fields
  name ← present (λ j. read_non_empty j "opaque part name") "name" fields
  metadata ← json_object (← field "metadata" fields) "content metadata"
  built check_content_part (record {
    type = part_type;
    text = text;
    uri = uri;
    artifact = none;
    media_type = media_type;
    name = name;
    content = or_no_entry opaque_data;
    metadata = metadata;
  })

abbrev decode_kind : String → Entries → Result ContentPart
unfolding decode_text decode_artifact_part decode_opaque
decode_kind part_type mapping =
    if same_string part_type "text"
    then decode_text mapping
    else if same_string part_type "artifact"
    then decode_artifact_part mapping
    else decode_opaque part_type mapping

-- `decode_content_part_value`.
unfoldable pub decode_content_part_value : Json → Result ContentPart
unfolding find json_object object_fields field read_string read_non_empty present decode_text
    decode_artifact_part decode_opaque
decode_content_part_value v = do
  mapping ← json_object v "content part"
  part_type ← read_non_empty (or_null (find "type" mapping)) "content part type"
  decode_kind part_type mapping

unfoldable pub encode_error_info : ErrorInfo → Json
encode_error_info e =
    object (entry "code" (string e.code) (entry "message" (string e.message) no_entry))

unfoldable pub decode_error_info_value : Json → Result ErrorInfo
unfolding object_fields field read_non_empty
decode_error_info_value v = do
  fields ← object_fields v "error info" ("code" ∷ "message" ∷ []) []
  code ← read_non_empty (← field "code" fields) "error code"
  message ← read_non_empty (← field "message" fields) "error message"
  built check_error_info (record { code = code; message = message })

-- `_encode_task`.
unfoldable pub encode_task : TaskRef → Json
encode_task t = object (
    entry "id" (string t.id)
      (entry "status" (string t.status) (entry "metadata" (object t.metadata) no_entry)))

-- `_decode_task`.
unfoldable pub decode_task : Json → Result TaskRef
unfolding object_fields field read_non_empty json_object
decode_task v = do
  fields ← object_fields v "task" ("id" ∷ "status" ∷ "metadata" ∷ []) []
  id ← read_non_empty (← field "id" fields) "task id"
  status ← read_non_empty (← field "status" fields) "task status"
  metadata ← json_object (← field "metadata" fields) "task metadata"
  built check_task (record { id = id; status = status; metadata = metadata })
