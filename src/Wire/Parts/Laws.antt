-- ===== src/Wire/Parts/Laws.antt =====
-- Decoding what was encoded gives the value back: error details, tasks, artifacts and parts.
use jharness.Common.{
  ◌≡◌, true, false, String, Option, none, some, same_string, same_string_iff, Bool-cases, inl, inr,
  arith,
}
use jharness.Errors.{ok, ◌>>=◌}
use jharness.Json.{no_entry}
use jharness.Messages.{ArtifactRef, ContentPart, ErrorInfo, TaskRef}
use jharness.Messages.Checks.{
  check_artifact, check_content_part, check_error_info, check_task, empty_text, is_none,
}
use jharness.Wire.Parts.{
  encode_error_info, decode_error_info_value, encode_task, decode_task, encode_artifact,
  decode_artifact, opaque_entries, decode_opaque, decode_text, decode_artifact_part,
  encode_content_part, decode_content_part_value,
}

error_info_texts :
    (e : ErrorInfo)
    → check_error_info e ≡ ok tt
    → (empty_text e.code ≡ false) × (empty_text e.message ≡ false)
unfolding check_error_info
error_info_texts e h = ground arith

pub decode_error_info-encode :
    (e : ErrorInfo)
    → check_error_info e ≡ ok tt
    → decode_error_info_value (encode_error_info e) ≡ ok e
unfolding decode_error_info_value encode_error_info
decode_error_info-encode e h = let (code, message) = error_info_texts e h in rw (code, message, h)

task_texts :
    (t : TaskRef) → check_task t ≡ ok tt → (empty_text t.id ≡ false) × (empty_text t.status ≡ false)
unfolding check_task
task_texts t h = ground arith

pub decode_task-encode : (t : TaskRef) → check_task t ≡ ok tt → decode_task (encode_task t) ≡ ok t
unfolding decode_task encode_task
decode_task-encode t h = let (id, status) = task_texts t h in rw (id, status, h)

abbrev pub OptionHolds : {A : Type 0} → (A → Type 0) → Option A → Type 0
OptionHolds P none = Unit
OptionHolds P (some a) = P a

abbrev NotEmpty : Option String → Type 0
NotEmpty none = Unit
NotEmpty (some s) = empty_text s ≡ false

artifact_texts :
    (a : ArtifactRef)
    → check_artifact a ≡ ok tt
    → (empty_text a.ref ≡ false) × NotEmpty a.media_type × NotEmpty a.name × NotEmpty a.sha256
unfolding check_artifact
artifact_texts a h = ground arith

part_texts :
    (p : ContentPart)
    → check_content_part p ≡ ok tt
    → (empty_text p.type ≡ false) × NotEmpty p.uri × NotEmpty p.media_type × NotEmpty p.name
unfolding check_content_part
part_texts p h = ground arith

pub decode_artifact-encode :
    (a : ArtifactRef) → check_artifact a ≡ ok tt → decode_artifact (encode_artifact a) ≡ ok a
unfolding decode_artifact encode_artifact
decode_artifact-encode a h = ground (arith, artifact_texts a h)

-- What `ContentPart(...)` checks, for each part of a part.
abbrev pub IsPart : ContentPart → Type 0
IsPart p =
    (check_content_part p ≡ ok tt)
    × OptionHolds (λ (a : ArtifactRef). check_artifact a ≡ ok tt) p.artifact

text_fields :
    (p : ContentPart)
    → check_content_part p ≡ ok tt
    → same_string p.type "text" ≡ true
    → (p.type ≡ "text")
      × (is_none p.text ≡ false)
      × (p.uri ≡ none)
      × (p.artifact ≡ none)
      × (p.media_type ≡ none)
      × (p.name ≡ none)
      × (p.content ≡ no_entry)
unfolding check_content_part
text_fields p h k = ground (arith, same_string_iff p.type "text")

artifact_fields :
    (p : ContentPart)
    → check_content_part p ≡ ok tt
    → same_string p.type "text" ≡ false
    → same_string p.type "artifact" ≡ true
    → (p.type ≡ "artifact")
      × (is_none p.artifact ≡ false)
      × (p.text ≡ none)
      × (p.uri ≡ none)
      × (p.media_type ≡ none)
      × (p.name ≡ none)
      × (p.content ≡ no_entry)
unfolding check_content_part
artifact_fields p h k l = ground (arith, same_string_iff p.type "artifact")

opaque_fields :
    (p : ContentPart)
    → check_content_part p ≡ ok tt
    → same_string p.type "text" ≡ false
    → same_string p.type "artifact" ≡ false
    → p.artifact ≡ none
unfolding check_content_part
opaque_fields p h k l = ground arith

opaque_part :
    (p : ContentPart)
    → check_content_part p ≡ ok tt
    → p.artifact ≡ none
    → decode_opaque p.type (opaque_entries p) ≡ ok p
unfolding decode_opaque opaque_entries
opaque_part p h bare = ground (arith, part_texts p h)

-- Decoding what a valid part is encoded as gives the part.
pub decode_content_part-encode :
    (p : ContentPart) → IsPart p → (encode_content_part p >>= decode_content_part_value) ≡ ok p
unfolding encode_content_part decode_content_part_value
decode_content_part-encode p (checked, inner) = elim (Bool-cases (same_string p.type "text")) [
  | inl text ↦
      let fields = text_fields p checked text in
      unfold decode_text in ground (arith, fields, checked, part_texts p checked)
  | inr other ↦ elim (Bool-cases (same_string p.type "artifact")) [
    | inl artifact ↦
        let fields = artifact_fields p checked other artifact in
        unfold decode_artifact_part in ground (arith, fields, checked, part_texts p checked)
    | inr opaque ↦
        let (typed, uri, media_type, name) = part_texts p checked in
        rw (other, opaque, typed, other, opaque)
          (opaque_part p checked (opaque_fields p checked other opaque))
  ]
]
