-- ===== src/Wire/Facts/Readers.antt =====
-- Reading back the texts, keys and enumerations of an encoded fact.
use jharness.Common.{
  ◌≡◌, refl, true, false, String, Option, none, some, List, [], ◌∷◌, map, arith, sym, ◌∙◌, says,
  Bool-cases, inl, inr, same_string_iff, decide-String-discrete,
}
use jharness.Errors.{Result, ok}
use jharness.Json.{Json, string}
use jharness.Messages.{Role, system, user, assistant, tool, external}
use jharness.Messages.Checks.{role_text, empty_text}
use jharness.State.{LimitReason, max_planning_steps, max_tool_calls, max_total_tokens, deadline}
use jharness.State.Pending.{has_text, unique_texts}
use jharness.Checkpoint.{
  ModelTurnResult, planning, completed, tools_pending, limited, ToolOutcomeKind, success, failure,
  accepted, waiting, SuspensionView, check_texts, check_suspension_view, is_blank, blank_wait,
}
use jharness.Wire.{each, items_of, list_of, read_enum, optional, read_string, read_non_empty}
use jharness.Wire.Parts.{or_null, text_json}
use jharness.Wire.State.{reason_text, limit_reasons}
use jharness.Wire.Facts.{
  texts_json, roles_json, roles, result_text, model_results, kind_text, outcome_kinds_allowed,
}
use jharness.Wire.Facts.Decoding.{decode_roles, read_keys, read_ids}

-- Enumerations are read back from their texts.
pub read_role : (r : Role) (label : String) → read_enum roles (string (role_text r)) label ≡ ok r
unfolding read_enum
read_role system label = refl
read_role user label = refl
read_role assistant label = refl
read_role tool label = refl
read_role external label = refl

pub read_result :
    (r : ModelTurnResult) (label : String)
    → read_enum model_results (string (result_text r)) label ≡ ok r
unfolding read_enum
read_result planning label = refl
read_result completed label = refl
read_result tools_pending label = refl
read_result limited label = refl

pub read_kind :
    (k : ToolOutcomeKind) (label : String)
    → read_enum outcome_kinds_allowed (string (kind_text k)) label ≡ ok k
unfolding read_enum
read_kind success label = refl
read_kind failure label = refl
read_kind accepted label = refl
read_kind waiting label = refl

pub read_limit :
    (r : LimitReason) (label : String)
    → read_enum limit_reasons (string (reason_text r)) label ≡ ok r
unfolding read_enum
read_limit max_planning_steps label = refl
read_limit max_tool_calls label = refl
read_limit max_total_tokens label = refl
read_limit deadline label = refl

-- A list is read back when each item is.
pub each-map :
    {A : Type 0} (encode : A → Json) (read : Json → Result A) (xs : List A)
    → ((x : A) → read (encode x) ≡ ok x)
    → each read (list_of (items_of (map encode xs))) ≡ ok xs
unfolding each
each-map encode read [] back = refl
each-map encode read (x ∷ xs) back = rw (back x, each-map encode read xs back)

pub decode_roles-encode :
    (rs : List Role) (label : String) → decode_roles (roles_json rs) label ≡ ok rs
unfolding decode_roles
decode_roles-encode rs label =
    each-map (λ r. string (role_text r)) (λ j. read_enum roles j _) rs (λ r. read_role r _)

pub texts_facts :
    (items : List String)
    → check_texts items ≡ ok tt
    → (has_text "" items ≡ false) × (unique_texts items ≡ true)
unfolding check_texts
texts_facts items h = ground arith

pub filled_text : (s : String) → is_blank s ≡ false → empty_text s ≡ false
filled_text s h = sym (decide-String-discrete s "") ∙ h

pub first_filled :
    (s : String) (rest : List String) → has_text "" (s ∷ rest) ≡ false → empty_text s ≡ false
unfolding has_text
first_filled s rest h = elim (Bool-cases (empty_text s)) [
  | inr filled ↦ filled
  | inl empty ↦
      let same : "" ≡ s = sym ((same_string_iff s "").0 empty) in
      absurd (ground (arith, decide-String-discrete "" s, (same_string_iff "" s).1 same))
]

pub read_keys-encode :
    (keys : List String) (label : String)
    → unique_texts keys ≡ true
    → read_keys (texts_json keys) label ≡ ok keys
unfolding read_keys read_string
read_keys-encode keys label fresh =
    rw (each-map string (λ j. read_string j (says label " item")) keys (λ k. refl), fresh)

pub read_each-filled :
    (ids : List String) (label : String)
    → has_text "" ids ≡ false
    → each (λ j. read_non_empty j label) (list_of (items_of (map string ids))) ≡ ok ids
unfolding each has_text read_non_empty
read_each-filled [] label filled = refl
read_each-filled (s ∷ rest) label filled =
    rw (first_filled s rest filled, read_each-filled rest label (ground arith))

pub read_ids-encode :
    (ids : List String) (label : String)
    → check_texts ids ≡ ok tt
    → read_ids (texts_json ids) label ≡ ok ids
unfolding read_ids
read_ids-encode ids label h =
    let (filled, fresh) = texts_facts ids h in
    rw (read_each-filled ids (says label " item") filled, fresh)

abbrev FilledOption : Option String → Type 0
FilledOption none = Unit
FilledOption (some s) = empty_text s ≡ false

pub view_facts :
    (v : SuspensionView)
    → check_suspension_view v ≡ ok tt
    → (is_blank v.reason ≡ false)
      × (is_blank v.source ≡ false)
      × (blank_wait v.wait_id ≡ false)
      × (check_texts v.metadata_keys ≡ ok tt)
unfolding check_suspension_view
view_facts v h = ground arith

pub read_wait :
    (wait : Option String) (label : String)
    → blank_wait wait ≡ false
    → optional (λ j. read_non_empty j label) (or_null (text_json wait)) ≡ ok wait
unfolding optional read_non_empty
read_wait none label h = refl
read_wait (some s) label h = rw (filled_text s h)
