-- ===== src/Wire/State/Laws.antt =====
-- Decoding an encoded state, suspension or metrics gives it back, a cursor up to the calls it has
-- passed; and the levels that decoding takes are enough.
use jharness.Common.{
  ℕ, zero, suc, ◌≤◌, ◌<◌, length, drop, length-drop, ◌≡◌, refl, ap, true, false, String, Option,
  none, some, List, [], ◌∷◌, map, arith, pos, Bool-cases, Option-cases, inl, inr, same_string,
}
use jharness.Errors.{Result, ok, ◌>>=◌}
use jharness.Json.{Json, object, string, Entries, no_entry, entry, integer}
use jharness.Json.Depth.{depth, depth_entries}
use jharness.Messages.{RuntimeToolCall}
use jharness.Messages.Checks.{check_runtime_call, check_error_info, empty_text}
use jharness.State.{
  LimitReason, max_planning_steps, max_tool_calls, max_total_tokens, deadline, ActiveState,
  planning, tools_pending, Suspension, RunState, active, suspended, completed, failed, limited,
  RunMetrics,
}
use jharness.State.Usage.{ModelUsage}
use jharness.State.Pending.{
  PendingToolCalls, pending_tool_calls, pending_of, remaining_calls, unique_texts, ids_of,
}
use jharness.State.Pending.Laws.{IsPending, pending_of-IsPending}
use jharness.Wire.{find, each, items_of, list_of, read_enum, read_integer}
use jharness.Wire.Parts.{decode_content_part_value}
use jharness.Wire.Parts.Laws.{IsPart, decode_error_info-encode}
use jharness.Wire.Calls.{encode_runtime_tool_call, decode_runtime_tool_call_value, decode_parts}
use jharness.Wire.Calls.Laws.{All, parts_encode, decode_runtime_tool_call-encode, list_of-items_of}
use jharness.Wire.State.{
  encode_model_usage, decode_model_usage_value, encode_metrics, decode_metrics_value,
  check_suspension, encode_suspension, decode_suspension_value, encode_active, encode_state,
  decode_state_with, decode_state_within, decode_state_value, decode_suspended, decode_planning,
  decode_tools_pending, decode_completed, decode_failed, decode_limited, reason_text, limit_reasons,
}

pub read_integer-pos : (n : ℕ) (label : String) → read_integer 0 (integer (pos n)) label ≡ ok n
unfolding read_integer
read_integer-pos n label = ground arith

-- Decoding encoded usage gives the usage.
pub decode_usage-encode : (u : ModelUsage) → decode_model_usage_value (encode_model_usage u) ≡ ok u
unfolding decode_model_usage_value encode_model_usage
decode_usage-encode u = ground arith

-- Decoding encoded metrics gives the metrics.
pub decode_metrics-encode : (m : RunMetrics) → decode_metrics_value (encode_metrics m) ≡ ok m
unfolding decode_metrics_value encode_metrics
decode_metrics-encode m = ground (arith, decode_usage-encode m.usage)

abbrev WaitNotEmpty : Option String → Type 0
WaitNotEmpty none = Unit
WaitNotEmpty (some s) = empty_text s ≡ false

suspension_texts :
    (s : Suspension)
    → check_suspension s ≡ ok tt
    → (empty_text s.reason ≡ false) × (empty_text s.source ≡ false) × WaitNotEmpty s.wait_id
unfolding check_suspension
suspension_texts s h = ground arith

pub decode_suspension-encode :
    (s : Suspension)
    → check_suspension s ≡ ok tt
    → decode_suspension_value (encode_suspension s) ≡ ok s
unfolding decode_suspension_value encode_suspension
decode_suspension-encode s h = ground (arith, suspension_texts s h)

calls_back :
    (calls : List RuntimeToolCall)
    → All (λ (c : RuntimeToolCall). check_runtime_call c ≡ ok tt) calls
    → each decode_runtime_tool_call_value (map encode_runtime_tool_call calls) ≡ ok calls
unfolding each
calls_back [] h = refl
calls_back (c ∷ cs) (h, hs) = rw (decode_runtime_tool_call-encode c h, calls_back cs hs)

-- A value in an object is less deep than the object.
find-depth :
    (key : String) (entries : Entries) (v : Json)
    → find key entries ≡ some v
    → depth v ≤ depth_entries entries
unfolding find depth_entries
find-depth key no_entry v h = absurd (cc)
find-depth key (entry k w rest) v h = elim (Bool-cases (same_string k key)) [
  | inl found ↦ let same : w ≡ v = cc (rw found at h) in omega (arith, ap depth same)
  | inr other ↦ let later = find-depth key rest v (rw other at h) in omega arith
]

unique-drop :
    (n : ℕ) (calls : List RuntimeToolCall)
    → unique_texts (ids_of calls) ≡ true
    → unique_texts (ids_of (drop n calls)) ≡ true
unfolding unique_texts
unique-drop zero calls h = h
unique-drop (suc n) [] h = h
unique-drop (suc n) (c ∷ cs) h = unique-drop n cs (ground arith)

abbrev suspended_entries : ActiveState → Suspension → Entries
suspended_entries a s =
    entry "kind" (string "suspended")
      (entry "resume_to" (encode_active a) (entry "suspension" (encode_suspension s) no_entry))

abbrev suspended_json : ActiveState → Suspension → Json
suspended_json a s = object (suspended_entries a s)

module _ (sha256 : List ℕ → List ℕ) where
  -- The cursor at its first call over the calls that a cursor has left.
  abbrev pub rebased : PendingToolCalls → PendingToolCalls
  rebased p = pending_of sha256 (remaining_calls p)

  abbrev pub rebased_active : ActiveState → ActiveState
  rebased_active (planning flag) = planning flag
  rebased_active (tools_pending p flag) = tools_pending (rebased p) flag

  abbrev pub rebased_state : RunState → RunState
  rebased_state (active a) = active (rebased_active a)
  rebased_state (suspended a s) = suspended (rebased_active a) s
  rebased_state (completed parts) = completed parts
  rebased_state (failed e) = failed e
  rebased_state (limited r) = limited r

  abbrev pub IsActive : ActiveState → Type 0
  IsActive (planning flag) = Unit
  IsActive (tools_pending p flag) =
      IsPending sha256 p
      × All (λ (c : RuntimeToolCall). check_runtime_call c ≡ ok tt) (remaining_calls p)

  -- What the constructors of a state and of its parts check.
  abbrev pub IsState : RunState → Type 0
  IsState (active a) = IsActive a
  IsState (suspended a s) = IsActive a × (check_suspension s ≡ ok tt)
  IsState (completed parts) = All IsPart parts
  IsState (failed e) = check_error_info e ≡ ok tt
  IsState (limited r) = Unit

  pending_of_calls :
      (calls : List RuntimeToolCall)
      → 0 < length calls
      → unique_texts (ids_of calls) ≡ true
      → pending_tool_calls sha256 calls ≡ ok (pending_of sha256 calls)
  unfolding pending_tool_calls
  pending_of_calls [] h u = absurd (omega arith)
  pending_of_calls (c ∷ cs) h u = rw u

  pending_of_valid :
      (calls : List RuntimeToolCall)
      → 0 < length calls
      → unique_texts (ids_of calls) ≡ true
      → IsPending sha256 (pending_of sha256 calls)
  pending_of_valid [] h u = absurd (omega arith)
  pending_of_valid (c ∷ cs) h u = pending_of-IsPending sha256 c cs u

  remaining_fresh :
      (p : PendingToolCalls)
      → IsPending sha256 p
      → (0 < length (remaining_calls p)) × (unique_texts (ids_of (remaining_calls p)) ≡ true)
  unfolding remaining_calls
  remaining_fresh p v = (
    omega (arith, length-drop p.offset p.calls, v.pointing),
    unique-drop p.offset p.calls v.unique,
  )

  pub rebased-IsPending : (p : PendingToolCalls) → IsPending sha256 p → IsPending sha256 (rebased p)
  rebased-IsPending p v =
      let (left, unique) = remaining_fresh p v in pending_of_valid (remaining_calls p) left unique

  pending_tool_calls-remaining :
      (p : PendingToolCalls)
      → IsPending sha256 p
      → pending_tool_calls sha256 (remaining_calls p) ≡ ok (rebased p)
  pending_tool_calls-remaining p v =
      let (left, unique) = remaining_fresh p v in pending_of_calls (remaining_calls p) left unique

  decode_active-encode :
      (inner : Json → Result RunState) (a : ActiveState)
      → IsActive a
      → decode_state_with sha256 inner (encode_active a) ≡ ok (active (rebased_active a))
  unfolding decode_state_with encode_active decode_planning decode_tools_pending
  decode_active-encode inner (planning flag) h = refl
  decode_active-encode inner (tools_pending p flag) (v, calls) = rw (
    list_of-items_of (map encode_runtime_tool_call (remaining_calls p)),
    calls_back (remaining_calls p) calls,
    pending_tool_calls-remaining p v,
  )

  suspended_agree :
      (f g : Json → Result RunState) (raw : Entries)
      → ((v : Json) → find "resume_to" raw ≡ some v → f v ≡ g v)
      → decode_suspended sha256 f raw ≡ decode_suspended sha256 g raw
  unfolding decode_suspended
  suspended_agree f g raw same = elim (Option-cases (find "resume_to" raw)) [
    | inl missing ↦ rw missing (ground arith)
    | inr (v, found) ↦ rw found (ground (arith, same v found, found))
  ]

  with_agree :
      (f g : Json → Result RunState) (raw : Entries)
      → ((v : Json) → find "resume_to" raw ≡ some v → f v ≡ g v)
      → decode_state_with sha256 f (object raw) ≡ decode_state_with sha256 g (object raw)
  unfolding decode_state_with
  with_agree f g raw same = rw (suspended_agree f g raw same)

  -- Levels of nesting beyond those of the value make no difference to decoding.
  pub decode_state_levels :
      (m n : ℕ) (v : Json)
      → depth v ≤ m
      → depth v ≤ n
      → decode_state_within sha256 m v ≡ decode_state_within sha256 n v
  unfolding decode_state_within depth
  decode_state_levels zero zero v h k = refl
  decode_state_levels (suc m) (suc n) (object raw) h k =
      with_agree (decode_state_within sha256 m) (decode_state_within sha256 n) raw (λ v found.
        decode_state_levels m n v (omega (arith, find-depth "resume_to" raw v found))
          (omega (arith, find-depth "resume_to" raw v found)))
  decode_state_levels zero (suc n) (object raw) h k = absurd (omega arith)
  decode_state_levels (suc m) zero (object raw) h k = absurd (omega arith)
  decode_state_levels zero (suc n) v h k = unfold decode_state_with in refl
  decode_state_levels (suc m) zero v h k = unfold decode_state_with in refl
  decode_state_levels (suc m) (suc n) v h k = unfold decode_state_with in refl

  active_levels :
      (n : ℕ) (a : ActiveState)
      → IsActive a
      → 1 ≤ n
      → decode_state_within sha256 n (encode_active a) ≡ ok (active (rebased_active a))
  unfolding decode_state_within
  active_levels zero a h k = absurd (omega arith)
  active_levels (suc n) a h k = decode_active-encode (decode_state_within sha256 n) a h

  active_depth : (a : ActiveState) → 1 ≤ depth (encode_active a)
  unfolding encode_active depth
  active_depth (planning flag) = omega arith
  active_depth (tools_pending p flag) = omega arith

  read_reason :
      (r : LimitReason) → read_enum limit_reasons (string (reason_text r)) "limit reason" ≡ ok r
  unfolding read_enum
  read_reason max_planning_steps = refl
  read_reason max_tool_calls = refl
  read_reason max_total_tokens = refl
  read_reason deadline = refl

  decode_suspended-encode :
      (a : ActiveState) (s : Suspension)
      → IsActive a
      → check_suspension s ≡ ok tt
      → decode_state_value sha256 (suspended_json a s) ≡ ok (suspended (rebased_active a) s)
  unfolding decode_state_value decode_state_with decode_suspended depth depth_entries
  decode_suspended-encode a s h k =
      let enough : 1 ≤ depth_entries (suspended_entries a s) = omega (arith, active_depth a) in
      rw (
        active_levels (depth_entries (suspended_entries a s)) a h enough,
        decode_suspension-encode s k,
      )

  -- Decoding what a valid state is encoded as gives the state, its cursor rebased.
  pub decode_state-encode :
      (s : RunState)
      → IsState s
      → (encode_state s >>= decode_state_value sha256) ≡ ok (rebased_state s)
  unfolding encode_state decode_state_value decode_state_within depth
  decode_state-encode (active a) h = active_levels (depth (encode_active a)) a h (active_depth a)
  decode_state-encode (suspended a s) (h, k) = decode_suspended-encode a s h k
  decode_state-encode (completed parts) h =
      let (vs, encoded, decoded) = parts_encode parts h in
      let back : each decode_content_part_value (list_of (items_of vs)) ≡ ok parts =
        unfold decode_parts in decoded "completed parts" in
      unfold decode_state_with decode_completed in rw (encoded, back)
  decode_state-encode (failed e) h =
      unfold decode_state_with decode_failed in rw (decode_error_info-encode e h)
  decode_state-encode (limited r) h = unfold decode_state_with decode_limited in rw (read_reason r)
