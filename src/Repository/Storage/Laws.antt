-- ===== src/Repository/Storage/Laws.antt =====
-- What storage loses of a state.
use jharness.Common.{ℕ, ◌≡◌, sym, ap, ◌∙◌, Bool, false, String, Option, List, [], ◌∷◌, arith, not}
use jharness.Errors.{ok, ◌>>=◌, >>=-eq-ok, >>-eq-ok, raise_if, protocol}
use jharness.Json.{Entries}
use jharness.Messages.{Message}
use jharness.State.{
  ActiveState, planning, tools_pending, RunState, active, suspended, completed, failed, limited,
}
use jharness.Repository.Storage.{
  encode_storage_state, decode_storage_state, decode_pending_state, decode_resume,
  decode_unanswered, decode_stopped, encode_pending_state, has_fields, expect_object,
  pending_entries, stopped_entries,
}
use jharness.Wire.{field, decode_document}
use jharness.Wire.State.{decode_suspension_value}

-- Whether a state has a provider turn to go on with.
abbrev pub active_flag : ActiveState → Bool
active_flag (planning flag) = flag
active_flag (tools_pending p flag) = flag

abbrev pub continues_turn : RunState → Bool
continues_turn (active a) = active_flag a
continues_turn (suspended a s) = active_flag a
continues_turn _ = false

-- The states whose continuation is stored without its calls.
abbrev pub IsAbridged : RunState → Type 0
IsAbridged (active (tools_pending p flag)) = Unit
IsAbridged (suspended a s) = Unit
IsAbridged _ = ⊥

module _ (hex : List ℕ → String) (from_hex : String → Option (List ℕ)) (sha256 : List ℕ → List ℕ)
    (history : List Message) where
  pending_flag :
      (fields : Entries) (a : ActiveState)
      → decode_pending_state hex from_hex sha256 history fields ≡ ok a
      → active_flag a ≡ false
  unfolding decode_pending_state
  pending_flag fields a h = ground arith

  waiting_flag :
      (fields : Entries) (t : RunState)
      → decode_unanswered hex from_hex sha256 history fields ≡ ok t
      → continues_turn t ≡ false
  unfolding decode_unanswered
  waiting_flag fields t h =
      let (a, decoded, made) =
        >>=-eq-ok (decode_pending_state hex from_hex sha256 history fields) _ h in
      let e : active a ≡ t = cc in ap continues_turn (sym e) ∙ pending_flag fields a decoded

  resume_flag :
      (fields : Entries) (a : ActiveState)
      → decode_resume hex from_hex sha256 history fields ≡ ok a
      → active_flag a ≡ false
  unfolding decode_resume
  resume_flag fields a h = ground (arith, pending_flag fields a)

  stopped_flag :
      (fields : Entries) (t : RunState)
      → decode_stopped hex from_hex sha256 history fields ≡ ok t
      → continues_turn t ≡ false
  unfolding decode_stopped
  stopped_flag fields t h =
      let (_, h) =
        >>-eq-ok
          (raise_if (not (has_fields ("kind" ∷ "resume_to" ∷ "suspension" ∷ []) fields))
            (protocol "stored suspended state fields differ"))
          _ h in
      let (raw, _, h) = >>=-eq-ok (field "resume_to" fields) _ h in
      let (resume, _, h) =
        >>=-eq-ok (expect_object hex from_hex raw "stored suspended resume state must be an object")
          _ h in
      let (a, decoded, h) = >>=-eq-ok (decode_resume hex from_hex sha256 history resume) _ h in
      let (value, _, h) = >>=-eq-ok (field "suspension" fields) _ h in
      let (suspension, _, made) =
        >>=-eq-ok (decode_document value "suspension" decode_suspension_value) _ h in
      let e : suspended a suspension ≡ t = cc in
      ap continues_turn (sym e) ∙ resume_flag resume a decoded

  -- What storage gives back of a state that waits for tools, or of a suspended one, never has a
  -- provider turn to go on with, even if the state that was stored had one.
  pub decode_storage_state-flagless :
      (s t : RunState)
      → IsAbridged s
      → (encode_storage_state hex from_hex s >>= decode_storage_state hex from_hex sha256 history)
        ≡ ok t
      → continues_turn t ≡ false
  unfolding encode_storage_state decode_storage_state encode_pending_state
  decode_storage_state-flagless (active (tools_pending p flag)) t w h =
      waiting_flag (pending_entries hex from_hex p) t h
  decode_storage_state-flagless (suspended a s) t w h =
      stopped_flag (stopped_entries hex from_hex a s) t h
  decode_storage_state-flagless (active (planning flag)) t w h = absurd w
  decode_storage_state-flagless (completed parts) t w h = absurd w
  decode_storage_state-flagless (failed e) t w h = absurd w
  decode_storage_state-flagless (limited r) t w h = absurd w
