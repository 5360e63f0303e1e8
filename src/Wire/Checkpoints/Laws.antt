-- ===== src/Wire/Checkpoints/Laws.antt =====
-- Decoding an encoded checkpoint gives it back: the boundary between its fact and its snapshot holds
-- again of the snapshot that is decoded.
use jharness.Common.{
  ℕ, ◌≡◌, refl, sym, ap, ◌∙◌, false, String, Option, none, some, List, ℤ, negsuc, length, reverse,
  reverse-reverse, arith, leb, if◌then◌else◌,
}
use jharness.Errors.{Result, ok, err, ◌>>=◌}
use jharness.Json.{Json, object, string, entry, no_entry}
use jharness.Json.Depth.{depth, max_json_nesting_depth}
use jharness.Messages.{Message}
use jharness.History.{iter_reversed}
use jharness.History.Run.{RunHistory, iter, get_item}
use jharness.History.Run.Contents.{IsHistory, contents, iter-contents, get_item-eq-item}
use jharness.State.{
  RunState, active, suspended, completed, failed, limited, planning, tools_pending,
}
use jharness.State.Pending.{PendingToolCalls, pending_count, remaining_calls}
use jharness.State.Pending.Laws.{remaining-pending_of, length-remaining}
use jharness.Snapshot.{RunSnapshot}
use jharness.Snapshot.Valid.{IsSnapshot}
use jharness.Checkpoint
use jharness.Checkpoint.{
  ModelTurn, ToolBatchTurn, ControlDecision, SuspensionView, FactBody, Fact, check_fact, is_blank,
}
use jharness.Checkpoint.Boundary.{
  checkpoint, validate_boundary, validate_advanced, validate_started, validate_resumed,
  validate_model, validate_tool, validate_insert, validate_rewrite, validate_control,
  validate_batch_state, validate_model_state, validate_planning, is_planning,
}
use jharness.Wire.{too_deep}
use jharness.Wire.State.Laws.{rebased, rebased_state}
use jharness.Checkpoint.Laws.{checkpoint_inv}
use jharness.Wire.Messages.Laws.{decode_document-back}
use jharness.Wire.Snapshot.{negative}
use jharness.Wire.Snapshot.Laws.{IsEncodable, Restores, decode_snapshot_value-encode}
use jharness.Wire.Facts.{encode_fact}
use jharness.Wire.Facts.Laws.{decode_fact_value-encode}
use jharness.Wire.Facts.Readers.{filled_text}
use jharness.Wire.Checkpoints.{encode_checkpoint, decode_checkpoint, decode_checkpoint_value}

module _ (s t : RunHistory Message) (v : IsHistory s) (w : IsHistory t)
    (same : contents t ≡ contents s) where
  iter_same : iter t ≡ iter s
  iter_same = iter-contents t w ∙ same ∙ sym (iter-contents s v)

  get_item_same : (i : ℤ) → get_item t i ≡ get_item s i
  get_item_same i = get_item-eq-item t i w ∙ rw same (sym (get_item-eq-item s i v))

  digits_same : iter_reversed t.digits ≡ iter_reversed s.digits
  digits_same =
      sym (reverse-reverse (iter_reversed t.digits))
      ∙ ap reverse same
      ∙ reverse-reverse (iter_reversed s.digits)

  counts_same : t.count ≡ s.count
  counts_same = sym w.counted ∙ ap length digits_same ∙ v.counted

bind_same :
    {A B : Type 0} (m : Result A) (f g : A → Result B)
    → ((x : A) → f x ≡ g x)
    → (m >>= f) ≡ (m >>= g)
bind_same (ok x) f g h = h x
bind_same (err e) f g h = refl

module _ (sha256 : List ℕ → List ℕ) where
  validate_batch_state-rebased :
      (view : Option SuspensionView) (s : RunState)
      → validate_batch_state view (rebased_state sha256 s) ≡ validate_batch_state view s
  unfolding validate_batch_state
  validate_batch_state-rebased none (active a) = refl
  validate_batch_state-rebased none (suspended a x) = refl
  validate_batch_state-rebased none (completed parts) = refl
  validate_batch_state-rebased none (failed e) = refl
  validate_batch_state-rebased none (limited r) = refl
  validate_batch_state-rebased (some v) (active a) = refl
  validate_batch_state-rebased (some v) (suspended a x) = refl
  validate_batch_state-rebased (some v) (completed parts) = refl
  validate_batch_state-rebased (some v) (failed e) = refl
  validate_batch_state-rebased (some v) (limited r) = refl

  validate_resumed-rebased :
      (s : RunState) → validate_resumed (rebased_state sha256 s) ≡ validate_resumed s
  unfolding validate_resumed
  validate_resumed-rebased s = ground arith

  is_planning-rebased : (s : RunState) → is_planning (rebased_state sha256 s) ≡ is_planning s
  is_planning-rebased s = ground arith

  validate_planning-rebased :
      (s : RunState) (m : String)
      → validate_planning (rebased_state sha256 s) m ≡ validate_planning s m
  unfolding validate_planning
  validate_planning-rebased s m = ground arith

  validate_control-rebased :
      (s : RunState) (d : ControlDecision)
      → validate_control (rebased_state sha256 s) d ≡ validate_control s d
  unfolding validate_control
  validate_control-rebased s d = ground arith

  remaining-rebased :
      (p : PendingToolCalls) → remaining_calls (rebased sha256 p) ≡ remaining_calls p
  remaining-rebased p = remaining-pending_of sha256 (remaining_calls p)

  pending_count-rebased :
      (p : PendingToolCalls) → pending_count (rebased sha256 p) ≡ pending_count p
  pending_count-rebased p =
      sym (length-remaining (rebased sha256 p))
      ∙ ap length (remaining-rebased p)
      ∙ length-remaining p

  validate_model_state-rebased :
      (s : RunState) (t : ModelTurn) (r : Checkpoint.ModelTurnResult) (m : Message)
      → validate_model_state (rebased_state sha256 s) t r m ≡ validate_model_state s t r m
  unfolding validate_model_state
  validate_model_state-rebased (active (tools_pending p b)) t
        Checkpoint.ModelTurnResult.tools_pending m =
      rw (pending_count-rebased p, remaining-rebased p)
  validate_model_state-rebased (active (tools_pending p b)) t Checkpoint.ModelTurnResult.planning
        m =
      refl
  validate_model_state-rebased (active (tools_pending p b)) t Checkpoint.ModelTurnResult.completed
        m =
      refl
  validate_model_state-rebased (active (tools_pending p b)) t Checkpoint.ModelTurnResult.limited m =
      refl
  validate_model_state-rebased (active (planning b)) t r m = refl
  validate_model_state-rebased (suspended a x) t Checkpoint.ModelTurnResult.tools_pending m = refl
  validate_model_state-rebased (suspended a x) t Checkpoint.ModelTurnResult.planning m = refl
  validate_model_state-rebased (suspended a x) t Checkpoint.ModelTurnResult.completed m = refl
  validate_model_state-rebased (suspended a x) t Checkpoint.ModelTurnResult.limited m = refl
  validate_model_state-rebased (completed parts) t r m = refl
  validate_model_state-rebased (failed e) t r m = refl
  validate_model_state-rebased (limited reason) t r m = refl

  module _ (s t : RunSnapshot) (v : IsSnapshot sha256 s) (r : Restores sha256 s t) where
    iter_back : iter t.history ≡ iter s.history
    iter_back = iter_same s.history t.history v.history r.valid.history r.messages

    get_back : (i : ℤ) → get_item t.history i ≡ get_item s.history i
    get_back = get_item_same s.history t.history v.history r.valid.history r.messages

    digits_back : iter_reversed t.history.digits ≡ iter_reversed s.history.digits
    digits_back = digits_same s.history t.history v.history r.valid.history r.messages

    counts_back : t.history.count ≡ s.history.count
    counts_back = counts_same s.history t.history v.history r.valid.history r.messages

    -- The boundary tests see the same in a snapshot that was decoded.
    validate_advanced-back : (b : FactBody) → validate_advanced t b ≡ validate_advanced s b
    unfolding validate_advanced
    validate_advanced-back (Checkpoint.started roles) =
        unfold validate_started in rw (iter_back, r.revision, r.state, is_planning-rebased s.state)
    validate_advanced-back (Checkpoint.resumed roles keys) =
        rw (r.state) (validate_resumed-rebased s.state)
    validate_advanced-back (Checkpoint.model_turn x) =
        unfold validate_model in
        rw (get_back (negsuc 0), r.state)
          (bind_same (get_item s.history (negsuc 0)) _ _
            (λ m. rw (validate_model_state-rebased s.state x x.result m)))
    validate_advanced-back (Checkpoint.tool_batch x) =
        unfold validate_tool in
        rw (r.state, digits_back, counts_back, validate_batch_state-rebased x.suspension s.state)
    validate_advanced-back (Checkpoint.conversation_insert source) =
        unfold validate_insert in
        rw (get_back (negsuc 0), r.state, validate_planning-rebased s.state _)
    validate_advanced-back (Checkpoint.history_rewrite x) =
        unfold validate_rewrite in rw (iter_back, r.state, validate_planning-rebased s.state _)
    validate_advanced-back (Checkpoint.control d) =
        rw (r.state) (validate_control-rebased s.state d)

    validate_boundary-back : (b : FactBody) → validate_boundary t b ≡ validate_boundary s b
    unfolding validate_boundary
    validate_boundary-back b = rw (validate_advanced-back b, r.revision)

  -- What the constructors of a checkpoint and of its parts check.
  pub record IsCheckpoint (c : Checkpoint.Checkpoint) : Type 0 where
    pub made : checkpoint c.id c.snapshot c.fact ≡ ok c
    pub snapshot : IsEncodable sha256 c.snapshot
    pub checked : check_fact c.fact.body ≡ ok tt
    pub time : negative c.fact.at ≡ false

  made_again :
      (id : String) (s t : RunSnapshot) (fact : Fact) (c : Checkpoint.Checkpoint)
      → IsSnapshot sha256 s
      → Restores sha256 s t
      → checkpoint id s fact ≡ ok c
      → (is_blank id ≡ false)
        × (checkpoint id t fact ≡ ok (record { id = id; snapshot = t; fact = fact }))
  unfolding checkpoint
  made_again id s t fact c v r h =
      let (bound, _, _, _) = checkpoint_inv id s fact c h in
      let named : is_blank id ≡ false = ground arith in
      let again = validate_boundary-back s t v r fact.body ∙ bound in (named, rw (named, again))

  module _ (float_of : ℤ → String) where
    -- A valid checkpoint can be encoded, and decoding what it is encoded as gives a checkpoint with
    -- the same id, the same fact and the same snapshot, its cursor rebased; or it raises, if the whole
    -- nests deeper than the limit.
    pub decode_checkpoint-encode :
        (c : Checkpoint.Checkpoint)
        → IsCheckpoint c
        → (v : Json) × (t : RunSnapshot) × (encode_checkpoint c ≡ ok v)
          × (decode_checkpoint float_of sha256 v ≡ (
              if leb (depth v) max_json_nesting_depth
              then ok (record { id = c.id; snapshot = t; fact = c.fact })
              else err (too_deep "checkpoint")))
          × Restores sha256 c.snapshot t
    unfolding decode_checkpoint
    decode_checkpoint-encode c w =
        let (sv, t, encoded, decoded, same) =
          decode_snapshot_value-encode sha256 float_of c.snapshot w.snapshot in
        let (named, made) = made_again c.id c.snapshot t c.fact c w.snapshot.valid same w.made in
        let v : Json = object (
          entry "schema_version" (string "v0") (
            entry "id" (string c.id)
              (entry "snapshot" sv (entry "fact" (encode_fact c.fact) no_entry)))) in
        let back : decode_checkpoint_value float_of sha256 v
            ≡ ok (record { id = c.id; snapshot = t; fact = c.fact }) =
          unfold decode_checkpoint_value in
          rw (
            filled_text c.id named,
            decoded,
            decode_fact_value-encode float_of c.fact w.time w.checked,
            made,
          ) in
        (
          v,
          t,
          unfold encode_checkpoint in rw encoded,
          decode_document-back v "checkpoint" (decode_checkpoint_value float_of sha256)
              (record { id = c.id; snapshot = t; fact = c.fact }) back,
          same,
        )
