-- ===== src/Wire/Snapshot/Laws.antt =====
-- Decoding an encoded snapshot gives it back: the same messages, counters and state, its cursor
-- rebased, and the proof that analyzing the messages anew finds.
use jharness.Common.{
  ℕ, ◌≡◌, ◌≢◌, refl, sym, false, String, List, [], ◌∷◌, ℤ, arith, leb, if◌then◌else◌, pos,
}
use jharness.Errors.{ok, err, >>=-eq-ok}
use jharness.Json.{Json, array, object, entry, no_entry, integer}
use jharness.Json.Depth.{depth, max_json_nesting_depth}
use jharness.Messages.{Message}
use jharness.Messages.Checks.{empty_text}
use jharness.Digest.{empty_history_digest, append_history_digest}
use jharness.History.Run.{RunHistory, iter, run_history}
use jharness.History.Run.Contents.{IsHistory, contents, iter-contents, run_history-contents}
use jharness.State.Pending.Laws.{AllPending}
use jharness.Linkage.{HistoryProof, validate_proof, pending_state, analyze_messages}
use jharness.Linkage.Incremental.{validate_proof-Agree, Agree-ok}
use jharness.Snapshot.{RunContext, RunSnapshot, run_snapshot}
use jharness.Snapshot.Valid.{IsSnapshot, run_snapshot-IsSnapshot}
use jharness.Wire.{each, items_of, too_deep}
use jharness.Wire.Calls.Laws.{All, each-each, list_of-items_of}
use jharness.Wire.Messages.{encode_message, decode_message_value}
use jharness.Wire.Messages.Laws.{IsMessage, decode_value-encode, decode_document-back}
use jharness.Wire.State.{encode_state, encode_metrics}
use jharness.Wire.State.Laws.{
  IsState, rebased_state, decode_state-encode, decode_metrics-encode, read_integer-pos,
}
use jharness.Wire.Snapshot.{
  check_context, encode_context, decode_context_value, negative, negative_time, encode_snapshot,
  decode_snapshot, decode_snapshot_value, is_nil,
}
use jharness.Wire.Snapshot.Rebased.{
  pending_state-rebased, rebased-AllPending, validate_proof-rebased, IsState-pending,
}

context_fields :
    (c : RunContext)
    → check_context c ≡ ok tt
    → (empty_text c.run_id ≡ false)
      × (negative c.started_at ≡ false)
      × (negative_time c.deadline ≡ false)
unfolding check_context
context_fields c h = ground arith

module _ (float_of : ℤ → String) where
  pub decode_context-encode :
      (c : RunContext)
      → check_context c ≡ ok tt
      → decode_context_value float_of (encode_context c) ≡ ok c
  unfolding decode_context_value encode_context
  decode_context-encode c h = ground (arith, context_fields c h)

is_nil-false : (ms : List Message) → ms ≢ [] → is_nil ms ≡ false
is_nil-false [] h = absurd (h refl)
is_nil-false (m ∷ ms) h = refl

messages_back :
    (ms : List Message)
    → All IsMessage ms
    → (vs : List Json) × (each encode_message ms ≡ ok vs) × (each decode_message_value vs ≡ ok ms)
messages_back ms h =
    >>=-eq-ok (each encode_message ms) _
      (each-each encode_message decode_message_value IsMessage decode_value-encode ms h)

abbrev snapshot_json : RunSnapshot → List Json → Json → Json
snapshot_json s history state = object (
    entry "revision" (integer (pos s.revision)) (
      entry "context" (encode_context s.context) (
        entry "history" (array (items_of history))
          (entry "metrics" (encode_metrics s.metrics) (entry "state" state no_entry)))))

module _ (sha256 : List ℕ → List ℕ) where
  -- A snapshot as its constructor leaves it, of values as their constructors leave them.
  pub record IsEncodable (s : RunSnapshot) : Type 0 where
    pub valid : IsSnapshot sha256 s
    pub settled : validate_proof s.history_proof s.state ≡ ok s.history_proof
    pub context : check_context s.context ≡ ok tt
    pub messages : All IsMessage (contents s.history)
    pub state : IsState sha256 s.state

  -- Analyzing the messages of such a snapshot anew, with its state rebased, gives a proof with the
  -- digest that it has.
  analyzed_again :
      (s : RunSnapshot) (h : RunHistory Message)
      → IsEncodable s
      → IsHistory h
      → contents h ≡ contents s.history
      → (q : HistoryProof) × (analyze_messages sha256 (iter h) (rebased_state sha256 s.state)
          ≡ ok q)
        × (q.digest ≡ s.history_proof.digest)
  unfolding analyze_messages
  analyzed_again s h v w e =
      let (p, extended, same) = v.valid.proof in
      let pending = IsState-pending sha256 s.state v.state in
      let agree = validate_proof-Agree sha256 s.history_proof p s.state same pending in
      let (next, validated, same') = Agree-ok sha256 _ _ s.history_proof v.settled agree in
      let (y, again) =
        validate_proof-rebased sha256 p next s.state same.open_calls.2 pending validated in
      (record p { unresolved = y }, rw (iter-contents h w, e, extended, again), sym same.digests)

  contents_nonempty : (h : RunHistory Message) → IsHistory h → contents h ≢ []
  contents_nonempty h v e = let first = v.starts in cc (rw e at first)

  -- What decoding gives back of a snapshot.
  pub record Restores (s t : RunSnapshot) : Type 0 where
    pub valid : IsSnapshot sha256 t
    pub messages : contents t.history ≡ contents s.history
    pub revision : t.revision ≡ s.revision
    pub context : t.context ≡ s.context
    pub metrics : t.metrics ≡ s.metrics
    pub state : t.state ≡ rebased_state sha256 s.state
    pub digest : t.history_proof.digest ≡ s.history_proof.digest

  restored :
      (s : RunSnapshot)
      → IsEncodable s
      → (h : RunHistory Message) × (t : RunSnapshot) × (run_history
            (empty_history_digest sha256)
            (append_history_digest sha256)
            (contents s.history)
          ≡ ok h)
        × (run_snapshot sha256 s.revision s.context h s.metrics (rebased_state sha256 s.state)
            ≡ ok t)
        × Restores s t
  restored s v =
      let (h, built, valid, same, chained) =
        run_history-contents (empty_history_digest sha256) (append_history_digest sha256)
          (contents s.history) (contents_nonempty s.history v.valid.history) in
      let (q, analyzed, digest) = analyzed_again s h v valid same in
      let t : RunSnapshot = record {
        revision = s.revision;
        context = s.context;
        history = h;
        metrics = s.metrics;
        state = rebased_state sha256 s.state;
        history_proof = q;
      } in
      let made : run_snapshot sha256 s.revision s.context h s.metrics (rebased_state sha256 s.state)
          ≡ ok t =
        unfold run_snapshot in rw analyzed in
      let pending : AllPending sha256 (pending_state (rebased_state sha256 s.state)) =
        rw (pending_state-rebased sha256 s.state) (
          rebased-AllPending sha256 (pending_state s.state)
            (IsState-pending sha256 s.state v.state)) in
      (
        h,
        t,
        built,
        made,
        record {
          valid =
              run_snapshot-IsSnapshot sha256 s.revision s.context h s.metrics
                (rebased_state sha256 s.state) t valid pending made;
          messages = same;
          revision = refl;
          context = refl;
          metrics = refl;
          state = refl;
          digest = digest;
        },
      )

  module _ (float_of : ℤ → String) where
    pub decode_snapshot_value-encode :
        (s : RunSnapshot)
        → IsEncodable s
        → (v : Json) × (t : RunSnapshot) × (encode_snapshot s ≡ ok v)
          × (decode_snapshot_value float_of sha256 v ≡ ok t)
          × Restores s t
    unfolding decode_snapshot_value
    decode_snapshot_value-encode s w =
        let (vs, encoded, decoded) = messages_back (contents s.history) w.messages in
        let (st, state_encoded, state_decoded) =
          >>=-eq-ok (encode_state s.state) _ (decode_state-encode sha256 s.state w.state) in
        let (h, t, built, made, same) = restored s w in
        let iterated = iter-contents s.history w.valid.history in
        (
          snapshot_json s vs st,
          t,
          unfold encode_snapshot in rw (iterated, encoded, state_encoded),
          rw (
            list_of-items_of vs,
            decoded,
            is_nil-false (contents s.history) (contents_nonempty s.history w.valid.history),
            read_integer-pos s.revision "snapshot revision",
            decode_context-encode float_of s.context w.context,
            built,
            decode_metrics-encode s.metrics,
            state_decoded,
            made,
          ),
          same,
        )

    -- A snapshot of valid values can be encoded, and decoding what it is encoded as gives a valid
    -- snapshot with the same messages, context, counters and history digest, and the same state with
    -- its cursor rebased; or it raises, if the whole nests deeper than the limit.
    pub decode_snapshot-encode :
        (s : RunSnapshot)
        → IsEncodable s
        → (v : Json) × (t : RunSnapshot) × (encode_snapshot s ≡ ok v)
          × (decode_snapshot float_of sha256 v ≡ (
              if leb (depth v) max_json_nesting_depth then ok t else err (too_deep "run snapshot")))
          × Restores s t
    unfolding decode_snapshot
    decode_snapshot-encode s w =
        let (v, t, encoded, back, same) = decode_snapshot_value-encode s w in
        (
          v,
          t,
          encoded,
          decode_document-back v "run snapshot" (decode_snapshot_value float_of sha256) t back,
          same,
        )
