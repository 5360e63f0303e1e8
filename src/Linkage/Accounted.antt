-- ===== src/Linkage/Accounted.antt =====
-- What _history.py has read: the answered calls, then the open ones, are the requested calls in order.
use jharness.Common.{
  ℕ, ◌≤◌, ◌≡◌, refl, sym, subst, ap, ◌∙◌, true, false, String, Option, none, some, List, [], ◌∷◌,
  ◌++◌, decide→, pos, String-discrete, arith, append_assoc, append-nil, length, drop,
}
use jharness.Errors.{ok, >>=-eq-ok}
use jharness.IdSet.{IdNode, empty_root}
use jharness.Messages.{Message, RuntimeToolCall, call_id}
use jharness.State.Pending.{
  PendingToolCalls, pending_tool_calls, pending_of, remaining_calls, advance, ids_of, unique_texts,
  pending_count,
}
use jharness.State.Pending.Laws.{
  IsPending, AllPending, remaining_or, advance-remaining, length-remaining, pending_of-IsPending,
  remaining-pending_of,
}
use jharness.Digest.{append_history_digest}
use jharness.Linkage.{
  HistoryProof, record_call_ids, answers_first, calls_by_role, requested_calls, is_tool, open_calls,
  answer_call, close_call, advance_linkage, extend_proof,
}
use jharness.Linkage.Ids.{
  call_ids, answered_by, answered_ids, Holds-empty, Recorded, record_call_ids-Recorded,
}

answers_first_inv :
    (calls : List RuntimeToolCall) (id : Option String)
    → answers_first calls id ≡ ok true
    → (c : RuntimeToolCall) × (cs : List RuntimeToolCall) × (calls ≡ c ∷ cs)
      × (id ≡ some (call_id c))
unfolding answers_first
answers_first_inv [] id h = cc
answers_first_inv (c ∷ cs) none h = cc
answers_first_inv (c ∷ cs) (some id) h =
    (c, cs, refl, ap some (decide→ (String-discrete id (call_id c)) (ground arith)))

module _ (sha256 : List ℕ → List ℕ) where
  -- The calls so far: the answered ones, then those that the cursor has left, in order; their ids
  -- are distinct, and they are the ids that were seen.
  pub record IsAccounted (u : Option PendingToolCalls) (seen : IdNode) (ms : List Message)
      : Type 0 where
    pub cursor : AllPending sha256 u
    pub order : answered_ids ms ++ ids_of (remaining_or u) ≡ call_ids ms
    pub recorded : Recorded seen (call_ids ms)

  answer_call_inv :
      (m : Message) (p : PendingToolCalls) (seen seen' : IdNode) (u : Option PendingToolCalls)
      → answer_call sha256 m p seen ≡ ok (u, seen')
      → (is_tool m.role ≡ true)
        × (answers_first (remaining_calls p) m.tool_call_id ≡ ok true)
        × (advance p (pos 1) ≡ ok u)
        × (seen ≡ seen')
  unfolding answer_call close_call
  answer_call_inv m p seen seen' u h = ground arith

  open_calls_inv :
      (c : RuntimeToolCall) (cs : List RuntimeToolCall) (seen seen' : IdNode)
      (u : Option PendingToolCalls)
      → open_calls sha256 (c ∷ cs) seen ≡ ok (u, seen')
      → (u ≡ some (pending_of sha256 (c ∷ cs)))
        × (unique_texts (ids_of (c ∷ cs)) ≡ true)
        × (record_call_ids (c ∷ cs) seen ≡ ok seen')
  unfolding open_calls pending_tool_calls
  open_calls_inv c cs seen seen' u h = ground arith

  open_calls_nil_inv :
      (seen seen' : IdNode) (u : Option PendingToolCalls)
      → open_calls sha256 [] seen ≡ ok (u, seen')
      → (u ≡ none) × (seen ≡ seen')
  unfolding open_calls
  open_calls_nil_inv seen seen' u h = ground arith

  advance_linkage-none_inv :
      (m : Message) (u : Option PendingToolCalls) (seen seen' : IdNode)
      → advance_linkage sha256 m none seen ≡ ok (u, seen')
      → (is_tool m.role ≡ false) × (open_calls sha256 (requested_calls m) seen ≡ ok (u, seen'))
  unfolding advance_linkage
  advance_linkage-none_inv m u seen seen' h = ground arith

  answered-append :
      (ms ns : List Message) → answered_ids (ms ++ ns) ≡ answered_ids ms ++ answered_ids ns
  answered-append [] ns = refl
  answered-append (m ∷ ms) ns = rw (answered-append ms ns) (
      sym (
        append_assoc (answered_by (is_tool m.role) m.tool_call_id) (answered_ids ms)
          (answered_ids ns)))

  call_ids-append : (ms ns : List Message) → call_ids (ms ++ ns) ≡ call_ids ms ++ call_ids ns
  call_ids-append [] ns = refl
  call_ids-append (m ∷ ms) ns =
      rw (call_ids-append ms ns)
        (sym (append_assoc (ids_of (requested_calls m)) (call_ids ms) (call_ids ns)))

  call_ids-last :
      (ms : List Message) (m : Message)
      → call_ids (ms ++ m ∷ []) ≡ call_ids ms ++ ids_of (requested_calls m)
  call_ids-last ms m = rw (call_ids-append ms (m ∷ []), append-nil)

  answered-last :
      (ms : List Message) (m : Message)
      → answered_ids (ms ++ m ∷ []) ≡ answered_ids ms ++ answered_by (is_tool m.role) m.tool_call_id
  answered-last ms m = rw (answered-append ms (m ∷ []), append-nil)

  calls_by_role-tool : (m : Message) → is_tool m.role ≡ true → requested_calls m ≡ []
  unfolding calls_by_role
  calls_by_role-tool m h = ground arith

  -- A tool message that answers the first open call closes that call and requests none.
  advanced :
      (p : PendingToolCalls) (u : Option PendingToolCalls) (c : RuntimeToolCall)
      (cs : List RuntimeToolCall)
      → IsPending sha256 p
      → remaining_calls p ≡ c ∷ cs
      → advance p (pos 1) ≡ ok u
      → (remaining_or u ≡ cs) × AllPending sha256 u
  advanced p u c cs v left moved =
      let room : 1 ≤ pending_count p = omega (arith, length-remaining p, ap length left) in
      let (q, done, rest, valid) = advance-remaining sha256 p 1 v room in
      let same : q ≡ u = cc in
      (ap remaining_or (sym same) ∙ rest ∙ ap (drop 1) left, subst (AllPending sha256) same valid)

  answer-IsAccounted :
      (ms : List Message) (m : Message) (p : PendingToolCalls) (seen seen' : IdNode)
      (u : Option PendingToolCalls)
      → IsAccounted (some p) seen ms
      → answer_call sha256 m p seen ≡ ok (u, seen')
      → IsAccounted u seen' (ms ++ m ∷ [])
  answer-IsAccounted ms m p seen seen' u v h =
      let (is_answer, matches, moved, same) = answer_call_inv m p seen seen' u h in
      let (c, cs, left, id_eq) = answers_first_inv (remaining_calls p) m.tool_call_id matches in
      let (rest, valid) = advanced p u c cs v.cursor left moved in
      let calls : call_ids (ms ++ m ∷ []) ≡ call_ids ms =
        call_ids-last ms m ∙ rw (calls_by_role-tool m is_answer, append-nil) in
      let answers : answered_ids (ms ++ m ∷ []) ≡ answered_ids ms ++ call_id c ∷ [] =
        answered-last ms m ∙ rw (is_answer, id_eq) in
      record {
        cursor = valid;
        order =
            rw (calls, answers, rest, append_assoc)
              (ap (λ l. answered_ids ms ++ ids_of l) (sym left) ∙ v.order);
        recorded = rw calls (subst (λ n. Recorded n (call_ids ms)) same v.recorded);
      }

  request-IsAccounted :
      (ms : List Message) (m : Message) (calls : List RuntimeToolCall) (seen seen' : IdNode)
      (u : Option PendingToolCalls)
      → IsAccounted none seen ms
      → is_tool m.role ≡ false
      → requested_calls m ≡ calls
      → open_calls sha256 calls seen ≡ ok (u, seen')
      → IsAccounted u seen' (ms ++ m ∷ [])
  request-IsAccounted ms m [] seen seen' u v not_tool requested h =
      let (closed, same) = open_calls_nil_inv seen seen' u h in
      let calls : call_ids (ms ++ m ∷ []) ≡ call_ids ms =
        call_ids-last ms m ∙ rw (requested, append-nil) in
      let answers : answered_ids (ms ++ m ∷ []) ≡ answered_ids ms =
        answered-last ms m ∙ rw (not_tool, append-nil) in
      record {
        cursor = subst (AllPending sha256) (sym closed) tt;
        order = rw (calls, answers, closed) v.order;
        recorded = rw calls (subst (λ n. Recorded n (call_ids ms)) same v.recorded);
      }
  request-IsAccounted ms m (c ∷ cs) seen seen' u v not_tool requested h =
      let (opened, unique, recorded) = open_calls_inv c cs seen seen' u h in
      let calls : call_ids (ms ++ m ∷ []) ≡ call_ids ms ++ ids_of (c ∷ cs) =
        call_ids-last ms m ∙ ap (λ l. call_ids ms ++ ids_of l) requested in
      let answers : answered_ids (ms ++ m ∷ []) ≡ answered_ids ms ++ [] =
        answered-last ms m ∙ ap (λ b. answered_ids ms ++ answered_by b m.tool_call_id) not_tool in
      record {
        cursor = subst (AllPending sha256) (sym opened) (pending_of-IsPending sha256 c cs unique);
        order =
            rw (calls, answers, opened, v.order)
              (ap (λ l. call_ids ms ++ ids_of l) (remaining-pending_of sha256 (c ∷ cs)));
        recorded =
            rw calls
              (record_call_ids-Recorded (c ∷ cs) (call_ids ms) seen seen' v.recorded recorded);
      }

  advance_linkage-IsAccounted :
      (ms : List Message) (m : Message) (u u' : Option PendingToolCalls) (seen seen' : IdNode)
      → IsAccounted u seen ms
      → advance_linkage sha256 m u seen ≡ ok (u', seen')
      → IsAccounted u' seen' (ms ++ m ∷ [])
  advance_linkage-IsAccounted ms m (some p) u' seen seen' v h =
      answer-IsAccounted ms m p seen seen' u' v (unfold advance_linkage in h)
  advance_linkage-IsAccounted ms m none u' seen seen' v h =
      let (not_tool, opened) = advance_linkage-none_inv m u' seen seen' h in
      request-IsAccounted ms m (requested_calls m) seen seen' u' v not_tool refl opened

  extend_proof_inv :
      (proof q : HistoryProof) (m : Message) (ms : List Message)
      → extend_proof sha256 proof (m ∷ ms) ≡ ok q
      → (u : Option PendingToolCalls) × (seen : IdNode) × (advance_linkage sha256 m proof.unresolved
            proof.seen_call_ids
          ≡ ok (u, seen))
        × (extend_proof sha256
              (record {
                digest = append_history_digest sha256 proof.digest m;
                seen_call_ids = seen;
                unresolved = u;
              })
              ms
            ≡ ok q)
  unfolding extend_proof
  extend_proof_inv proof q m ms h =
      let (link, first, rest) =
        >>=-eq-ok (advance_linkage sha256 m proof.unresolved proof.seen_call_ids) _ h in
      (link.0, link.1, first, rest)

  extend_proof_nil : (proof q : HistoryProof) → extend_proof sha256 proof [] ≡ ok q → proof ≡ q
  unfolding extend_proof
  extend_proof_nil proof q h = cc

  pub extend_proof-IsAccounted :
      (ms before : List Message) (proof q : HistoryProof)
      → IsAccounted proof.unresolved proof.seen_call_ids before
      → extend_proof sha256 proof ms ≡ ok q
      → IsAccounted q.unresolved q.seen_call_ids (before ++ ms)
  extend_proof-IsAccounted [] before proof q v h = rw append-nil (
      subst (λ (p : HistoryProof). IsAccounted p.unresolved p.seen_call_ids before)
        (extend_proof_nil proof q h) v)
  extend_proof-IsAccounted (m ∷ ms) before proof q v h =
      let (u, seen, first, rest) = extend_proof_inv proof q m ms h in
      let v' =
        advance_linkage-IsAccounted before m proof.unresolved u proof.seen_call_ids seen v first in
      subst (IsAccounted q.unresolved q.seen_call_ids) (append_assoc before (m ∷ []) ms)
        (extend_proof-IsAccounted ms (before ++ m ∷ []) _ q v' rest)

  pub IsAccounted-empty : IsAccounted none empty_root []
  IsAccounted-empty = record {
    cursor = tt;
    order = refl;
    recorded = (Holds-empty, unfold unique_texts in refl);
  }
