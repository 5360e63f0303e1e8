-- ===== src/Linkage/Ids.antt =====
-- The tool call ids of a history (_history.py): distinct, and exactly those of the id set.
use jharness.Common.{
  ◌≡◌, refl, sym, subst, ap, ◌∙◌, Bool, true, false, ◌||◌, String, Option, none, some, List, [],
  ◌∷◌, ◌++◌, decide, String-discrete, arith, append_assoc, append-nil, Bool-cases, inl, inr,
}
use jharness.Errors.{ok}
use jharness.Utf8.{encode, encode-injective}
use jharness.IdSet.{IdNode, contains, add, empty_root}
use jharness.IdSet.Laws.{same_key, same_key_iff, contains-add, contains-empty_root}
use jharness.Messages.{Message, RuntimeToolCall, call_id}
use jharness.State.Pending.{ids_of, has_text, unique_texts}
use jharness.Linkage.{record_call_ids, requested_calls, is_tool}

-- The ids of the calls that a history requests, and those that its tool messages answer.
abbrev pub call_ids : List Message → List String
call_ids [] = []
call_ids (m ∷ ms) = ids_of (requested_calls m) ++ call_ids ms

abbrev pub option_list : Option String → List String
option_list none = []
option_list (some s) = s ∷ []

abbrev pub answered_by : Bool → Option String → List String
answered_by true id = option_list id
answered_by false id = []

abbrev pub answered_ids : List Message → List String
answered_ids [] = []
answered_ids (m ∷ ms) = answered_by (is_tool m.role) m.tool_call_id ++ answered_ids ms

same_key-encode : (s t : String) → same_key (encode s) (encode t) ≡ decide (String-discrete t s)
same_key-encode s t = split (String-discrete t s)
  where
    split : (d : Dec (t ≡ s)) → same_key (encode s) (encode t) ≡ decide d
    split (yes e) = (same_key_iff (encode s) (encode t)).1 (ap encode (sym e))
    split (no n) = elim (Bool-cases (same_key (encode s) (encode t))) [
      | inl h ↦ absurd (n (sym (encode-injective s t ((same_key_iff (encode s) (encode t)).0 h))))
      | inr h ↦ h
    ]

-- The set holds exactly these ids.
abbrev pub Holds : IdNode → List String → Type 0
Holds seen ids = (s : String) → contains seen (encode s) ≡ has_text s ids

pub Holds-empty : Holds empty_root []
unfolding has_text
Holds-empty s = contains-empty_root (encode s)

has_text-append :
    (s : String) (xs ys : List String) → has_text s (xs ++ ys) ≡ (has_text s xs || has_text s ys)
unfolding has_text
has_text-append s [] ys = refl
has_text-append s (x ∷ xs) ys = rw (has_text-append s xs ys) (ground arith)

decide_sym : (s t : String) → decide (String-discrete s t) ≡ decide (String-discrete t s)
decide_sym s t = split (String-discrete s t) (String-discrete t s)
  where
    split : (d : Dec (s ≡ t)) (e : Dec (t ≡ s)) → decide d ≡ decide e
    split (yes p) (yes q) = refl
    split (yes p) (no q) = absurd (q (sym p))
    split (no p) (yes q) = absurd (p (sym q))
    split (no p) (no q) = refl

has_text_last :
    (s x : String) (xs : List String)
    → has_text s (xs ++ x ∷ []) ≡ (has_text s xs || decide (String-discrete s x))
has_text_last s x xs = has_text-append s xs (x ∷ []) ∙ (unfold has_text in ground arith)

-- One more id at the end keeps the ids distinct if it is new.
unique_texts_last :
    (xs : List String) (x : String)
    → unique_texts xs ≡ true
    → has_text x xs ≡ false
    → unique_texts (xs ++ x ∷ []) ≡ true
unfolding unique_texts
unique_texts_last [] x u h = unfold has_text in refl
unique_texts_last (y ∷ ys) x u h =
    let parts : (has_text y ys ≡ false) × (unique_texts ys ≡ true) = ground arith in
    let rest : (decide (String-discrete x y) ≡ false) × (has_text x ys ≡ false) =
      unfold has_text in ground arith in
    rw
      (has_text_last y x ys, parts.0, decide_sym y x, rest.0, unique_texts_last ys x parts.1 rest.1)

Holds-add :
    (ids : List String) (seen : IdNode) (id : String)
    → Holds seen ids
    → Holds (add seen (encode id)) (ids ++ id ∷ [])
Holds-add ids seen id h s =
    contains-add seen (encode id) (encode s)
    ∙ rw (same_key-encode id s, h s, has_text_last s id ids) (ground arith)

abbrev pub Recorded : IdNode → List String → Type 0
Recorded seen ids = Holds seen ids × (unique_texts ids ≡ true)

record_call_ids_new :
    (call : RuntimeToolCall) (calls : List RuntimeToolCall) (seen : IdNode)
    → contains seen (encode (call_id call)) ≡ false
    → record_call_ids (call ∷ calls) seen ≡ record_call_ids calls (add seen (encode (call_id call)))
unfolding record_call_ids
record_call_ids_new call calls seen h = rw h

record_call_ids_used :
    (call : RuntimeToolCall) (calls : List RuntimeToolCall) (seen seen' : IdNode)
    → contains seen (encode (call_id call)) ≡ true
    → record_call_ids (call ∷ calls) seen ≡ ok seen'
    → ⊥
unfolding record_call_ids
record_call_ids_used call calls seen seen' h e = ground arith

record_call_ids_nil : (seen seen' : IdNode) → record_call_ids [] seen ≡ ok seen' → seen ≡ seen'
unfolding record_call_ids
record_call_ids_nil seen seen' e = cc

-- Recording calls succeeds only if their ids are new and distinct, and then adds exactly them.
pub record_call_ids-Recorded :
    (calls : List RuntimeToolCall) (ids : List String) (seen seen' : IdNode)
    → Recorded seen ids
    → record_call_ids calls seen ≡ ok seen'
    → Recorded seen' (ids ++ ids_of calls)
record_call_ids-Recorded [] ids seen seen' h e =
    rw (append-nil) (subst (λ n. Recorded n ids) (record_call_ids_nil seen seen' e) h)
record_call_ids-Recorded (call ∷ calls) ids seen seen' h e =
    elim (Bool-cases (contains seen (encode (call_id call)))) [
      | inl used ↦ absurd (record_call_ids_used call calls seen seen' used e)
      | inr new ↦
          let id = call_id call in
          let fresh : has_text id ids ≡ false = sym (h.0 id) ∙ new in
          let one : Recorded (add seen (encode id)) (ids ++ id ∷ []) =
            (Holds-add ids seen id h.0, unique_texts_last ids id h.1 fresh) in
          let all =
            record_call_ids-Recorded calls (ids ++ id ∷ []) (add seen (encode id)) seen' one
              (sym (record_call_ids_new call calls seen new) ∙ e) in
          subst (Recorded seen') (append_assoc ids (id ∷ []) (ids_of calls)) all
    ]
