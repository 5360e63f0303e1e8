-- ===== src/History/Run/Contents.antt =====
-- A run history refines the list of its messages, oldest first.
use jharness.Common.{
  ℕ, zero, suc, ◌+◌, ◌-◌, ◌*◌, ◌^◌, ◌≤◌, ◌<◌, ◌≡◌, ◌≢◌, refl, ◌∙◌, sym, ap, false, Option, none,
  some, List, [], ◌∷◌, ◌++◌, reverse, ltb, ◌==◌, length, take, drop, ℤ, pos, negsuc, arith,
  reverse-append, append_assoc, append-nil, get_elem?, length-append, length-reverse,
  reverse-reverse, Bool-cases, ltb→lt, get_elem?-reverse, get_elem?-eq_none, inl, inr,
}
use jharness.Errors.{Result, ok, err, index_error}
use jharness.History.{Digits, cons, iter_reversed}
use jharness.History.Order.{IsSkew, cons-IsSkew, iter_reversed-cons, digits_logarithmic}
use jharness.History.Lookup.{IsSkew-AllPerfect, lookup_reverse-eq-get_elem?}
use jharness.History.Window.{iter_digits-eq-slice}
use jharness.History.Run.{
  RunHistory, cons_all, clamp_index, get_normalized, get_item, get_slice, iter, run_history, build,
  append, digest_all, or_assertion,
}

-- The messages that a history stands for, oldest first.
abbrev pub contents {ℓ} : {A : Type ℓ} → RunHistory A → List A
contents h = reverse (iter_reversed h.digits)

-- The representation invariant; the digest is a separate statement.
pub record IsHistory {ℓ} {A : Type ℓ} (h : RunHistory A) : Type ℓ where
  pub skew : IsSkew h.digits
  pub counted : length (iter_reversed h.digits) ≡ h.count
  pub starts : get_elem? (contents h) 0 ≡ some h.first

clamp_index-le : (count : ℕ) (i : ℤ) → clamp_index count i ≤ count
unfolding clamp_index
clamp_index-le count (pos i) = omega arith
clamp_index-le count (negsuc n) = omega arith

module _ {ℓ} {A : Type ℓ} where
  cons_all-IsSkew : (ds : Digits A) (ms : List A) → IsSkew ds → IsSkew (cons_all ds ms)
  unfolding cons_all
  cons_all-IsSkew ds [] h = h
  cons_all-IsSkew ds (m ∷ ms) h = cons_all-IsSkew (cons ds m) ms (cons-IsSkew ds m h)

  cons_all-order :
      (ds : Digits A) (ms : List A)
      → iter_reversed (cons_all ds ms) ≡ reverse ms ++ iter_reversed ds
  unfolding cons_all
  cons_all-order ds [] = refl
  cons_all-order ds (m ∷ ms) = rw (
    cons_all-order (cons ds m) ms,
    iter_reversed-cons ds m,
    reverse-append (m ∷ []) ms,
    append_assoc,
  )

  -- Appending to the digits appends to the messages.
  contents-cons_all :
      (ds : Digits A) (ms : List A)
      → reverse (iter_reversed (cons_all ds ms)) ≡ reverse (iter_reversed ds) ++ ms
  contents-cons_all ds ms =
      rw (cons_all-order ds ms, reverse-append (reverse ms) (iter_reversed ds), reverse-reverse)

  length-cons_all :
      (ds : Digits A) (ms : List A)
      → length (iter_reversed (cons_all ds ms)) ≡ length (iter_reversed ds) + length ms
  length-cons_all ds ms =
      rw (cons_all-order ds ms)
        (omega (arith, length-append (reverse ms) (iter_reversed ds), length-reverse ms))

  get_elem?_first-append :
      (xs ys : List A) (x : A) → get_elem? xs 0 ≡ some x → get_elem? (xs ++ ys) 0 ≡ some x
  get_elem?_first-append [] ys x h = cc
  get_elem?_first-append (y ∷ xs) ys x h = h

  pub append-IsHistory :
      (h : RunHistory A) (ms : List A) (digest : List ℕ)
      → IsHistory h
      → IsHistory (append h ms digest)
  unfolding append
  append-IsHistory h [] digest v = v
  append-IsHistory h (m ∷ ms) digest v = record {
    skew = cons_all-IsSkew h.digits (m ∷ ms) v.skew;
    counted = length-cons_all h.digits (m ∷ ms) ∙ omega (arith, v.counted);
    starts =
        rw (contents-cons_all h.digits (m ∷ ms))
          (get_elem?_first-append (contents h) (m ∷ ms) h.first v.starts);
  }

  pub contents-append :
      (h : RunHistory A) (ms : List A) (digest : List ℕ)
      → contents (append h ms digest) ≡ contents h ++ ms
  unfolding append
  contents-append h [] digest = sym (append-nil (contents h))
  contents-append h (m ∷ ms) digest = contents-cons_all h.digits (m ∷ ms)

  -- Appending to a well-formed history gives a well-formed history, which stands for the messages
  -- before followed by the appended ones.
  pub append_lem :
      (h : RunHistory A) (ms : List A) (digest : List ℕ)
      → IsHistory h
      → IsHistory (append h ms digest) × (contents (append h ms digest) ≡ contents h ++ ms)
  append_lem h ms digest v = (append-IsHistory h ms digest v, contents-append h ms digest)

  contents-cons_all_nil : (ms : List A) → reverse (iter_reversed (cons_all [] ms)) ≡ ms
  contents-cons_all_nil ms = unfold iter_reversed in contents-cons_all [] ms

  module _ (empty : List ℕ) (step : List ℕ → A → List ℕ) where
    pub build-IsHistory : (m : A) (ms : List A) → IsHistory (build empty step m ms)
    unfolding build
    build-IsHistory m ms = record {
      skew = cons_all-IsSkew [] (m ∷ ms) tt;
      counted = length-cons_all [] (m ∷ ms) ∙ (unfold iter_reversed in omega arith);
      starts = rw (contents-cons_all_nil (m ∷ ms));
    }

    pub contents-build : (m : A) (ms : List A) → contents (build empty step m ms) ≡ m ∷ ms
    unfolding build
    contents-build m ms = contents-cons_all_nil (m ∷ ms)

    -- `RunHistory(messages)` succeeds for any messages but none: the history is well formed, stands for
    -- those messages in order, and its digest is theirs, chained from the empty digest.
    pub run_history-contents :
        (ms : List A)
        → ms ≢ []
        → (h : RunHistory A) × (run_history empty step ms ≡ ok h)
          × IsHistory h
          × (contents h ≡ ms)
          × (h.digest ≡ digest_all empty step empty ms)
    unfolding run_history
    run_history-contents [] h = absurd (h refl)
    run_history-contents (m ∷ ms) h = (
      build empty step m ms,
      refl,
      build-IsHistory m ms,
      contents-build m ms,
      unfold build in refl,
    )

  -- Python's indexing of a sequence: a negative index counts from the end.
  abbrev or_index_error : Option A → Result A
  or_index_error none = err (index_error "history index out of range")
  or_index_error (some x) = ok x

  abbrev pub item : List A → ℤ → Result A
  item xs (pos i) = or_index_error (get_elem? xs i)
  item xs (negsuc n) = or_index_error (get_elem? (reverse xs) n)

  or_assertion-in_range :
      (xs : List A) (i : ℕ)
      → i < length xs
      → or_assertion (get_elem? xs i) ≡ or_index_error (get_elem? xs i)
  unfolding or_assertion
  or_assertion-in_range [] i h = absurd (omega arith)
  or_assertion-in_range (x ∷ xs) zero h = refl
  or_assertion-in_range (x ∷ xs) (suc i) h = or_assertion-in_range xs i (omega arith)

  get_normalized-eq-get_elem? :
      (h : RunHistory A) (i : ℕ)
      → IsHistory h
      → i < h.count
      → get_normalized h (some i) ≡ or_index_error (get_elem? (contents h) i)
  unfolding get_normalized
  get_normalized-eq-get_elem? h zero v lt = rw (v.starts)
  get_normalized-eq-get_elem? h (suc i) v lt =
      let nonzero : (suc i == 0) ≡ false = ground arith in
      let inside : suc i < length (iter_reversed h.digits) = omega (arith, v.counted) in
      rw
        (
          nonzero,
          lookup_reverse-eq-get_elem? h.digits (h.count - suc i - 1)
              (IsSkew-AllPerfect h.digits v.skew),
          get_elem?-reverse (iter_reversed h.digits) (suc i) inside,
          v.counted,
        )
        (or_assertion-in_range (iter_reversed h.digits) (h.count - suc i - 1)
          (omega (arith, v.counted)))

  -- Indexing a well-formed history, from either end, in range or not, gives what indexing the list of
  -- its messages gives: the message or the same `IndexError`.
  pub get_item-eq-item :
      (h : RunHistory A) (i : ℤ) → IsHistory h → get_item h i ≡ item (contents h) i
  unfolding get_item
  get_item-eq-item h (pos i) v = elim (Bool-cases (ltb i h.count)) [
    | inl inside ↦ rw inside (get_normalized-eq-get_elem? h i v (ltb→lt _ _ inside))
    | inr outside ↦ rw (
      outside,
      get_elem?-eq_none (contents h) i
          (ground (arith, length-reverse (iter_reversed h.digits), v.counted)),
    )
  ]
  get_item-eq-item h (negsuc n) v = elim (Bool-cases (ltb n h.count)) [
    | inl inside ↦
        let lt = ltb→lt _ _ inside in
        let e : h.count - (h.count - (n + 1)) - 1 ≡ n = omega arith in
        let bound : h.count - (n + 1) < length (iter_reversed h.digits) =
          omega (arith, v.counted) in
        rw inside (
          get_normalized-eq-get_elem? h (h.count - (n + 1)) v (omega arith)
          ∙ rw (
            reverse-reverse,
            get_elem?-reverse (iter_reversed h.digits) (h.count - (n + 1)) bound,
            v.counted,
            e,
          ))
    | inr outside ↦ rw (
      outside,
      reverse-reverse,
      get_elem?-eq_none (iter_reversed h.digits) n (ground (arith, v.counted)),
    )
  ]

  -- A slice of a well-formed history is the run of its messages between the two clamped bounds.
  pub get_slice-contents :
      (h : RunHistory A) (start stop : ℤ)
      → IsHistory h
      → get_slice h start stop
        ≡ take
            (clamp_index h.count stop - clamp_index h.count start)
            (drop (clamp_index h.count start) (contents h))
  get_slice-contents h start stop v =
      unfold get_slice in
      iter_digits-eq-slice h.digits h.count (clamp_index h.count start) (clamp_index h.count stop)
        (IsSkew-AllPerfect h.digits v.skew) v.counted (clamp_index-le h.count stop)

  take_all : (xs : List A) (n : ℕ) → length xs ≡ n → take (n - 0) xs ≡ xs
  take_all [] zero e = refl
  take_all [] (suc n) e = absurd (omega arith)
  take_all (x ∷ xs) zero e = absurd (omega arith)
  take_all (x ∷ xs) (suc n) e =
      let e' : suc n - 0 ≡ suc (n - 0) = omega arith in
      rw e' (ap (λ t. x ∷ t) (take_all xs n (omega arith)))

  -- Iteration yields the messages in order.
  pub iter-contents : (h : RunHistory A) → IsHistory h → iter h ≡ contents h
  iter-contents h v =
      let sliced : iter h ≡ take (h.count - 0) (contents h) =
        unfold iter in
        iter_digits-eq-slice h.digits h.count 0 h.count (IsSkew-AllPerfect h.digits v.skew)
          v.counted (omega arith) in
      sliced
      ∙ take_all (contents h) h.count
          (omega (arith, length-reverse (iter_reversed h.digits), v.counted))

  -- A well-formed history of `count` messages has d digits with 2 ^ d at most 2 * (count + 1).
  pub digits-bound : (h : RunHistory A) → IsHistory h → 2 ^ length h.digits ≤ 2 * (h.count + 1)
  digits-bound h v = omega (arith, digits_logarithmic h.digits v.skew, v.counted)
