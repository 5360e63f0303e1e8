-- ===== src/History/Run/Bounds.antt =====
-- The size of a history of history.py, as it is built and appended to.
use jharness.Common.{ℕ, ◌+◌, ◌*◌, ◌^◌, ◌≤◌, ◌≡◌, refl, List, [], ◌∷◌, length, arith, subst}
use jharness.Errors.{ok}
use jharness.History.Run.{RunHistory, append, run_history, build}
use jharness.History.Run.Contents.{append_lem, build-IsHistory, digits-bound}

module _ {ℓ} {A : Type ℓ} where
  count-append :
      (h : RunHistory A) (ms : List A) (digest : List ℕ)
      → (append h ms digest).count ≡ h.count + length ms
  unfolding append
  count-append h [] digest = omega arith
  count-append h (m ∷ ms) digest = refl

  module _ (empty : List ℕ) (step : List ℕ → A → List ℕ) where
    -- A history that is made of messages, with more messages appended, has d digits with 2 ^ d at
    -- most 2 * (n + 1), where n is the number of all messages.
    pub digits-append :
        (ms more : List A) (digest : List ℕ) (h : RunHistory A)
        → run_history empty step ms ≡ ok h
        → 2 ^ length (append h more digest).digits ≤ 2 * (length ms + length more + 1)
    unfolding run_history
    digits-append [] more digest h made = cc
    digits-append (m ∷ ms) more digest h made =
        let same : build empty step m ms ≡ h = cc in
        let (valid, all) =
          append_lem (build empty step m ms) more digest (build-IsHistory empty step m ms) in
        let bound = digits-bound (append (build empty step m ms) more digest) valid in
        let count = count-append (build empty step m ms) more digest in
        let size : (build empty step m ms).count ≡ length (m ∷ ms) = unfold build in refl in
        subst
          (λ (x : RunHistory A).
            2 ^ length (append x more digest).digits ≤ 2 * (length (m ∷ ms) + length more + 1))
          same (omega (arith, bound, count, size))
