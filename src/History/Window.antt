-- ===== src/History/Window.antt =====
-- The windows of history.py are the slices of the messages in chronological order.
use jharness.Common.{
  ℕ, ◌+◌, ◌-◌, ◌/◌, ◌≤◌, suc, ◌≡◌, refl, ◌∙◌, sym, ap, List, [], ◌∷◌, ◌++◌, arith, Bool-cases, ◌==◌,
  ==_iff, leb, ltb, leb→le, inl, inr, length, length-append, false, ◌||◌, min, max, reverse,
  reverse-append, reverse-reverse, append_assoc, append-nil, take, drop, take-append-drop,
  length-take, length-drop, length-reverse, drop-drop,
}
use jharness.History.{
  HistoryTree, leaf, node, HistoryDigit, Digits, iter_tree, iter_reversed, visit, Selected, select,
  iter_selected, iter_digits,
}
use jharness.History.Order.{IsPerfect, IsPerfect-pos, length-iter_tree}
use jharness.History.Lookup.{AllPerfect}
use jharness.History.Pick.{
  pick, pick-append, pick_none, pick_all, pick_shift, reverse-append_three, own, pick-children,
}

module _ {ℓ} {A : Type ℓ} where
  visit-eq-pick :
      (start stop : ℕ) (t : HistoryTree A) (w offset : ℕ)
      → IsPerfect t w
      → visit start stop t w offset ≡ reverse (pick start stop offset (iter_tree t))
  unfolding visit iter_tree
  visit-eq-pick start stop (leaf m) w offset h = unfold pick in ground arith
  visit-eq-pick start stop (node m l r) w offset h =
      let c = (w - 1) / 2 in
      let size_l = length-iter_tree l c h.1 in
      let size_r = length-iter_tree r c h.2 in
      elim (Bool-cases (leb stop offset || leb (offset + w) start)) [
        | inl outside ↦
            let size : suc (length (iter_tree l ++ iter_tree r)) ≡ w =
              omega (arith, length-append (iter_tree l) (iter_tree r), h.0) in
            rw (
              outside,
              pick_none start stop offset (m ∷ (iter_tree l ++ iter_tree r)) (ground arith),
            )
        | inr meets ↦
            rw
              (
                meets,
                visit-eq-pick start stop l c (offset + 1) h.1,
                visit-eq-pick start stop r c (offset + c + 1) h.2,
              )
              (sym (unfold own in pick-children start stop offset m l r c size_l))
      ]

  iter_selected-append :
      (xs ys : List (Selected A)) → iter_selected (xs ++ ys) ≡ iter_selected xs ++ iter_selected ys
  unfolding iter_selected
  iter_selected-append [] ys = refl
  iter_selected-append (x ∷ xs) ys = rw (iter_selected-append xs ys, append_assoc)

  iter_digit-eq-pick :
      (start stop offset : ℕ) (d : HistoryDigit A)
      → IsPerfect d.tree d.weight
      → visit (max start offset - offset) (min stop (offset + d.weight) - offset) d.tree d.weight 0
        ≡ reverse (pick start stop offset (iter_tree d.tree))
  iter_digit-eq-pick start stop offset d h =
      let e : offset + 0 ≡ offset = omega arith in
      rw (
        visit-eq-pick (max start offset - offset) (min stop (offset + d.weight) - offset) d.tree
            d.weight 0 h,
        pick_shift start stop offset (offset + d.weight) 0 (iter_tree d.tree)
            (omega (arith, length-iter_tree d.tree d.weight h)),
        e,
      )

  -- An entry that is not selected is empty.
  pick-digit_none :
      (start stop offset : ℕ) (d : HistoryDigit A)
      → IsPerfect d.tree d.weight
      → ltb (max start offset - offset) (min stop (offset + d.weight) - offset) ≡ false
      → pick start stop offset (iter_tree d.tree) ≡ []
  pick-digit_none start stop offset d h e =
      pick_none start stop offset (iter_tree d.tree)
        (ground (arith, length-iter_tree d.tree d.weight h, IsPerfect-pos d.tree d.weight h))

  iter_selected-select :
      (start stop offset : ℕ) (ds : Digits A)
      → AllPerfect ds
      → iter_selected (reverse (select start stop offset ds))
        ≡ reverse (pick start stop offset (iter_reversed ds))
  unfolding select iter_reversed
  iter_selected-select start stop offset [] h = unfold iter_selected pick in refl
  iter_selected-select start stop offset (d ∷ rest) h =
      let size = length-iter_tree d.tree d.weight h.0 in
      let ih = iter_selected-select start stop (offset + d.weight) rest h.1 in
      let split = pick-append start stop offset (iter_tree d.tree) (iter_reversed rest) in
      elim (Bool-cases (ltb offset stop)) [
        | inr past ↦
            unfold iter_selected in
            rw (
              past,
              pick_none start stop offset (iter_tree d.tree ++ iter_reversed rest) (ground arith),
            )
        | inl before ↦
            elim (Bool-cases
              (ltb (max start offset - offset) (min stop (offset + d.weight) - offset))) [
                | inl meets ↦
                    rw
                      (
                        before,
                        meets,
                        reverse-append (_ ∷ []) (select start stop (offset + d.weight) rest),
                        iter_selected-append,
                        ih,
                        split,
                        size,
                        reverse-append,
                      )
                      (unfold iter_selected in
                        rw (append-nil, iter_digit-eq-pick start stop offset d h.0))
                | inr empty ↦
                    rw (
                      before,
                      empty,
                      ih,
                      split,
                      pick-digit_none start stop offset d h.0 empty,
                      size,
                    )
              ]
      ]

  -- Positions counted from the newest message, against a slice of the oldest first.
  pick-slice :
      (before inside after : List A) (n start stop : ℕ)
      → length before ≡ start
      → start + length inside ≡ stop
      → stop + length after ≡ n
      → reverse (pick (n - stop) (n - start) 0 (reverse (before ++ (inside ++ after)))) ≡ inside
  pick-slice before inside after n start stop p q r =
      let e : 0 + length (reverse after) ≡ n - stop = omega (arith, length-reverse after) in
      let e' : n - stop + length (reverse inside) ≡ n - start =
        omega (arith, length-reverse inside) in
      rw (
        reverse-append_three before inside after,
        pick-append (n - stop) (n - start) 0 (reverse after) (reverse inside ++ reverse before),
        e,
        pick_none (n - stop) (n - start) 0 (reverse after) (omega arith),
        pick-append (n - stop) (n - start) (n - stop) (reverse inside) (reverse before),
        e',
        pick_all (n - stop) (n - start) (n - stop) (reverse inside) (omega arith) (omega arith),
        pick_none (n - stop) (n - start) (n - start) (reverse before) (omega arith),
        append-nil,
        reverse-reverse,
      )

  slice-split :
      (xs : List A) (start stop : ℕ)
      → start ≤ stop
      → take start xs ++ (take (stop - start) (drop start xs) ++ drop stop xs) ≡ xs
  slice-split xs start stop h =
      let e : stop ≡ start + (stop - start) = omega arith in
      ap (λ k. take start xs ++ (take (stop - start) (drop start xs) ++ drop k xs)) e
      ∙ rw (
        ← drop-drop (stop - start) start xs,
        take-append-drop (stop - start) (drop start xs),
        take-append-drop start xs,
      )

  iter_digits-ordered :
      (ds : Digits A) (count start stop : ℕ)
      → AllPerfect ds
      → length (iter_reversed ds) ≡ count
      → start ≤ stop
      → stop ≤ count
      → iter_digits ds count start stop
        ≡ take (stop - start) (drop start (reverse (iter_reversed ds)))
  unfolding iter_digits
  iter_digits-ordered ds count start stop h size le bound =
      let xs = reverse (iter_reversed ds) in
      let before = take start xs in
      let inside = take (stop - start) (drop start xs) in
      let after = drop stop xs in
      let back : reverse (before ++ (inside ++ after)) ≡ iter_reversed ds =
        rw (slice-split xs start stop le, reverse-reverse) in
      elim (Bool-cases (start == stop)) [
        | inl same ↦
            let equal = (==_iff start stop).0 same in
            let none_left : stop - start ≡ 0 = omega arith in rw (same, none_left)
        | inr more ↦
            rw (more, iter_selected-select (count - stop) (count - start) 0 ds h)
              (rw back at (
                pick-slice before inside after count start stop
                  (omega (arith, length-take start xs, length-reverse (iter_reversed ds)))
                  (omega (
                    arith,
                    length-take (stop - start) (drop start xs),
                    length-drop start xs,
                    length-reverse (iter_reversed ds),
                  ))
                  (omega (arith, length-drop stop xs, length-reverse (iter_reversed ds)))))
      ]

  iter_digits-crossed :
      (ds : Digits A) (count start stop : ℕ)
      → AllPerfect ds
      → stop ≤ start
      → iter_digits ds count start stop ≡ []
  unfolding iter_digits
  iter_digits-crossed ds count start stop h le = elim (Bool-cases (start == stop)) [
    | inl same ↦ rw same
    | inr more ↦ rw (
      more,
      iter_selected-select (count - stop) (count - start) 0 ds h,
      pick_none (count - stop) (count - start) 0 (iter_reversed ds) (omega arith),
    )
  ]

  pub iter_digits-eq-slice :
      (ds : Digits A) (count start stop : ℕ)
      → AllPerfect ds
      → length (iter_reversed ds) ≡ count
      → stop ≤ count
      → iter_digits ds count start stop
        ≡ take (stop - start) (drop start (reverse (iter_reversed ds)))
  iter_digits-eq-slice ds count start stop h size bound = elim (Bool-cases (leb start stop)) [
    | inl le ↦ iter_digits-ordered ds count start stop h size (leb→le _ _ le) bound
    | inr gt ↦
        let e : stop - start ≡ 0 = ground arith in
        rw (iter_digits-crossed ds count start stop h (ground arith), e)
  ]
