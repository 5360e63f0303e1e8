-- ===== src/History/Lookup.antt =====
-- Random access in history.py agrees with the order of the messages.
use jharness.Common.{
  ℕ, ◌+◌, ◌-◌, ◌/◌, zero, suc, ◌≡◌, refl, sym, [], ◌∷◌, ◌++◌, arith, Bool-cases, if◌then◌else◌,
  ◌==◌, false, leb, ltb, leb→le, ltb→lt, inl, inr, length, get_elem?, get_elem?-append,
  get_elem?-append_left,
}
use jharness.History.{
  HistoryTree, leaf, node, Digits, lookup_tree, lookup_reverse, iter_tree, iter_reversed,
}
use jharness.History.Order.{IsPerfect, IsGrowing, IsSkew, length-iter_tree}

-- Every digit carries a perfect tree of its weight.
abbrev pub AllPerfect {ℓ} : {A : Type ℓ} → Digits A → Type 0
AllPerfect [] = Unit
AllPerfect (d ∷ rest) = IsPerfect d.tree d.weight × AllPerfect rest

module _ {ℓ} {A : Type ℓ} where
  IsGrowing-AllPerfect : (least : ℕ) (ds : Digits A) → IsGrowing least ds → AllPerfect ds
  IsGrowing-AllPerfect least [] g = tt
  IsGrowing-AllPerfect least (d ∷ rest) g = (g.0, IsGrowing-AllPerfect d.weight rest g.2)

  pub IsSkew-AllPerfect : (ds : Digits A) → IsSkew ds → AllPerfect ds
  IsSkew-AllPerfect [] h = tt
  IsSkew-AllPerfect (d ∷ []) h = (h.0, tt)
  IsSkew-AllPerfect (d ∷ second ∷ rest) h =
      (h.0, (h.1, IsGrowing-AllPerfect second.weight rest h.3))

  -- What the left or the right subtree answers is what stands at the index behind the root.
  children-eq-get_elem? :
      (l r : HistoryTree A) (c i : ℕ)
      → length (iter_tree l) ≡ c
      → (if leb (suc i) c then get_elem? (iter_tree l) i else get_elem? (iter_tree r) (i - c))
        ≡ get_elem? (iter_tree l ++ iter_tree r) i
  children-eq-get_elem? l r c i size = elim (Bool-cases (leb (suc i) c)) [
    | inl inside ↦ rw inside (
        sym
          (get_elem?-append_left (iter_tree l) (iter_tree r) i (omega (arith, leb→le _ _ inside))))
    | inr beyond ↦
        rw (beyond, ← size) (sym (get_elem?-append (iter_tree l) (iter_tree r) i (ground arith)))
  ]

  pub lookup_tree-eq-get_elem? :
      (t : HistoryTree A) (w i : ℕ) → IsPerfect t w → lookup_tree t w i ≡ get_elem? (iter_tree t) i
  unfolding lookup_tree iter_tree
  lookup_tree-eq-get_elem? (leaf m) w zero h = refl
  lookup_tree-eq-get_elem? (leaf m) w (suc i) h = ground arith
  lookup_tree-eq-get_elem? (node m l r) w zero h = refl
  lookup_tree-eq-get_elem? (node m l r) w (suc i) h =
      let c = (w - 1) / 2 in
      let pred_eq : suc i - 1 ≡ i = omega arith in
      let past_eq : suc i - (c + 1) ≡ i - c = omega arith in
      let nonzero : (suc i == 0) ≡ false = ground arith in
      rw
        (
          nonzero,
          pred_eq,
          past_eq,
          lookup_tree-eq-get_elem? l c i h.1,
          lookup_tree-eq-get_elem? r c (i - c) h.2,
        )
        (children-eq-get_elem? l r c i (length-iter_tree l c h.1))

  pub lookup_reverse-eq-get_elem? :
      (ds : Digits A) (i : ℕ) → AllPerfect ds → lookup_reverse ds i ≡ get_elem? (iter_reversed ds) i
  unfolding lookup_reverse iter_reversed
  lookup_reverse-eq-get_elem? [] i h = refl
  lookup_reverse-eq-get_elem? (d ∷ rest) i h = elim (Bool-cases (ltb i d.weight)) [
    | inl inside ↦ rw (
      inside,
      lookup_tree-eq-get_elem? d.tree d.weight i h.0,
      get_elem?-append_left (iter_tree d.tree) (iter_reversed rest) i
          (omega (arith, ltb→lt _ _ inside, length-iter_tree d.tree d.weight h.0)),
    )
    | inr beyond ↦ rw (
      beyond,
      lookup_reverse-eq-get_elem? rest (i - d.weight) h.1,
      get_elem?-append (iter_tree d.tree) (iter_reversed rest) i
          (ground (arith, length-iter_tree d.tree d.weight h.0)),
      length-iter_tree d.tree d.weight h.0,
    )
  ]
