-- ===== src/Repository/Manifest/Rows.antt =====
-- The rows of chunks that sqlite.py inserts and selects.
use jharness.Common.{
  ℕ, zero, suc, ◌+◌, ◌≤◌, ◌<◌, ◌≡◌, refl, ap, ◌∙◌, false, not, Option, none, List, [], ◌∷◌, ◌++◌,
  length, ◌==◌, arith, ==_iff, some,
}
use jharness.Errors.{ok, raise_if, >>-eq-ok, raise_if-eq-ok}
use jharness.Repository.Ephemeral.Laws.{not-false}
use jharness.Messages.{Message}
use jharness.Repository.Manifest.{
  joined, Rows, add_row, insert_chunks, and_row, select_rows, select_history,
}

added_here :
    (rows : Rows) (g i : ℕ) (chunk : List Message) → add_row rows g i chunk g i ≡ some chunk
added_here rows g i chunk = rw ((==_iff g g).1 refl, (==_iff i i).1 refl)

added_at :
    (rows : Rows) (g i j : ℕ) (chunk : List Message)
    → (j == i) ≡ false
    → add_row rows g i chunk g j ≡ rows g j
added_at rows g i j chunk other = rw ((==_iff g g).1 refl, other)

added_elsewhere :
    (rows : Rows) (g i h j : ℕ) (chunk : List Message)
    → (h == g) ≡ false
    → add_row rows g i chunk h j ≡ rows h j
added_elsewhere rows g i h j chunk other = rw other

-- What `rows'` has when chunks have been put in at places of a generation that were free.
pub record IsInserted (rows rows' : Rows) (g first : ℕ) (chunks : List (List Message))
    : Type 0 where
  pub elsewhere : (h j : ℕ) → (h == g) ≡ false → rows' h j ≡ rows h j
  pub before : (j : ℕ) → j < first → rows' g j ≡ rows g j
  pub there : select_rows rows' g first (length chunks) ≡ chunks
  pub after : (j : ℕ) → first + length chunks ≤ j → rows' g j ≡ none

pub insert_chunks-IsInserted :
    (rows : Rows) (g first : ℕ) (chunks : List (List Message))
    → ((j : ℕ) → first ≤ j → rows g j ≡ none)
    → (rows' : Rows) × (insert_chunks rows g first chunks ≡ ok rows')
      × IsInserted rows rows' g first chunks
unfolding insert_chunks select_rows
insert_chunks-IsInserted rows g first [] free = (
  rows,
  refl,
  record {
    elsewhere = λ h j other. refl;
    before = λ j lt. refl;
    there = refl;
    after = λ j le. free j (omega arith);
  },
)
insert_chunks-IsInserted rows g first (chunk ∷ chunks) free =
    let next = add_row rows g first chunk in
    let free' : (j : ℕ) → first + 1 ≤ j → next g j ≡ none =
      λ j le. added_at rows g first j chunk (ground arith) ∙ free j (omega arith) in
    let (rows', made, v) = insert_chunks-IsInserted next g (first + 1) chunks free' in
    let here : rows' g first ≡ some chunk =
      v.before first (omega arith) ∙ added_here rows g first chunk in
    (
      rows',
      rw (free first (omega arith)) made,
      record {
        elsewhere =
            λ h j other. v.elsewhere h j other ∙ added_elsewhere rows g first h j chunk other;
        before = λ j lt. v.before j (omega arith) ∙ added_at rows g first j chunk (ground arith);
        there = rw (here, v.there);
        after = λ j le. v.after j (omega arith);
      },
    )

pub select_rows-before :
    (rows rows' : Rows) (g first n : ℕ)
    → ((j : ℕ) → j < first + n → rows' g j ≡ rows g j)
    → select_rows rows' g first n ≡ select_rows rows g first n
unfolding select_rows
select_rows-before rows rows' g first zero same = refl
select_rows-before rows rows' g first (suc n) same =
    rw
      (
        same first (omega arith),
        select_rows-before rows rows' g (first + 1) n (λ j lt. same j (omega arith)),
      )
      refl

and_row-append :
    (o : Option (List Message)) (xs ys : List (List Message))
    → and_row o (xs ++ ys) ≡ and_row o xs ++ ys
and_row-append none xs ys = refl
and_row-append (some chunk) xs ys = refl

pub select_rows-add :
    (rows : Rows) (g first n m : ℕ)
    → select_rows rows g first (n + m)
      ≡ select_rows rows g first n ++ select_rows rows g (first + n) m
unfolding select_rows
select_rows-add rows g first zero m =
    let e : 0 + m ≡ m = omega arith in let z : first + 0 ≡ first = omega arith in rw (e, z) refl
select_rows-add rows g first (suc n) m =
    let e : suc n + m ≡ suc (n + m) = omega arith in
    let z : first + 1 + n ≡ first + suc n = omega arith in
    rw e (
      ap (and_row (rows g first)) (
        select_rows-add rows g (first + 1) n m
        ∙ ap (λ k. select_rows rows g (first + 1) n ++ select_rows rows g k m) z)
      ∙ and_row-append (rows g first) (select_rows rows g (first + 1) n) _)

-- The rows hold the history of a head at a revision: its chunks are all there, nothing follows them,
-- and no later generation has any.
pub record IsStored (rows : Rows) (generation count revision : ℕ) (messages : List Message)
    : Type 0 where
  pub selected : select_history rows generation count ≡ ok messages
  pub ends : (j : ℕ) → count ≤ j → rows generation j ≡ none
  pub unused : (g j : ℕ) → revision < g → rows g j ≡ none
  pub dated : generation ≤ revision

pub select_history_inv :
    (rows : Rows) (g count : ℕ) (messages : List Message)
    → select_history rows g count ≡ ok messages
    → (length (select_rows rows g 0 count) ≡ count)
      × (joined (select_rows rows g 0 count) ≡ messages)
unfolding select_history
select_history_inv rows g count messages h =
    let (complete, made) =
      >>-eq-ok (raise_if (not (length (select_rows rows g 0 count) == count)) _) _ h in
    (
      (==_iff (length (select_rows rows g 0 count)) count).0
          (not-false _ (raise_if-eq-ok _ _ complete)),
      cc,
    )

pub select_history_made :
    (rows : Rows) (g count : ℕ) (messages : List Message)
    → length (select_rows rows g 0 count) ≡ count
    → joined (select_rows rows g 0 count) ≡ messages
    → select_history rows g count ≡ ok messages
unfolding select_history
select_history_made rows g count messages size all =
    rw ((==_iff (length (select_rows rows g 0 count)) count).1 size, all)
