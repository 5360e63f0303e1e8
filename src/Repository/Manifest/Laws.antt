-- ===== src/Repository/Manifest/Laws.antt =====
-- The chunks of a history, and the rows that a database holds from commit to commit.
use jharness.Common.{
  ℕ, ◌+◌, ◌≤◌, ◌<◌, ◌≡◌, refl, sym, ap, subst, ◌∙◌, none, List, [], ◌∷◌, ◌++◌, length, ◌==◌, arith,
  Bool-cases, inl, inr, length-append, some,
}
use jharness.Errors.{ok}
use jharness.Messages.{Message}
use jharness.History.Run.{iter}
use jharness.Repository.{HistoryChange, initial, appended, replaced, unchanged}
use jharness.Repository.Manifest.{
  chunks_from, encode_chunks, history_chunk_size, joined, Rows, insert_chunks, select_rows,
  select_history, HistoryManifest, next_history_manifest, encode_history_change,
}
use jharness.Repository.Manifest.Rows.{
  IsStored, insert_chunks-IsInserted, select_rows-add, select_rows-before, select_history_inv,
  select_history_made,
}

append_assoc : (xs ys zs : List Message) → (xs ++ ys) ++ zs ≡ xs ++ (ys ++ zs)
append_assoc [] ys zs = refl
append_assoc (x ∷ xs) ys zs = ap (λ t. x ∷ t) (append_assoc xs ys zs)

append_nil : (xs : List Message) → xs ++ [] ≡ xs
append_nil [] = refl
append_nil (x ∷ xs) = ap (λ t. x ∷ t) (append_nil xs)

joined-append :
    (chunks : List (List Message)) (chunk : List Message)
    → joined (chunks ++ chunk ∷ []) ≡ joined chunks ++ chunk
joined-append [] chunk = append_nil chunk
joined-append (c ∷ cs) chunk =
    ap (λ t. c ++ t) (joined-append cs chunk) ∙ sym (append_assoc c (joined cs) chunk)

joined-chunks_from :
    (chunks : List (List Message)) (pending messages : List Message)
    → joined (chunks_from chunks pending messages) ≡ joined chunks ++ (pending ++ messages)
unfolding chunks_from
joined-chunks_from chunks [] [] = sym (append_nil (joined chunks))
joined-chunks_from chunks (p ∷ ps) [] =
    joined-append chunks (p ∷ ps) ∙ ap (λ t. joined chunks ++ t) (sym (append_nil (p ∷ ps)))
joined-chunks_from chunks pending (m ∷ messages) =
    let step = append_assoc pending (m ∷ []) messages in
    elim (Bool-cases (length (pending ++ m ∷ []) == history_chunk_size)) [
      | inl full ↦ rw full (
          joined-chunks_from (chunks ++ (pending ++ m ∷ []) ∷ []) [] messages
          ∙ rw (joined-append chunks (pending ++ m ∷ [])) (
              append_assoc (joined chunks) (pending ++ m ∷ []) messages
              ∙ ap (λ t. joined chunks ++ t) step))
      | inr more ↦ rw more (
          joined-chunks_from chunks (pending ++ m ∷ []) messages
          ∙ ap (λ t. joined chunks ++ t) step)
    ]

pub joined-encode_chunks : (messages : List Message) → joined (encode_chunks messages) ≡ messages
unfolding encode_chunks
joined-encode_chunks messages = joined-chunks_from [] [] messages

joined-++ : (cs ds : List (List Message)) → joined (cs ++ ds) ≡ joined cs ++ joined ds
joined-++ [] ds = refl
joined-++ (c ∷ cs) ds =
    ap (λ t. c ++ t) (joined-++ cs ds) ∙ sym (append_assoc c (joined cs) (joined ds))

-- The messages that a history change leaves, after those before it.
abbrev pub changed_messages : HistoryChange → List Message → List Message
changed_messages (initial h) before = iter h
changed_messages (replaced count digest h) before = iter h
changed_messages (appended count digest messages) before = before ++ messages
changed_messages (unchanged count digest) before = before

-- Chunks that are put in after those of a head.
history_after :
    (rows : Rows) (g first count revision : ℕ) (chunks : List (List Message))
    (before messages : List Message)
    → select_history rows g first ≡ ok before
    → ((j : ℕ) → first ≤ j → rows g j ≡ none)
    → ((h j : ℕ) → revision < h → rows h j ≡ none)
    → g ≤ revision
    → first + length chunks ≡ count
    → before ++ joined chunks ≡ messages
    → (rows' : Rows) × (insert_chunks rows g first chunks ≡ ok rows')
      × IsStored rows' g count revision messages
history_after rows g first count revision chunks before messages h free unused dated total all =
    let (rows', made, v) = insert_chunks-IsInserted rows g first chunks free in
    let (size, old) = select_history_inv rows g first before h in
    let parts : select_rows rows' g 0 (first + length chunks)
        ≡ select_rows rows g 0 first ++ chunks =
      select_rows-add rows' g 0 first (length chunks)
      ∙ rw
          (
            select_rows-before rows rows' g 0 first (λ j lt. v.before j (omega arith)),
            (let z : 0 + first ≡ first = omega arith in z),
            v.there,
          )
          refl in
    let parts' =
      subst (λ n. select_rows rows' g 0 n ≡ select_rows rows g 0 first ++ chunks) total parts in
    (
      rows',
      made,
      record {
        selected =
            select_history_made rows' g count messages
              (ap length parts'
                ∙ omega (arith, size, length-append (select_rows rows g 0 first) chunks, total))
              (ap joined parts'
                ∙ joined-++ (select_rows rows g 0 first) chunks
                ∙ ap (λ l. l ++ joined chunks) old
                ∙ all);
        ends = λ j le. v.after j (omega (arith, total));
        unused = λ k j lt. v.elsewhere k j (ground (arith, dated)) ∙ unused k j lt;
        dated = dated;
      },
    )

abbrev Placed : Rows → List (List Message) → ℕ → List Message → ℕ × ℕ × ℕ → Type 0
Placed rows chunks revision messages x =
    (rows' : Rows) × (insert_chunks rows x.0 x.1 chunks ≡ ok rows')
    × IsStored rows' x.0 x.2 revision messages

-- Where the rows hold the history of a head, a commit at a later revision can put its chunks in: none
-- has the key of another row, and the rows then hold, for the head that the manifest gives, the
-- messages before, changed as the commit says.
pub select_history-next :
    (rows : Rows) (head : HistoryManifest) (before : List Message) (last revision : ℕ)
    (change : HistoryChange) (g first count : ℕ)
    → IsStored rows head.history_generation head.history_chunk_count last before
    → last < revision
    → next_history_manifest (some head) revision change (length (encode_history_change change))
      ≡ ok (g, first, count)
    → (rows' : Rows) × (insert_chunks rows g first (encode_history_change change) ≡ ok rows')
      × IsStored rows' g count revision (changed_messages change before)
unfolding next_history_manifest encode_history_change
select_history-next rows head before last revision (initial h) g first count v lt made = cc
select_history-next rows head before last revision (replaced c d h) g first count v lt made =
    let chunks = encode_chunks (iter h) in
    let e : (revision, 0, length chunks) ≡ (g, first, count) = cc in
    subst (Placed rows chunks revision (iter h)) e (
      history_after rows revision 0 (length chunks) revision chunks [] (iter h)
        (unfold select_history select_rows in refl) (λ j le. v.unused revision j lt)
        (λ k j le. v.unused k j (omega (arith, le, lt))) (omega arith) (omega arith)
        (joined-encode_chunks (iter h)))
select_history-next rows head before last revision (appended c d messages) g first count v lt made =
    let chunks = encode_chunks messages in
    let gen = head.history_generation in
    let n = head.history_chunk_count in
    let e : (gen, n, n + length chunks) ≡ (g, first, count) = cc in
    subst (Placed rows chunks revision (before ++ messages)) e (
      history_after rows gen n (n + length chunks) revision chunks before (before ++ messages)
        v.selected v.ends (λ k j le. v.unused k j (omega (arith, le, lt)))
        (omega (arith, v.dated, lt)) refl (ap (λ t. before ++ t) (joined-encode_chunks messages)))
select_history-next rows head before last revision (unchanged c d) g first count v lt made =
    let gen = head.history_generation in
    let n = head.history_chunk_count in
    let e : (gen, n, n) ≡ (g, first, count) = cc in
    subst (Placed rows [] revision before) e (
      history_after rows gen n n revision [] before before v.selected v.ends
        (λ k j le. v.unused k j (omega (arith, le, lt))) (omega (arith, v.dated, lt)) (omega arith)
        (append_nil before))
