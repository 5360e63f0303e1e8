-- ===== src/Repository/Manifest.antt =====
-- packages/jharness-repository/src/jharness/repository/_history_manifest.py, and the chunks of
-- _codec.py: which rows of chunks the databases add for a commit, and which make up a history. A
-- chunk is the list of its messages; its payload and digest are left out.
pub mod Laws
pub mod Rows
use jharness.Common.{
  ℕ, zero, suc, ◌+◌, Bool, true, false, not, ◌&&◌, ◌||◌, String, Option, none, some, List, [], ◌∷◌,
  ◌++◌, length, take, ◌==◌, if◌then◌else◌,
}
use jharness.Errors.{Result, ok, err, repository_error, ◌>>=◌, ◌>>◌, raise_if}
use jharness.Messages.{Message}
use jharness.History.Run.{iter}
use jharness.Checkpoint.{is_empty, is_some}
use jharness.Repository.{
  HistoryChange, initial, appended, replaced, unchanged, base_history, same_bytes,
}
use jharness.Common.{same_string}

abbrev pub history_chunk_size : ℕ
history_chunk_size = 64

-- The loop of `_encode_chunks`, with the chunks so far and the pending messages.
unfoldable pub chunks_from : List (List Message) → List Message → List Message → List (List Message)
chunks_from chunks pending [] = if is_empty pending then chunks else chunks ++ pending ∷ []
chunks_from chunks pending (m ∷ messages) =
    let full = chunks_from (chunks ++ (pending ++ m ∷ []) ∷ []) [] messages in
    let more = chunks_from chunks (pending ++ m ∷ []) messages in
    if length (pending ++ m ∷ []) == history_chunk_size then full else more

-- `_encode_chunks`.
unfoldable pub encode_chunks : List Message → List (List Message)
unfolding chunks_from
encode_chunks messages = chunks_from [] [] messages

-- `encode_history_change`.
unfoldable pub encode_history_change : HistoryChange → List (List Message)
unfolding encode_chunks iter
encode_history_change (unchanged count digest) = []
encode_history_change (appended count digest messages) = encode_chunks messages
encode_history_change (replaced count digest h) = encode_chunks (iter h)
encode_history_change (initial h) = encode_chunks (iter h)

-- `HistoryManifest`, the fields of a head.
pub record HistoryManifest : Type 0 where
  pub checkpoint_id : String
  pub history_generation : ℕ
  pub history_chunk_count : ℕ
  pub history_message_count : ℕ
  pub history_digest : List ℕ

abbrev pub same_parent : Option String → String → Bool
same_parent none id = false
same_parent (some parent) id = same_string parent id

abbrev pub same_base : Option (ℕ × List ℕ) → HistoryManifest → Bool
same_base none head = false
same_base (some (count, digest)) head =
    (count == head.history_message_count) && same_bytes digest head.history_digest

-- `validate_new_base`, on the parent and the history of the commit.
unfoldable pub validate_new_base :
    Option HistoryManifest → Option String → HistoryChange → Result (Unit {0})
unfolding base_history
validate_new_base none parent change =
    raise_if (is_some parent || is_some (base_history change))
      (repository_error "first durable commit has an invalid history base")
validate_new_base (some head) parent change =
    raise_if (not (same_parent parent head.checkpoint_id))
      (repository_error "parent checkpoint does not match the authoritative head")
    >> raise_if (not (same_base (base_history change) head))
        (repository_error "history change base does not match the authoritative head")

-- `next_history_manifest`: generation, first chunk index, and resulting chunk count.
unfoldable pub next_history_manifest :
    Option HistoryManifest → ℕ → HistoryChange → ℕ → Result (ℕ × ℕ × ℕ)
next_history_manifest none revision change added = ok (revision, 0, added)
next_history_manifest (some head) revision (replaced count digest h) added = ok (revision, 0, added)
next_history_manifest (some head) revision (appended count digest messages) added =
    ok (head.history_generation, head.history_chunk_count, head.history_chunk_count + added)
next_history_manifest (some head) revision (unchanged count digest) added =
    ok (head.history_generation, head.history_chunk_count, head.history_chunk_count)
next_history_manifest (some head) revision (initial h) added =
    err (repository_error "advanced durable commit has an invalid history mutation")

-- `sum(chunk.message_count for chunk in chunks)`.
unfoldable pub added_messages : List (List Message) → ℕ
added_messages [] = 0
added_messages (chunk ∷ chunks) = length chunk + added_messages chunks

-- `validate_encoded_history`, with the count of the new history.
unfoldable pub validate_encoded_history :
    Option HistoryManifest → HistoryChange → ℕ → List (List Message) → Result (Unit {0})
unfolding added_messages
validate_encoded_history none change count chunks =
    raise_if (is_empty chunks || not (added_messages chunks == count))
      (repository_error "encoded replacement history is inconsistent")
validate_encoded_history (some head) (replaced c d h) count chunks =
    raise_if (is_empty chunks || not (added_messages chunks == count))
      (repository_error "encoded replacement history is inconsistent")
validate_encoded_history (some head) (appended c d messages) count chunks =
    raise_if (is_empty chunks || not (head.history_message_count + added_messages chunks == count))
      (repository_error "encoded appended history is inconsistent")
validate_encoded_history (some head) _ count chunks =
    raise_if (not (is_empty chunks) || not (head.history_message_count == count))
      (repository_error "encoded unchanged history is inconsistent")

-- The chunk table of a run, by generation and index: its primary key.
abbrev pub Rows : Type 0
Rows = ℕ → ℕ → Option (List Message)

abbrev pub add_row : Rows → ℕ → ℕ → List Message → Rows
add_row rows generation index chunk g i =
    if (g == generation) && (i == index) then some chunk else rows g i

-- `INSERT INTO jharness_v3_history_chunks` of sqlite.py, one row after the other: a row that has the
-- key of another is refused.
unfoldable pub insert_chunks : Rows → ℕ → ℕ → List (List Message) → Result Rows
insert_chunks rows generation index [] = ok rows
insert_chunks rows generation index (chunk ∷ chunks) =
    let rest = insert_chunks (add_row rows generation index chunk) generation (index + 1) chunks in
    if is_some (rows generation index)
    then err (repository_error "SQLite repository operation failed")
    else rest

abbrev pub joined : List (List Message) → List Message
joined [] = []
joined (chunk ∷ chunks) = chunk ++ joined chunks

abbrev pub and_row : Option (List Message) → List (List Message) → List (List Message)
and_row none later = later
and_row (some chunk) later = chunk ∷ later

-- The rows of a generation that are there, of a number of indices from one on, in order.
unfoldable pub select_rows : Rows → ℕ → ℕ → ℕ → List (List Message)
select_rows rows generation index zero = []
select_rows rows generation index (suc n) =
    let later = select_rows rows generation (index + 1) n in and_row (rows generation index) later

-- The chunks that `_get_head_sync` of sqlite.py selects for a head, and their messages.
unfoldable pub select_history : Rows → ℕ → ℕ → Result (List Message)
unfolding select_rows
select_history rows generation count =
    raise_if (not (length (select_rows rows generation 0 count) == count))
      (repository_error "stored SQLite checkpoint history is incomplete")
    >> ok (joined (select_rows rows generation 0 count))
