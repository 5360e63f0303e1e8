-- ===== src/Wire/Checkpoints.antt =====
-- The checkpoints of packages/jharness-kernel/src/jharness/kernel/wire/checkpoint.py.
pub mod Laws
use jharness.Common.{ℕ, String, true, false, not, Option, List, [], ◌∷◌, ℤ, same_string}
use jharness.Errors.{Result, ok, protocol, ◌>>=◌, ◌>>◌, raise_if}
use jharness.Json.{Json, string, object, no_entry, entry}
use jharness.Checkpoint.{Checkpoint}
use jharness.Checkpoint.Boundary.{checkpoint}
use jharness.Wire.{field, object_fields, read_string, read_non_empty, decode_document}
use jharness.Wire.Snapshot.{encode_snapshot, decode_snapshot_value}
use jharness.Wire.Facts.{encode_fact}
use jharness.Wire.Facts.Decoding.{decode_fact_value}

-- `encode_checkpoint`.
unfoldable pub encode_checkpoint : Checkpoint → Result Json
encode_checkpoint c = do
  snapshot ← encode_snapshot c.snapshot
  ok (
      object (
        entry "schema_version" (string "v0") (
          entry "id" (string c.id)
            (entry "snapshot" snapshot (entry "fact" (encode_fact c.fact) no_entry)))))

module _ (float_of : ℤ → String) (sha256 : List ℕ → List ℕ) where
  unfoldable pub decode_checkpoint_value : Json → Result Checkpoint
  unfolding object_fields field read_string read_non_empty checkpoint
  decode_checkpoint_value v = do
    fields ← object_fields v "checkpoint" ("schema_version" ∷ "id" ∷ "snapshot" ∷ "fact" ∷ []) []
    version ← read_string (← field "schema_version" fields) "checkpoint schema_version"
    raise_if (not (same_string version "v0")) (protocol "checkpoint schema_version must be v0")
    id ← read_non_empty (← field "id" fields) "checkpoint id"
    snapshot ← decode_snapshot_value float_of sha256 (← field "snapshot" fields)
    fact ← decode_fact_value float_of (← field "fact" fields)
    checkpoint id snapshot fact

  unfoldable pub decode_checkpoint : Json → Result Checkpoint
  unfolding decode_document
  decode_checkpoint v = decode_document v "checkpoint" decode_checkpoint_value
