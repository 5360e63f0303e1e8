-- ===== src/Checkpoint/Laws.antt =====
-- What a checkpoint of checkpoint.py that was made consists of.
use jharness.Common.{String, ◌≡◌, sym, ap}
use jharness.Errors.{ok, raise_if, ◌>>◌, >>-eq-ok}
use jharness.Snapshot.{RunSnapshot}
use jharness.Checkpoint.{Checkpoint, Fact, is_blank}
use jharness.Checkpoint.Boundary.{checkpoint, validate_boundary}

pub checkpoint_inv :
    (id : String) (n : RunSnapshot) (fact : Fact) (cp : Checkpoint)
    → checkpoint id n fact ≡ ok cp
    → (validate_boundary n fact.body ≡ ok tt)
      × (cp.snapshot ≡ n)
      × (cp.fact ≡ fact)
      × (record { id = id; snapshot = n; fact = fact } ≡ cp)
unfolding checkpoint
checkpoint_inv id n fact cp h =
    let (passed, made) = >>-eq-ok (raise_if (is_blank id) _ >> validate_boundary n fact.body) _ h in
    let (named, bound) =
      >>-eq-ok (raise_if (is_blank id) _) (validate_boundary n fact.body) passed in
    let same : record { id = id; snapshot = n; fact = fact } ≡ cp = cc in
    (
      bound,
      sym (ap (λ (c : Checkpoint). c.snapshot) same),
      sym (ap (λ (c : Checkpoint). c.fact) same),
      same,
    )
