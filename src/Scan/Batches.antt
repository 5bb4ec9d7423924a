-- ===== src/Scan/Batches.antt =====
-- A call of `NextBatch`: the loop runs until a batch is read or no split is left.
use duckdb_paimon.Prelude.{
  ℕ, zero, suc, ◌+◌, ◌<◌, ◌≡◌, refl, ap, Bool, true, false, Option, none, some, List, [], ◌∷◌,
  get_elem?, length, arith, is_empty, is_some, if◌then◌else◌, Bool-cases, inl, inr,
}
use mathlib.Core.Path.{subst}
use duckdb_paimon.Sql.{Result, ok, throw, >>=-eq-ok}
use duckdb_paimon.Paimon.{Outcome, value, status}
use duckdb_paimon.Scan.Runtime.{Reader, ScanLocal, claim, loop_with}

-- The batch, or none at the end, with the local state and the shared index.
abbrev pub Answer : Type 0 → Type 0
Answer Batch = Result (Option Batch × ScanLocal Batch × ℕ)

-- What a round means for the loop.
unfoldable pub after_round :
    {Batch : Type 0}
    → Result (ScanLocal Batch × ℕ × List Batch)
    → (ScanLocal Batch → ℕ → Option (Answer Batch))
    → Option (Answer Batch)
after_round (throw e) again = some (throw e)
after_round (ok (l, index, batch ∷ out)) again = some (ok (some batch, l, index))
after_round (ok (l, index, [])) again =
    let more = again l index in if l.exhausted then some (ok (none, l, index)) else more

module _ {Split Batch : Type 0} (create_reader : Split → Outcome (Reader Batch)) where
  -- `NextBatch` while no other thread moves the index; none where the fuel is too small.
  unfoldable pub next_batch : ℕ → List Split → ℕ → ScanLocal Batch → Option (Answer Batch)
  next_batch zero splits index l = none
  next_batch (suc fuel) splits index l =
      after_round (loop_with create_reader splits index l.exhausted l.batch_reader)
        (λ next i. next_batch fuel splits i next)

  claim_busy :
      (splits : List Split) (i : ℕ) (l : ScanLocal Batch)
      → claim create_reader (get_elem? splits i) ≡ ok l
      → l.exhausted ≡ false
      → i < length splits
  unfolding claim
  claim_busy [] i l h busy =
      let e : record { batch_reader = []; exhausted = true } ≡ l = cc in
      let t : true ≡ l.exhausted = ap (λ x. x.exhausted) e in absurd (ground arith)
  claim_busy (split ∷ splits) zero l h busy = omega arith
  claim_busy (split ∷ splits) (suc i) l h busy = omega (arith, claim_busy splits i l h busy)

  -- Where the loop goes on, it has claimed a split.
  abbrev GoesOn : List Split → ℕ → ScanLocal Batch × ℕ × List Batch → Type 0
  GoesOn splits index (l, index', out) =
      is_empty out ≡ true → l.exhausted ≡ false → (index' ≡ suc index) × (index < length splits)

  loop_with-GoesOn :
      (splits : List Split) (index : ℕ) (exhausted : Bool) (reader : Reader Batch)
      (done : ScanLocal Batch × ℕ × List Batch)
      → loop_with create_reader splits index exhausted reader ≡ ok done
      → GoesOn splits index done
  unfolding loop_with
  loop_with-GoesOn splits index true reader done h =
      let e : (record { batch_reader = reader; exhausted = true }, index, []) ≡ done = cc in
      subst (GoesOn splits index) e (λ empty busy. absurd (ground arith))
  loop_with-GoesOn splits index false (value batch ∷ rest) done h =
      let e : (record { batch_reader = rest; exhausted = false }, index, batch ∷ []) ≡ done = cc in
      subst (GoesOn splits index) e (λ empty busy. absurd (ground arith))
  loop_with-GoesOn splits index false (status e ∷ rest) done h = cc
  loop_with-GoesOn splits index false [] done h =
      let (next, e, h') = >>=-eq-ok (claim create_reader (get_elem? splits index)) _ h in
      let e' : (next, suc index, []) ≡ done = cc in
      subst (GoesOn splits index) e' (λ empty busy. (refl, claim_busy splits index next e busy))

  -- A call of NextBatch returns: the loop runs at most once more than there are splits left.
  pub next_batch-returns :
      (fuel : ℕ) (splits : List Split) (index : ℕ) (l : ScanLocal Batch)
      → length splits < fuel + index
      → 0 < fuel
      → is_some (next_batch fuel splits index l) ≡ true
  unfolding next_batch after_round
  next_batch-returns zero splits index l enough positive = absurd (omega arith)
  next_batch-returns (suc fuel) splits index l enough positive =
      round (loop_with create_reader splits index l.exhausted l.batch_reader)
        (loop_with-GoesOn splits index l.exhausted l.batch_reader)
        (λ next i enough' positive'. next_batch-returns fuel splits i next enough' positive')
    where
      round :
          (r : Result (ScanLocal Batch × ℕ × List Batch))
          → ((done : ScanLocal Batch × ℕ × List Batch) → r ≡ ok done → GoesOn splits index done)
          → ((next : ScanLocal Batch) (i : ℕ)
              → length splits < fuel + i
              → 0 < fuel
              → is_some (next_batch fuel splits i next) ≡ true)
          → is_some (after_round r (λ next i. next_batch fuel splits i next)) ≡ true
      round (throw e) on later = refl
      round (ok (next, i, batch ∷ out)) on later = refl
      round (ok (next, i, [])) on later = elim (Bool-cases next.exhausted) [
        | inl over ↦ rw over
        | inr busy ↦
            let (moved, left) = on (next, i, []) refl refl busy in
            simp busy (later next i (omega (arith, moved)) (omega (arith, moved)))
      ]
