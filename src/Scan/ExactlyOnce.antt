-- ===== src/Scan/ExactlyOnce.antt =====
-- However its threads interleave, a scan delivers each batch of each split once.
use duckdb_paimon.Prelude.{
  ℕ, zero, suc, ◌+◌, ◌≤◌, ◌≡◌, refl, sym, ap, Bool, true, false, ◌&&◌, List, [], ◌∷◌, ◌++◌,
  get_elem?, length, arith, All, drop, ◌⊎◌, inl, inr, is_empty,
}
use mathlib.Core.Path.{subst}
use duckdb_paimon.Sql.{ok, >>=-eq-ok}
use duckdb_paimon.Paimon.{Outcome, value, status}
use duckdb_paimon.Scan.Runtime.{
  Reader, ScanLocal, Running, Event, started, looped, open_reader, claim, loop_with, loop_thread,
  happen, run, not_started,
}

abbrev pub all_exhausted : {Batch : Type 0} → List (ScanLocal Batch) → Bool
all_exhausted [] = true
all_exhausted (l ∷ ls) = l.exhausted && all_exhausted ls

module _ {Split Batch : Type 0} (create_reader : Split → Outcome (Reader Batch))
    (weight : Batch → ℕ) where
  -- The sum of a weight over the batches, which tells how often each comes.
  abbrev pub weigh : List Batch → ℕ
  weigh [] = 0
  weigh (batch ∷ batches) = weight batch + weigh batches

  abbrev pub weigh_reader : Reader Batch → ℕ
  weigh_reader [] = 0
  weigh_reader (value batch ∷ rest) = weight batch + weigh_reader rest
  weigh_reader (status e ∷ rest) = weigh_reader rest

  abbrev pub weigh_created : Outcome (Reader Batch) → ℕ
  weigh_created (value reader) = weigh_reader reader
  weigh_created (status e) = 0

  abbrev pub weigh_splits : List Split → ℕ
  weigh_splits [] = 0
  weigh_splits (split ∷ splits) = weigh_created (create_reader split) + weigh_splits splits

  -- The splits from the index on, which no thread has claimed.
  abbrev unclaimed : ℕ → List Split → ℕ
  unclaimed i splits = weigh_splits (drop i splits)

  abbrev held : List (ScanLocal Batch) → ℕ
  held [] = 0
  held (l ∷ ls) = weigh_reader l.batch_reader + held ls

  -- A thread that is exhausted holds nothing, and no split is left.
  abbrev Settled : List Split → ℕ → ScanLocal Batch → Type 0
  Settled splits index l =
      (l.exhausted ≡ false) ⊎ ((weigh_reader l.batch_reader ≡ 0) × (length splits ≤ index))

  abbrev Claimed : List Split → ℕ → ScanLocal Batch → Type 0
  Claimed splits i l =
      (unclaimed i splits ≡ weigh_reader l.batch_reader + unclaimed (suc i) splits)
      × Settled splits (suc i) l

  opened :
      (o : Outcome (Reader Batch)) (l : ScanLocal Batch)
      → open_reader o ≡ ok l
      → (weigh_created o ≡ weigh_reader l.batch_reader) × (l.exhausted ≡ false)
  unfolding open_reader
  opened (status e) l h = cc
  opened (value reader) l h =
      let e : record { batch_reader = reader; exhausted = false } ≡ l = cc in
      (ap (λ x. weigh_reader x.batch_reader) e, ap (λ x. x.exhausted) (sym e))

  claim_weight :
      (splits : List Split) (i : ℕ) (l : ScanLocal Batch)
      → claim create_reader (get_elem? splits i) ≡ ok l
      → Claimed splits i l
  unfolding claim
  claim_weight [] zero l h =
      let e : record { batch_reader = []; exhausted = true } ≡ l = cc in
      subst (Claimed [] zero) e (refl, inr (refl, omega arith))
  claim_weight [] (suc i) l h =
      let e : record { batch_reader = []; exhausted = true } ≡ l = cc in
      subst (Claimed [] (suc i)) e (refl, inr (refl, omega arith))
  claim_weight (split ∷ splits) zero l h =
      let (weighed, busy) = opened (create_reader split) l h in (omega (arith, weighed), inl busy)
  claim_weight (split ∷ splits) (suc i) l h =
      let (taken, settled) = claim_weight splits i l h in
      (taken, elim settled [ inl e ↦ inl e | inr (e, past) ↦ inr (e, omega arith) ])

  -- A round moves a batch, or takes a split; what is delivered, held and unclaimed stays the same.
  abbrev Moved : List Split → ℕ → ℕ → ScanLocal Batch × ℕ × List Batch → Type 0
  Moved splits index before (l, index', out) =
      (weigh out + weigh_reader l.batch_reader + unclaimed index' splits
        ≡ before + unclaimed index splits)
      × (index ≤ index')
      × Settled splits index' l

  loop_with-Moved :
      (splits : List Split) (index : ℕ) (exhausted : Bool) (reader : Reader Batch)
      (done : ScanLocal Batch × ℕ × List Batch)
      → Settled splits index (record { batch_reader = reader; exhausted = exhausted })
      → loop_with create_reader splits index exhausted reader ≡ ok done
      → Moved splits index (weigh_reader reader) done
  unfolding loop_with
  loop_with-Moved splits index true reader done settled h =
      let e : (record { batch_reader = reader; exhausted = true }, index, []) ≡ done = cc in
      subst (Moved splits index (weigh_reader reader)) e (omega arith, omega arith, settled)
  loop_with-Moved splits index false (value batch ∷ rest) done settled h =
      let e : (record { batch_reader = rest; exhausted = false }, index, batch ∷ []) ≡ done = cc in
      subst (Moved splits index (weight batch + weigh_reader rest)) e
        (omega arith, omega arith, inl refl)
  loop_with-Moved splits index false (status e ∷ rest) done settled h = cc
  loop_with-Moved splits index false [] done settled h =
      let (next, e, h') = >>=-eq-ok (claim create_reader (get_elem? splits index)) _ h in
      let (taken, idle) = claim_weight splits index next e in
      let e' : (next, suc index, []) ≡ done = cc in
      subst (Moved splits index 0) e' (omega (arith, taken), omega arith, idle)

  -- The same of a round on any of the threads.
  abbrev AllSettled : List Split → ℕ → List (ScanLocal Batch) → Type 0
  AllSettled splits index ls = All (Settled splits index) ls

  settled_later :
      (splits : List Split) (index index' : ℕ) (ls : List (ScanLocal Batch))
      → index ≤ index'
      → AllSettled splits index ls
      → AllSettled splits index' ls
  settled_later splits index index' [] le settled = tt
  settled_later splits index index' (l ∷ ls) le settled = (
    elim settled.0 [ inl e ↦ inl e | inr (e, past) ↦ inr (e, omega arith) ],
    settled_later splits index index' ls le settled.1,
  )

  abbrev AllMoved : List Split → ℕ → ℕ → List (ScanLocal Batch) × ℕ × List Batch → Type 0
  AllMoved splits index before (ls, index', out) =
      (weigh out + held ls + unclaimed index' splits ≡ before + unclaimed index splits)
      × (index ≤ index')
      × AllSettled splits index' ls

  loop_thread-AllMoved :
      (splits : List Split) (index i : ℕ) (ls : List (ScanLocal Batch))
      (done : List (ScanLocal Batch) × ℕ × List Batch)
      → AllSettled splits index ls
      → loop_thread create_reader splits index i ls ≡ ok done
      → AllMoved splits index (held ls) done
  unfolding loop_thread
  loop_thread-AllMoved splits index i [] done settled h =
      let e : ([], index, []) ≡ done = cc in
      subst (AllMoved splits index 0) e (refl, omega arith, tt)
  loop_thread-AllMoved splits index zero (l ∷ ls) done settled h =
      let (moved, e, h') =
        >>=-eq-ok (loop_with create_reader splits index l.exhausted l.batch_reader) _ h in
      let (same, later, idle) =
        loop_with-Moved splits index l.exhausted l.batch_reader moved settled.0 e in
      let e' : (moved.0 ∷ ls, moved.1, moved.2) ≡ done = cc in
      subst (AllMoved splits index (held (l ∷ ls))) e'
        (omega (arith, same), later, (idle, settled_later splits index moved.1 ls later settled.1))
  loop_thread-AllMoved splits index (suc i) (l ∷ ls) done settled h =
      let (moved, e, h') = >>=-eq-ok (loop_thread create_reader splits index i ls) _ h in
      let (same, later, idle) = loop_thread-AllMoved splits index i ls moved settled.1 e in
      let e' : (l ∷ moved.0, moved.1, moved.2) ≡ done = cc in
      subst (AllMoved splits index (held (l ∷ ls))) e' (
        omega (arith, same),
        later,
        (elim settled.0 [ inl b ↦ inl b | inr (b, past) ↦ inr (b, omega arith) ], idle),
      )

  abbrev Balanced : List Split → Running Batch → Type 0
  Balanced splits s =
      (weigh s.delivered + held s.threads + unclaimed s.split_index splits ≡ weigh_splits splits)
      × AllSettled splits s.split_index s.threads

  weigh-append : (xs ys : List Batch) → weigh (xs ++ ys) ≡ weigh xs + weigh ys
  weigh-append [] ys = omega arith
  weigh-append (x ∷ xs) ys = omega (arith, weigh-append xs ys)

  happen-Balanced :
      (splits : List Split) (s : Running Batch) (event : Event) (next : Running Batch)
      → Balanced splits s
      → happen create_reader splits s event ≡ ok next
      → Balanced splits next
  unfolding happen
  happen-Balanced splits s started next balanced h =
      let (l, e, h') = >>=-eq-ok (claim create_reader (get_elem? splits s.split_index)) _ h in
      let (taken, idle) = claim_weight splits s.split_index l e in
      let same : record s { split_index = suc s.split_index; threads = l ∷ s.threads } ≡ next =
        cc in
      subst (Balanced splits) same (
        omega (arith, taken, balanced.0),
        (
          idle,
          settled_later splits s.split_index (suc s.split_index) s.threads (omega arith) balanced.1,
        ),
      )
  happen-Balanced splits s (looped i) next balanced h =
      let (done, e, h') =
        >>=-eq-ok (loop_thread create_reader splits s.split_index i s.threads) _ h in
      let (moved, later, idle) =
        loop_thread-AllMoved splits s.split_index i s.threads done balanced.1 e in
      let same : record {
        split_index = done.1;
        threads = done.0;
        delivered = done.2 ++ s.delivered;
      }
          ≡ next =
        cc in
      subst (Balanced splits) same
        (omega (arith, moved, balanced.0, weigh-append done.2 s.delivered), idle)

  run-Balanced :
      (splits : List Split) (s : Running Batch) (events : List Event) (last : Running Batch)
      → Balanced splits s
      → run create_reader splits s events ≡ ok last
      → Balanced splits last
  unfolding run
  run-Balanced splits s [] last balanced h =
      let same : s ≡ last = cc in subst (Balanced splits) same balanced
  run-Balanced splits s (event ∷ events) last balanced h =
      let (next, e, h') = >>=-eq-ok (happen create_reader splits s event) _ h in
      run-Balanced splits next events last (happen-Balanced splits s event next balanced e) h'

  all_exhausted-idle :
      (splits : List Split) (index : ℕ) (ls : List (ScanLocal Batch))
      → AllSettled splits index ls
      → all_exhausted ls ≡ true
      → (held ls ≡ 0) × ((is_empty ls ≡ true) ⊎ (length splits ≤ index))
  all_exhausted-idle splits index [] settled h = (refl, inl refl)
  all_exhausted-idle splits index (l ∷ ls) settled h =
      let (rest, _) = all_exhausted-idle splits index ls settled.1 (ground arith) in
      elim settled.0 [
        | inl busy ↦ absurd (ground arith)
        | inr (empty, past) ↦ (omega (arith, rest, empty), inr past)
      ]

  drop_all : (splits : List Split) (index : ℕ) → length splits ≤ index → unclaimed index splits ≡ 0
  drop_all [] zero h = refl
  drop_all [] (suc index) h = refl
  drop_all (split ∷ splits) zero h = absurd (omega arith)
  drop_all (split ∷ splits) (suc index) h = drop_all splits index (omega arith)

  -- However the rounds of the threads interleave, and whenever the threads start: once there is a thread
  -- and all threads are exhausted without an exception, every batch of every split has been delivered
  -- exactly once. Batches are counted by an arbitrary weight.
  pub run-delivers :
      (splits : List Split) (events : List Event) (last : Running Batch)
      → run create_reader splits (not_started create_reader) events ≡ ok last
      → is_empty last.threads ≡ false
      → all_exhausted last.threads ≡ true
      → weigh last.delivered ≡ weigh_splits splits
  run-delivers splits events last h some_thread finished =
      let balanced =
        run-Balanced splits (not_started create_reader) events last (omega arith, tt) h in
      let (idle, past) =
        all_exhausted-idle splits last.split_index last.threads balanced.1 finished in
      elim past [
        | inl none_started ↦ absurd (cc)
        | inr all_claimed ↦
            omega (arith, balanced.0, idle, drop_all splits last.split_index all_claimed)
      ]
