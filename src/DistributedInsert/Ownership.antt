-- ===== src/DistributedInsert/Ownership.antt =====
-- Who holds the prepared commit messages of a task: its state, its fragment, or the abort. Files whose
-- messages are lost would never be committed nor removed.
use duckdb_paimon.Prelude.{
  ℕ, ◌+◌, ◌-◌, ◌≡◌, refl, Bool, true, false, Option, none, some, List, [], ◌∷◌, ◌++◌, map, arith,
  eqb, ltb, length, Bool-cases, inl, inr,
}
use duckdb_paimon.Prelude.Int.{ℤ}
use duckdb_paimon.Sql.{Result, ok, Result-cases}
use duckdb_paimon.Paimon.{Status, Outcome, value, status}
use duckdb_paimon.DistributedScan.Estimates.{index_maximum}
use duckdb_paimon.DistributedInsert.Identities.{Platform, checked_add}
use duckdb_paimon.DistributedInsert.Tasks.{TaskContext, validate_task}
use duckdb_paimon.DistributedInsert.Worker.{
  WorkerApi, WorkerState, valid_messages, has_null, accept, after_close, after_prepare,
  combine_writer, worker_combine,
}

module _ {Message : Type 0} (w : Message → ℕ) where
  abbrev pub weigh : List Message → ℕ
  weigh [] = 0
  weigh (m ∷ messages) = w m + weigh messages

  -- A null message weighs nothing.
  abbrev pub weigh_given : List (Option Message) → ℕ
  weigh_given [] = 0
  weigh_given (none ∷ messages) = weigh_given messages
  weigh_given (some m ∷ messages) = w m + weigh_given messages

  pub weigh-append : (xs ys : List Message) → weigh (xs ++ ys) ≡ weigh xs + weigh ys
  weigh-append [] ys = omega arith
  weigh-append (x ∷ xs) ys = omega (arith, weigh-append xs ys)

  pub weigh_given-append :
      (xs ys : List (Option Message)) → weigh_given (xs ++ ys) ≡ weigh_given xs + weigh_given ys
  weigh_given-append [] ys = omega arith
  weigh_given-append (none ∷ xs) ys = weigh_given-append xs ys
  weigh_given-append (some x ∷ xs) ys = omega (arith, weigh_given-append xs ys)

  pub weigh_given-some : (xs : List Message) → weigh_given (map some xs) ≡ weigh xs
  weigh_given-some [] = refl
  weigh_given-some (x ∷ xs) = omega (arith, weigh_given-some xs)

  pub weigh-valid : (xs : List (Option Message)) → weigh (valid_messages xs) ≡ weigh_given xs
  unfolding valid_messages
  weigh-valid [] = refl
  weigh-valid (none ∷ xs) = weigh-valid xs
  weigh-valid (some x ∷ xs) = omega (arith, weigh-valid xs)

  -- What the state holds and what was aborted.
  abbrev pub accounted : {Writer : Type 0} → WorkerState Writer Message → ℕ
  accounted s = weigh s.global.messages + weigh_given s.aborted

  module _ {Writer : Type 0} (api : WorkerApi Writer Message) where
    accept-weighs :
        (messages : List Message) (s : WorkerState Writer Message)
        → accounted (accept api messages s).1 ≡ accounted s + weigh messages
    unfolding accept
    accept-weighs messages s =
        elim (Result-cases (
          checked_add s.global.row_count s.local.row_count
            "Distributed Paimon INSERT task row count exceeds idx_t")) [
              | inl (rows, e) ↦
                  elim (Bool-cases
                    (ltb (index_maximum - length s.global.messages) (length messages))) [
                      | inl full ↦
                          rw (e, full)
                            (omega (
                              arith,
                              weigh_given-append s.aborted (map some messages),
                              weigh_given-some messages,
                            ))
                      | inr fits ↦
                          rw (e, fits) (omega (arith, weigh-append s.global.messages messages))
                    ]
              | inr (x, e) ↦ rw e (
                  omega (
                    arith,
                    weigh_given-append s.aborted (map some messages),
                    weigh_given-some messages,
                  ))
            ]

    after_close-weighs :
        (closed : Option Status) (messages : List (Option Message)) (s : WorkerState Writer Message)
        → accounted (after_close api closed messages s).1 ≡ accounted s + weigh_given messages
    unfolding after_close
    after_close-weighs (some e) messages s = omega (arith, weigh_given-append s.aborted messages)
    after_close-weighs none [] s = omega arith
    after_close-weighs none (m ∷ messages) s = elim (Bool-cases (has_null (m ∷ messages))) [
      | inl broken ↦ rw broken (
          omega (
            arith,
            weigh_given-append s.aborted (map some (valid_messages (m ∷ messages))),
            weigh_given-some (valid_messages (m ∷ messages)),
            weigh-valid (m ∷ messages),
          ))
      | inr sound ↦ rw sound (
          omega
            (arith, accept-weighs (valid_messages (m ∷ messages)) s, weigh-valid (m ∷ messages)))
    ]

    -- What `PrepareCommit` gave.
    abbrev pub given_of : Outcome (List (Option Message)) × Writer → List (Option Message)
    given_of (status e, writer) = []
    given_of (value messages, writer) = messages

    -- What `PrepareCommit` gives in a call of `Combine`, which asks it only of a writer that got rows.
    abbrev pub prepared : Option Writer → Bool → ℤ → List (Option Message)
    prepared none nothing commit_identifier = []
    prepared (some writer) true commit_identifier = []
    prepared (some writer) false commit_identifier =
        given_of (api.prepare_commit writer commit_identifier)

    after_prepare-weighs :
        (x : Outcome (List (Option Message)) × Writer) (s : WorkerState Writer Message)
        → accounted (after_prepare api x s).1 ≡ accounted s + weigh_given (given_of x)
    unfolding after_prepare
    after_prepare-weighs (status e, writer) s = omega arith
    after_prepare-weighs (value messages, writer) s =
        after_close-weighs (api.close writer) messages _

    combine_writer-weighs :
        (writer : Option Writer) (nothing : Bool) (id : ℤ) (s : WorkerState Writer Message)
        → accounted (combine_writer api writer nothing id s).1
          ≡ accounted s + weigh_given (prepared writer nothing id)
    unfolding combine_writer
    combine_writer-weighs none nothing id s = omega arith
    combine_writer-weighs (some writer) true id s = omega arith
    combine_writer-weighs (some writer) false id s =
        after_prepare-weighs (api.prepare_commit writer id) s

    -- However `Combine` ends, with an exception or without, and by any weights: the messages that the state
    -- holds and those that were aborted are the ones from before with the ones that the thread's writer
    -- has prepared, each counted once. The task is the one that the state was made for.
    pub worker_combine-weighs :
        (p : Platform) (validate : TaskContext → Result (Unit {0})) (task : TaskContext)
        (s : WorkerState Writer Message)
        → validate_task p validate s.global task ≡ ok tt
        → accounted (worker_combine api p validate task s).1
          ≡ accounted s
            + weigh_given (
                prepared s.local.writer
                  (eqb s.local.row_count 0)
                  s.global.transport.commit_identifier)
    unfolding worker_combine
    worker_combine-weighs p validate task s valid = rw valid (
        combine_writer-weighs s.local.writer (eqb s.local.row_count 0)
          s.global.transport.commit_identifier s)
