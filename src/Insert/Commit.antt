-- ===== src/Insert/Commit.antt =====
-- `Combine`, `Finalize` and `GetDataInternal`: the commit messages of the threads, the commit and the
-- count of inserted rows.
use duckdb_paimon.Prelude.{
  ℕ, ◌+◌, ◌≡◌, refl, sym, ap, ◌∙◌, Bool, true, false, Option, none, some, List, [], ◌∷◌, ◌++◌, eqb,
  is_empty, arith, if◌then◌else◌,
}
use mathlib.Core.Path.{subst}
use mathlib.Core.List.{append-nil, append_assoc}
use duckdb_paimon.Sql.{Result, ok, throw, io_exception, ◌>>=◌, ◌>>◌, >>=-eq-ok}
use duckdb_paimon.Paimon.{Status}
use duckdb_paimon.Insert.Sink.{WriterApi, SinkLocal}

-- The part of `PaimonInsertGlobalState` that changes.
pub record SinkGlobal (Message : Type 0) : Type 0 where
  pub all_commit_messages : List Message
  pub insert_count : ℕ
  pub finished : Bool

abbrev pub require_ok : Option Status → Result (Unit {0})
require_ok none = ok tt
require_ok (some e) = throw (io_exception e.text)

-- The messages of a thread, from whether it wrote nothing, the status of `Close`, and the status and the
-- messages of `PrepareCommit`. A writer that got no rows is only closed.
unfoldable pub messages_from :
    {Message : Type 0} → Bool → Option Status → Option Status × List Message → Result (List Message)
messages_from true closed prepared = require_ok closed >> ok []
messages_from false closed (some e, messages) = throw (io_exception e.text)
messages_from false closed (none, messages) = require_ok closed >> ok messages

messages_from-prepared :
    {Message : Type 0} (nothing : Bool) (closed : Option Status)
    (prepared : Option Status × List Message) (messages : List Message)
    → messages_from nothing closed prepared ≡ ok messages
    → messages ≡ (if nothing then [] else prepared.1)
unfolding messages_from
messages_from-prepared true closed prepared messages h =
    let (u, e, h') = >>=-eq-ok (require_ok closed) _ h in cc
messages_from-prepared false closed (some e, ms) messages h = cc
messages_from-prepared false closed (none, ms) messages h =
    let (u, e, h') = >>=-eq-ok (require_ok closed) _ h in cc

module _ {Writer Message : Type 0} (api : WriterApi Writer Message) where
  unfoldable pub local_messages : SinkLocal Writer → Result (List Message)
  local_messages l =
      messages_from (eqb l.local_count 0) (api.close l.writer) (api.prepare_commit l.writer)

  -- `Combine`
  unfoldable pub combine : SinkGlobal Message → SinkLocal Writer → Result (SinkGlobal Message)
  combine g l = do
    messages ← local_messages l
    ok (record g {
      insert_count = g.insert_count + l.local_count;
      all_commit_messages = g.all_commit_messages ++ messages;
    })

  -- The threads combine one after another, in any order.
  unfoldable pub combine_each :
      SinkGlobal Message → List (SinkLocal Writer) → Result (SinkGlobal Message)
  combine_each g [] = ok g
  combine_each g (l ∷ ls) = do next ← combine g l; combine_each next ls

  abbrev pub prepared : List (SinkLocal Writer) → List Message
  prepared [] = []
  prepared (l ∷ ls) =
      (if eqb l.local_count 0 then [] else (api.prepare_commit l.writer).1) ++ prepared ls

  abbrev pub counted : List (SinkLocal Writer) → ℕ
  counted [] = 0
  counted (l ∷ ls) = l.local_count + counted ls

  -- `Finalize`; `commit` is paimon-cpp's, with the status of it and of what it needs. The result tells
  -- which messages were committed.
  unfoldable pub finalize :
      (List Message → Option Status) → SinkGlobal Message → Result (List Message)
  finalize commit g =
      if is_empty g.all_commit_messages
      then ok []
      else require_ok (commit g.all_commit_messages) >> ok g.all_commit_messages

  -- `GetDataInternal`: the count, once.
  unfoldable pub get_data : SinkGlobal Message → Option ℕ × SinkGlobal Message
  get_data g = if g.finished then (none, g) else (some g.insert_count, record g { finished = true })

  -- However many threads combine, the count is the sum of theirs, and the messages are those of the
  -- threads that wrote rows, in the order in which they combine.
  abbrev Combined : SinkGlobal Message → List (SinkLocal Writer) → SinkGlobal Message → Type 0
  Combined g ls last =
      (last.insert_count ≡ g.insert_count + counted ls)
      × (last.all_commit_messages ≡ g.all_commit_messages ++ prepared ls)
      × (last.finished ≡ g.finished)

  combine_each-Combined :
      (g : SinkGlobal Message) (ls : List (SinkLocal Writer)) (last : SinkGlobal Message)
      → combine_each g ls ≡ ok last
      → Combined g ls last
  unfolding combine_each combine local_messages
  combine_each-Combined g [] last h =
      let e : g ≡ last = cc in
      subst (Combined g []) e (omega arith, sym (append-nil g.all_commit_messages), refl)
  combine_each-Combined g (l ∷ ls) last h =
      let (next, e, h1) = >>=-eq-ok (combine g l) _ h in
      let (messages, e', h2) = >>=-eq-ok (local_messages l) _ e in
      let made = messages_from-prepared _ _ _ messages e' in
      let same : record g {
        insert_count = g.insert_count + l.local_count;
        all_commit_messages = g.all_commit_messages ++ messages;
      }
          ≡ next =
        cc in
      let (count, gathered, open_still) = combine_each-Combined next ls last h1 in
      (
        omega (arith, count, ap (λ x. x.insert_count) same),
        gathered
            ∙ ap (λ x. x.all_commit_messages ++ prepared ls) (sym same)
            ∙ append_assoc g.all_commit_messages messages (prepared ls)
            ∙ ap (λ ms. g.all_commit_messages ++ (ms ++ prepared ls)) made,
        open_still ∙ ap (λ x. x.finished) (sym same),
      )

  abbrev pub nothing_yet : SinkGlobal Message
  nothing_yet = record { all_commit_messages = []; insert_count = 0; finished = false }

  finalize-commits :
      (commit : List Message → Option Status) (g : SinkGlobal Message) (committed : List Message)
      → finalize commit g ≡ ok committed
      → committed ≡ g.all_commit_messages
  unfolding finalize
  finalize-commits commit g committed h = all_of g.all_commit_messages h
    where
      all_of :
          (ms : List Message)
          → (if is_empty ms then ok [] else require_ok (commit ms) >> ok ms) ≡ ok committed
          → committed ≡ ms
      all_of [] h = cc
      all_of (m ∷ ms) h = let (u, e, h') = >>=-eq-ok (require_ok (commit (m ∷ ms))) _ h in cc

  -- An INSERT that ends without an exception commits the messages of all its threads that wrote rows, and
  -- no others, and then reports the number of rows of all threads, once.
  pub insert_commits :
      (commit : List Message → Option Status) (ls : List (SinkLocal Writer))
      (g : SinkGlobal Message) (committed : List Message)
      → combine_each nothing_yet ls ≡ ok g
      → finalize commit g ≡ ok committed
      → (committed ≡ prepared ls)
        × ((get_data g).0 ≡ some (counted ls))
        × ((get_data (get_data g).1).0 ≡ none)
  unfolding get_data
  insert_commits commit ls g committed h h' =
      let (count, gathered, open_still) = combine_each-Combined nothing_yet ls g h in
      (
        finalize-commits commit g committed h' ∙ gathered,
        rw open_still (ap some (omega (arith, count))),
        rw open_still refl,
      )
