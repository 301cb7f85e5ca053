-- ===== src/Buffer/Tests.antt =====
-- Runs of the buffer, and the theorems about it at concrete histories.
use caminus.Prelude.{ltb, ◌≡◌, refl, Option, none, some, [], ◌∷◌, ◌≤◌, length}
use caminus.Text.Defs.{Text, codes, text_eq, text_beq}
use caminus.Dict.Defs.{get, insert, remove}
use caminus.Json.Value.{null}
use caminus.Event.{Operation, create, update, commit, rollback, ChangeEvent}
use caminus.Buffer.Defs.{new, held, process, prune, run}
use caminus.Buffer.Pending.{pending_from}
use caminus.Buffer.Outputs.{answers, answer, run-answers}
use caminus.Buffer.Commit.{own, commit-flush}
use caminus.Buffer.Prune.{kept_or_new, prune-pending}

program : Unit {0}
unfolding process run held get insert remove text_beq own prune pending_from answers answer
program = tt

abbrev event : Text → Operation → Option Text → ChangeEvent
event id op tx = record {
  id = id;
  source_database = codes "db";
  source_table_or_collection = codes "tbl";
  operation = op;
  timestamp = 0;
  key = null;
  before = none;
  after = none;
  transaction_id = tx;
  offset = id;
}

abbrev a1 : ChangeEvent
a1 = event (codes "1") create (some (codes "tx-1"))

abbrev b1 : ChangeEvent
b1 = event (codes "2") create (some (codes "tx-2"))

abbrev a2 : ChangeEvent
a2 = event (codes "3") update (some (codes "tx-1"))

abbrev b_back : ChangeEvent
b_back = event (codes "4") rollback (some (codes "tx-2"))

abbrev a_commit : ChangeEvent
a_commit = event (codes "5") commit (some (codes "tx-1"))

abbrev b_commit : ChangeEvent
b_commit = event (codes "6") commit (some (codes "tx-2"))

abbrev alone : ChangeEvent
alone = event (codes "7") create none

interleaved :
    (run new (a1 ∷ b1 ∷ alone ∷ a2 ∷ b_back ∷ a_commit ∷ b_commit ∷ [])).1 ≡ alone ∷ a1 ∷ a2 ∷ []
unfolding program
interleaved = refl

run-answers_example :
    (run new (a1 ∷ b1 ∷ a2 ∷ a_commit ∷ [])).1 ≡ answers [] (a1 ∷ b1 ∷ a2 ∷ a_commit ∷ [])
run-answers_example = run-answers (a1 ∷ b1 ∷ a2 ∷ a_commit ∷ [])

commit-flush_example :
    ((process (run new (a1 ∷ b1 ∷ a2 ∷ [])).0 a_commit).1 ≡ a1 ∷ a2 ∷ [])
    × (held (codes "tx-1") (process (run new (a1 ∷ b1 ∷ a2 ∷ [])).0 a_commit).0 ≡ [])
unfolding own text_beq
commit-flush_example =
    commit-flush (codes "tx-1") (a1 ∷ a2 ∷ []) (a1 ∷ b1 ∷ a2 ∷ []) a_commit refl refl refl
      ((refl, refl), ((refl, refl), tt))

prune-pending_example :
    (length (prune 1 (run new (a1 ∷ b1 ∷ [])).0).buffer ≤ 1)
    × (held (codes "tx-1") (run (prune 1 (run new (a1 ∷ b1 ∷ [])).0) (a1 ∷ [])).0
        ≡ kept_or_new
            (ltb 1 (length (run new (a1 ∷ b1 ∷ [])).0.buffer))
            (codes "tx-1")
            (a1 ∷ b1 ∷ [])
            (a1 ∷ []))
prune-pending_example = prune-pending 1 (a1 ∷ b1 ∷ []) (a1 ∷ []) (codes "tx-1")
