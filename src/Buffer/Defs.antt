-- ===== src/Buffer/Defs.antt =====
-- `TransactionBuffer`: the mutations of each open transaction, until its commit or rollback.
use caminus.Prelude.{ℕ, ◌++◌, none, some, List, [], ◌∷◌, ltb, if◌then◌else◌, length}
use caminus.Text.Defs.{Text, text_eq}
use caminus.Dict.Defs.{Dict, get, insert, remove}
use caminus.Event.{Operation, commit, rollback, ChangeEvent}

pub record TransactionBuffer : Type 0 where
  pub buffer : Dict Text (List ChangeEvent)

abbrev pub new : TransactionBuffer
new = record { buffer = [] }

-- The mutations that are held back for a transaction.
unfoldable pub held : Text → TransactionBuffer → List ChangeEvent
unfolding get
held tx b = elim (get tx b.buffer) [ none ↦ [] | some mutations ↦ mutations ]

-- `entry(tx).or_insert_with(Vec::new).push(event)`
abbrev pub push_event : Text → ChangeEvent → TransactionBuffer → TransactionBuffer
push_event tx event b = record b { buffer = insert tx (held tx b ++ event ∷ []) b.buffer }

-- An event with the transaction `tx`, by its operation.
unfoldable pub process_in :
    Operation → Text → TransactionBuffer → ChangeEvent → TransactionBuffer × List ChangeEvent
process_in commit tx b event = (record b { buffer = remove tx b.buffer }, held tx b)
process_in rollback tx b event = (record b { buffer = remove tx b.buffer }, [])
process_in _ tx b event = (push_event tx event b, [])

unfoldable pub process : TransactionBuffer → ChangeEvent → TransactionBuffer × List ChangeEvent
unfolding process_in
process b event = elim event.transaction_id [
  | none ↦ (b, event ∷ [])
  | some tx ↦ process_in event.operation tx b event
]

unfoldable pub prune : ℕ → TransactionBuffer → TransactionBuffer
prune max_size b = if ltb max_size (length b.buffer) then record b { buffer = [] } else b

-- The buffer after a run of events, and all that was flushed downstream, in order.
unfoldable pub run : TransactionBuffer → List ChangeEvent → TransactionBuffer × List ChangeEvent
run b [] = (b, [])
run b (event ∷ events) =
    let (b', out) = process b event in let (b'', outs) = run b' events in (b'', out ++ outs)
