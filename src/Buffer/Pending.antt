-- ===== src/Buffer/Pending.antt =====
-- The buffer against the history of events: what it holds for a transaction are the mutations of
-- that transaction since the last commit or rollback of it.
use caminus.Prelude.{
  ◌≡◌, refl, ◌∙◌, ap, ◌++◌, Bool, false, none, some, List, [], ◌∷◌, arith, ◌==◌, if◌then◌else◌,
  Option-cases, inl, inr,
}
use caminus.Text.Defs.{Text, text_eq, text_beq_iff}
use caminus.Dict.Laws.{get-insert, get-remove}
use caminus.Event.{Operation, commit, rollback, ChangeEvent}
use caminus.Buffer.Defs.{TransactionBuffer, held, process, process_in, run}

abbrev pub belongs : Text → ChangeEvent → Bool
belongs tx event = elim event.transaction_id [ none ↦ false | some t ↦ t == tx ]

-- One event of the transaction.
unfoldable pub note : Operation → List ChangeEvent → ChangeEvent → List ChangeEvent
note commit acc event = []
note rollback acc event = []
note _ acc event = acc ++ event ∷ []

unfoldable pub note_if : Text → List ChangeEvent → ChangeEvent → List ChangeEvent
unfolding note
note_if tx acc event = if belongs tx event then note event.operation acc event else acc

-- The open mutations of `tx` after the events, if it had `acc` before them.
unfoldable pub pending_from : Text → List ChangeEvent → List ChangeEvent → List ChangeEvent
unfolding note_if
pending_from tx acc [] = acc
pending_from tx acc (event ∷ events) = pending_from tx (note_if tx acc event) events

abbrev pub pending : Text → List ChangeEvent → List ChangeEvent
pending tx = pending_from tx []

held-process_in :
    (op : Operation) (t tx : Text) (b : TransactionBuffer) (event : ChangeEvent)
    → held tx (process_in op t b event).0
      ≡ (if t == tx then note op (held tx b) event else held tx b)
unfolding held process_in note
held-process_in commit t tx b event =
    ground (arith, get-remove {V = List ChangeEvent} t tx b.buffer)
held-process_in rollback t tx b event =
    ground (arith, get-remove {V = List ChangeEvent} t tx b.buffer)
held-process_in _ t tx b event =
    ground (arith, get-insert t tx (held t b ++ event ∷ []) b.buffer, text_beq_iff t tx)

-- One step, for every transaction at once.
pub held-process :
    (b : TransactionBuffer) (event : ChangeEvent) (tx : Text)
    → held tx (process b event).0 ≡ note_if tx (held tx b) event
unfolding process note_if
held-process b event tx = elim (Option-cases event.transaction_id) [
  | inl outside ↦ ground (arith, outside)
  | inr (t, inside) ↦ ground (arith, inside, held-process_in event.operation t tx b event)
]

-- After a run the buffer holds for each transaction what the history leaves open.
pub held-run :
    (b : TransactionBuffer) (events : List ChangeEvent) (tx : Text)
    → held tx (run b events).0 ≡ pending_from tx (held tx b) events
unfolding run pending_from
held-run b [] tx = refl
held-run b (event ∷ events) tx =
    held-run (process b event).0 events tx
    ∙ ap (λ acc. pending_from tx acc events) (held-process b event tx)
