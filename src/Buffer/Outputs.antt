-- ===== src/Buffer/Outputs.antt =====
-- What the buffer lets through, against the history alone.
use caminus.Prelude.{
  ◌≡◌, refl, ◌∙◌, ap, sym, ◌++◌, none, some, List, [], ◌∷◌, arith, Option-cases, inl, inr,
}
use caminus.Text.Defs.{Text, text_eq}
use caminus.Event.{Operation, commit, ChangeEvent}
use caminus.Buffer.Defs.{TransactionBuffer, new, held, process, process_in, run}
use caminus.Buffer.Pending.{note_if, pending_from, pending, held-process, held-run}

abbrev pub answer_in : Operation → Text → List ChangeEvent → List ChangeEvent
answer_in commit tx past = pending tx past
answer_in _ tx past = []

-- The answer to an event after the events of `past`.
unfoldable pub answer : List ChangeEvent → ChangeEvent → List ChangeEvent
answer past event = elim event.transaction_id [
  | none ↦ event ∷ []
  | some tx ↦ answer_in event.operation tx past
]

unfoldable pub answers : List ChangeEvent → List ChangeEvent → List ChangeEvent
answers past [] = []
answers past (event ∷ events) = answer past event ++ answers (past ++ event ∷ []) events

pub pending-append :
    (tx : Text) (acc es : List ChangeEvent) (event : ChangeEvent)
    → pending_from tx acc (es ++ event ∷ []) ≡ note_if tx (pending_from tx acc es) event
unfolding pending_from
pending-append tx acc [] event = refl
pending-append tx acc (e ∷ es) event = pending-append tx (note_if tx acc e) es event

abbrev Follows : TransactionBuffer → List ChangeEvent → Type 0
Follows b past = (tx : Text) → held tx b ≡ pending tx past

output_in :
    (op : Operation) (tx : Text) (b : TransactionBuffer) (past : List ChangeEvent)
    (event : ChangeEvent)
    → Follows b past
    → (process_in op tx b event).1 ≡ answer_in op tx past
unfolding process_in
output_in commit tx b past event h = h tx
output_in _ tx b past event h = refl

output-answer :
    (b : TransactionBuffer) (past : List ChangeEvent) (event : ChangeEvent)
    → Follows b past
    → (process b event).1 ≡ answer past event
unfolding process answer
output-answer b past event h = elim (Option-cases event.transaction_id) [
  | inl outside ↦ ground (arith, outside)
  | inr (tx, inside) ↦ ground (arith, inside, output_in event.operation tx b past event h)
]

process-Follows :
    (b : TransactionBuffer) (past : List ChangeEvent) (event : ChangeEvent)
    → Follows b past
    → Follows (process b event).0 (past ++ event ∷ [])
process-Follows b past event h tx =
    held-process b event tx
    ∙ ap (λ acc. note_if tx acc event) (h tx)
    ∙ sym (pending-append tx [] past event)

outputs-answers :
    (b : TransactionBuffer) (past es : List ChangeEvent)
    → Follows b past
    → (run b es).1 ≡ answers past es
unfolding run answers
outputs-answers b past [] h = refl
outputs-answers b past (event ∷ es) h = rw (
  output-answer b past event h,
  outputs-answers (process b event).0 (past ++ event ∷ []) es (process-Follows b past event h),
)

-- From the empty buffer, whatever events arrive and however their transactions interleave, what is
-- flushed downstream is what the history alone prescribes: an event outside a transaction at once,
-- at a commit the mutations of that transaction since its last commit or rollback, in their order,
-- and at any other event nothing.
pub run-answers : (events : List ChangeEvent) → (run new events).1 ≡ answers [] events
unfolding pending_from
run-answers events = outputs-answers new [] events (λ tx. unfold held in refl)

pub output-run :
    (es : List ChangeEvent) (event : ChangeEvent)
    → (process (run new es).0 event).1 ≡ answer es event
unfolding held
output-run es event = output-answer (run new es).0 es event (held-run new es)
