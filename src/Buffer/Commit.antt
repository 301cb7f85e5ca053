-- ===== src/Buffer/Commit.antt =====
-- What commits and rollbacks flush, whatever the other transactions do.
use caminus.Prelude.{
  ◌≡◌, refl, ◌∙◌, ap, sym, ◌++◌, Bool, true, false, some, List, [], ◌∷◌, arith, if◌then◌else◌,
  append_assoc, append-nil, All, beq_refl,
}
use caminus.Text.Defs.{Text, text_eq}
use caminus.Event.{Operation, commit, rollback, ChangeEvent}
use caminus.Buffer.Defs.{new, held, process, run}
use caminus.Buffer.Pending.{belongs, note, note_if, pending_from, pending, held-process}
use caminus.Buffer.Outputs.{answer_in, answer, output-run}

-- The events of one transaction.
unfoldable pub own : Text → List ChangeEvent → List ChangeEvent
own tx [] = []
own tx (event ∷ es) = let rest = own tx es in if belongs tx event then event ∷ rest else rest

note_if-other :
    (tx : Text) (acc : List ChangeEvent) (event : ChangeEvent)
    → belongs tx event ≡ false
    → note_if tx acc event ≡ acc
unfolding note_if
note_if-other tx acc event h = rw h

pub pending-own :
    (tx : Text) (acc es : List ChangeEvent)
    → pending_from tx acc es ≡ pending_from tx acc (own tx es)
unfolding pending_from own
pending-own tx acc [] = refl
pending-own tx acc (event ∷ es) = ground (
  arith,
  pending-own tx (note_if tx acc event) es,
  pending-own tx acc es,
  note_if-other tx acc event,
)

abbrev pub is_mutation : Operation → Bool
is_mutation commit = false
is_mutation rollback = false
is_mutation _ = true

abbrev pub IsMutationOf : Text → ChangeEvent → Type 0
IsMutationOf tx event = (belongs tx event ≡ true) × (is_mutation event.operation ≡ true)

note-mutation :
    (op : Operation) (acc : List ChangeEvent) (event : ChangeEvent)
    → is_mutation op ≡ true
    → note op acc event ≡ acc ++ event ∷ []
unfolding note
note-mutation commit acc event h = cc
note-mutation rollback acc event h = cc
note-mutation _ acc event h = refl

pending-mutations :
    (tx : Text) (acc es : List ChangeEvent)
    → All (IsMutationOf tx) es
    → pending_from tx acc es ≡ acc ++ es
unfolding pending_from note_if
pending-mutations tx acc [] h = sym (append-nil acc)
pending-mutations tx acc (event ∷ es) h =
    rw (h.0.0, note-mutation event.operation acc event h.0.1)
      (pending-mutations tx (acc ++ event ∷ []) es h.1 ∙ append_assoc acc (event ∷ []) es)

answer-commit :
    (tx : Text) (es : List ChangeEvent) (event : ChangeEvent)
    → event.transaction_id ≡ some tx
    → event.operation ≡ commit
    → answer es event ≡ pending tx es
unfolding answer
answer-commit tx es event at op = ground (arith, at, op)

note_if-commit :
    (tx : Text) (acc : List ChangeEvent) (event : ChangeEvent)
    → event.transaction_id ≡ some tx
    → event.operation ≡ commit
    → note_if tx acc event ≡ []
unfolding note_if
note_if-commit tx acc event at op = rw (at, beq_refl tx, op)

-- A commit of a transaction, in any history in which the events of that transaction are the
-- mutations `ms` so far, flushes exactly `ms`, in their order, and leaves nothing held for it.
pub commit-flush :
    (tx : Text) (ms events : List ChangeEvent) (event : ChangeEvent)
    → event.transaction_id ≡ some tx
    → event.operation ≡ commit
    → own tx events ≡ ms
    → All (IsMutationOf tx) ms
    → ((process (run new events).0 event).1 ≡ ms)
      × (held tx (process (run new events).0 event).0 ≡ [])
commit-flush tx ms events event at op mine all = (
  output-run events event
      ∙ answer-commit tx events event at op
      ∙ pending-own tx [] events
      ∙ ap (pending tx) mine
      ∙ pending-mutations tx [] ms all,
  held-process (run new events).0 event tx
      ∙ note_if-commit tx (held tx (run new events).0) event at op,
)

pub pending_from-append :
    (tx : Text) (acc xs ys : List ChangeEvent)
    → pending_from tx acc (xs ++ ys) ≡ pending_from tx (pending_from tx acc xs) ys
unfolding pending_from
pending_from-append tx acc [] ys = refl
pending_from-append tx acc (x ∷ xs) ys = pending_from-append tx (note_if tx acc x) xs ys

note_if-rollback :
    (tx : Text) (acc : List ChangeEvent) (event : ChangeEvent)
    → event.transaction_id ≡ some tx
    → event.operation ≡ rollback
    → note_if tx acc event ≡ []
unfolding note_if
note_if-rollback tx acc event at op = rw (at, beq_refl tx, op)

pending-rollback :
    (tx : Text) (before after : List ChangeEvent) (back : ChangeEvent)
    → back.transaction_id ≡ some tx
    → back.operation ≡ rollback
    → pending tx (before ++ back ∷ after) ≡ pending tx after
unfolding pending_from note_if
pending-rollback tx before after back at op =
    pending_from-append tx [] before (back ∷ after)
    ∙ ap (λ acc. pending_from tx acc after) (note_if-rollback tx (pending tx before) back at op)

answer_in-pending :
    (op : Operation) (tx : Text) (xs ys : List ChangeEvent)
    → pending tx xs ≡ pending tx ys
    → answer_in op tx xs ≡ answer_in op tx ys
answer_in-pending commit tx xs ys e = e
answer_in-pending _ tx xs ys e = refl

answer-pending :
    (tx : Text) (event : ChangeEvent) (xs ys : List ChangeEvent)
    → event.transaction_id ≡ some tx
    → pending tx xs ≡ pending tx ys
    → answer xs event ≡ answer ys event
unfolding answer
answer-pending tx event xs ys at e = rw at (answer_in-pending event.operation tx xs ys e)

-- Once a transaction is rolled back, none of its earlier mutations can be flushed: a commit of it,
-- or any other event of it, flushes what a buffer flushes that has seen only the events after the
-- rollback.
rollback-forget :
    (tx : Text) (before after : List ChangeEvent) (back event : ChangeEvent)
    → back.transaction_id ≡ some tx
    → back.operation ≡ rollback
    → event.transaction_id ≡ some tx
    → (process (run new (before ++ back ∷ after)).0 event).1 ≡ (process (run new after).0 event).1
rollback-forget tx before after back event at op at' =
    output-run (before ++ back ∷ after) event
    ∙ answer-pending tx event (before ++ back ∷ after) after at'
        (pending-rollback tx before after back at op)
    ∙ sym (output-run after event)
