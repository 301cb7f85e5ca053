-- ===== src/Buffer/Prune.antt =====
-- `prune` bounds the number of open transactions by dropping all of them.
use caminus.Prelude.{
  ◌≡◌, refl, sym, ◌∙◌, ap, ℕ, ◌≤◌, Bool, true, false, Bool-cases, inl, inr, List, [], ◌++◌, arith,
  length, ltb,
}
use caminus.Text.Defs.{Text}
use caminus.Dict.Defs.{get}
use caminus.Event.{ChangeEvent}
use caminus.Buffer.Defs.{TransactionBuffer, new, held, prune, run}
use caminus.Buffer.Pending.{pending, pending_from, held-run}
use caminus.Buffer.Commit.{pending_from-append}

held-nothing : (tx : Text) → held tx new ≡ []
unfolding held get
held-nothing tx = refl

-- What is held for a transaction after `prune` and the events that follow, where it was called on a
-- buffer with so many open transactions.
abbrev pub kept_or_new : Bool → Text → List ChangeEvent → List ChangeEvent → List ChangeEvent
kept_or_new true tx before later = pending tx later
kept_or_new false tx before later = pending tx (before ++ later)

-- `prune` after any events, with more events to follow, from a new buffer. It leaves at most `max_size`
-- open transactions. Exactly if more were open, every one of them has lost its mutations, live ones
-- included, and what is held for a transaction later are the mutations that came after the pruning;
-- otherwise they are those that came before and after, as if `prune` had not been called.
pub prune-pending :
    (max_size : ℕ) (before later : List ChangeEvent) (tx : Text)
    → (length (prune max_size (run new before).0).buffer ≤ max_size)
      × (held tx (run (prune max_size (run new before).0) later).0
          ≡ kept_or_new (ltb max_size (length (run new before).0.buffer)) tx before later)
unfolding prune
prune-pending max_size before later tx = elim (Bool-cases (ltb max_size (length b.buffer))) [
  | inl over ↦ (
    ground (arith, over),
    rw over (
        held-run (record b { buffer = [] }) later tx
        ∙ ap (λ acc. pending_from tx acc later) (held-nothing tx)),
  )
  | inr within ↦ (
    ground (arith, within),
    rw within (
        held-run b later tx
        ∙ ap (λ acc. pending_from tx acc later) (held-run new before tx)
        ∙ ap (λ acc. pending_from tx (pending_from tx acc before) later) (held-nothing tx)
        ∙ sym (pending_from-append tx [] before later)),
  )
]
  where
    b : TransactionBuffer
    b = (run new before).0
