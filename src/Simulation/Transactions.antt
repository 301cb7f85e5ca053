-- ===== src/Simulation/Transactions.antt =====
-- The transactions of the Postgres stream, and what the buffer does with one.
use caminus.Prelude.{
  ℕ, zero, suc, ◌+◌, ◌*◌, ◌%◌, ◌≡◌, refl, ap, ◌∙◌, some, none, List, [], ◌∷◌, ◌++◌, beq_refl,
  Bool-cases, inl, inr, nat_eq, if◌then◌else◌, false,
}
use caminus.Text.Defs.{Text, text_eq}
use caminus.Dict.Defs.{get, insert, remove}
use caminus.Event.{ChangeEvent, create, update, commit}
use caminus.Buffer.Defs.{TransactionBuffer, new, process, process_in, held, run}
use caminus.Source.Postgres.{event_at, operation_at}

-- An event without the time of its creation.
abbrev pub timeless : ChangeEvent → ChangeEvent
timeless event = record event { timestamp = 0 }

-- The mutations of a transaction of the stream, and those of the first so many transactions.
abbrev pub of_transaction : ℕ → List ChangeEvent
of_transaction k = event_at 0 (4 * k + 1) ∷ event_at 0 (4 * k + 2) ∷ event_at 0 (4 * k + 3) ∷ []

unfoldable pub transactions : ℕ → List ChangeEvent
transactions zero = []
transactions (suc k) = transactions k ++ of_transaction k

-- The buffer with one open transaction.
abbrev only : Text → List ChangeEvent → TransactionBuffer
only tx mutations = record { buffer = (tx, mutations) ∷ [] }

process-first :
    (tx : Text) (event : ChangeEvent)
    → event.transaction_id ≡ some tx
    → event.operation ≡ create
    → process new event ≡ (only tx (event ∷ []), [])
unfolding process process_in held get insert
process-first tx event t o = rw (t, o) refl

held-only : (tx : Text) (mutations : List ChangeEvent) → held tx (only tx mutations) ≡ mutations
unfolding held get
held-only tx mutations =
    ap (λ b. elim (if b then some mutations else none) [ none ↦ [] | some l ↦ l ]) (beq_refl tx)

process-more :
    (tx : Text) (mutations : List ChangeEvent) (event : ChangeEvent)
    → event.transaction_id ≡ some tx
    → event.operation ≡ update
    → process (only tx mutations) event ≡ (only tx (mutations ++ event ∷ []), [])
unfolding process process_in insert
process-more tx mutations event t o = rw (t, o, held-only tx mutations, beq_refl tx) refl

process-commit :
    (tx : Text) (mutations : List ChangeEvent) (event : ChangeEvent)
    → event.transaction_id ≡ some tx
    → event.operation ≡ commit
    → process (only tx mutations) event ≡ (new, mutations)
unfolding process process_in remove
process-commit tx mutations event t o = rw (t, o, held-only tx mutations, beq_refl tx) refl

run-step :
    (b b' : TransactionBuffer) (event : ChangeEvent) (out events : List ChangeEvent)
    → process b event ≡ (b', out)
    → (run b (event ∷ events)).1 ≡ out ++ (run b' events).1
unfolding run
run-step b b' event out events e = ap (λ done. done.1 ++ (run done.0 events).1) e

-- A transaction of three mutations goes downstream at its commit, and leaves nothing behind.
pub run-transaction :
    (tx : Text) (e1 e2 e3 c : ChangeEvent) (rest : List ChangeEvent)
    → e1.transaction_id ≡ some tx
    → e2.transaction_id ≡ some tx
    → e3.transaction_id ≡ some tx
    → c.transaction_id ≡ some tx
    → (e1.operation ≡ create)
      × (e2.operation ≡ update)
      × (e3.operation ≡ update)
      × (c.operation ≡ commit)
    → (run new (e1 ∷ e2 ∷ e3 ∷ c ∷ rest)).1 ≡ e1 ∷ e2 ∷ e3 ∷ (run new rest).1
run-transaction tx e1 e2 e3 c rest t1 t2 t3 t4 (o1, o2, o3, o4) =
    let mutations : List ChangeEvent = e1 ∷ e2 ∷ e3 ∷ [] in
    run-step _ _ e1 _ _ (process-first tx e1 t1 o1)
    ∙ run-step _ _ e2 _ _ (process-more tx (e1 ∷ []) e2 t2 o2)
    ∙ run-step _ _ e3 _ _ (process-more tx (e1 ∷ e2 ∷ []) e3 t3 o3)
    ∙ run-step _ _ c _ _ (process-commit tx mutations c t4 o4)

-- A commit with nothing before it lets nothing go.
pub run-commit :
    (tx : Text) (c : ChangeEvent) (rest : List ChangeEvent)
    → c.transaction_id ≡ some tx
    → c.operation ≡ commit
    → (run new (c ∷ rest)).1 ≡ (run new rest).1
unfolding run process process_in held get remove
run-commit tx c rest t o = rw (t, o) refl

pub process-open :
    (b : TransactionBuffer) (now n : ℕ)
    → nat_eq (n % 4) 0 ≡ false
    → (process b (event_at now n)).1 ≡ []
unfolding process process_in event_at operation_at
process-open b now n h = rw h (elim (Bool-cases (nat_eq (n % 4) 1)) [
  | inl creates ↦ rw creates refl
  | inr updates ↦ rw updates refl
])
