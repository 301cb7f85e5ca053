-- ===== src/Simulation/Blocks.antt =====
-- The transactions of the stream, from the first event of one or from the commit of the one before.
use caminus.Prelude.{
  ℕ, zero, suc, ◌+◌, ◌-◌, ◌*◌, ◌/◌, ◌%◌, ◌^◌, ◌<◌, ◌≡◌, refl, sym, ap, ◌∙◌, some, List, [], ◌∷◌,
  ◌++◌, map, arith, append-nil, append_assoc,
}
use caminus.Text.Defs.{codes, text_eq}
use caminus.Text.Decimal.{to_string}
use caminus.Event.{ChangeEvent}
use caminus.Buffer.Defs.{TransactionBuffer, new, process, run}
use caminus.Source.Postgres.{next_event, event_at, operation_at, transaction_at}
use caminus.Source.Resume.{transaction_at-four}
use caminus.Simulation.Defs.{stream}
use caminus.Simulation.Stages.{stream-suc}
use caminus.Simulation.Transactions.{
  timeless, of_transaction, transactions, run-transaction, run-commit, process-open,
}

-- Before the commit nothing goes downstream.
run-open :
    (b : TransactionBuffer) (clock : ℕ → ℕ) (seq r : ℕ)
    → seq % 4 + r < 4
    → seq + r < 2 ^ 64
    → (run b (stream next_event clock seq r)).1 ≡ []
unfolding run stream
run-open b clock seq zero small fits = refl
run-open b clock seq (suc r) small fits =
    let event : ChangeEvent = event_at (clock seq) (seq + 1) in
    ap (λ events. (run b events).1) (stream-suc clock seq r (omega (arith, fits)))
    ∙ ap (λ out. out ++ (run (process b event).0 (stream next_event clock (seq + 1) r)).1)
        (process-open b (clock seq) (seq + 1) (ground (arith, small)))
    ∙ run-open (process b event).0 clock (seq + 1) r (omega (arith, small)) (omega (arith, fits))

-- The next event, by its number.
stream-next :
    (clock : ℕ → ℕ) (seq next n : ℕ)
    → seq + 1 ≡ next
    → next < 2 ^ 64
    → stream next_event clock seq (suc n)
      ≡ event_at (clock seq) next ∷ stream next_event clock next n
stream-next clock seq next n e fits =
    stream-suc clock seq n (omega (arith, e, fits))
    ∙ ap (λ m. event_at (clock seq) m ∷ stream next_event clock m n) e

abbrev pub span : ℕ → ℕ → List ChangeEvent
span k zero = []
span k (suc m) = of_transaction k ++ span (suc k) m

-- Four times so many and some more, one by one.
abbrev quads : ℕ → ℕ → ℕ
quads zero r = r
quads (suc m) r = suc (suc (suc (suc (quads m r))))

quads-eq : (m r : ℕ) → quads m r ≡ 4 * m + r
quads-eq zero r = omega arith
quads-eq (suc m) r = omega (arith, quads-eq m r)

stream-four :
    (clock : ℕ → ℕ) (k n : ℕ)
    → 4 * k + 4 < 2 ^ 64
    → stream next_event clock (4 * k) (suc (suc (suc (suc n))))
      ≡ event_at (clock (4 * k)) (4 * k + 1)
        ∷ event_at (clock (4 * k + 1)) (4 * k + 2)
        ∷ event_at (clock (4 * k + 2)) (4 * k + 3)
        ∷ event_at (clock (4 * k + 3)) (4 * k + 4)
        ∷ stream next_event clock (4 * suc k) n
stream-four clock k n fits =
    stream-next clock (4 * k) (4 * k + 1) (suc (suc (suc n))) refl (omega arith)
    ∙ ap (◌∷◌ (event_at (clock (4 * k)) (4 * k + 1))) (
        stream-next clock (4 * k + 1) (4 * k + 2) (suc (suc n)) (omega arith) (omega arith)
        ∙ ap (◌∷◌ (event_at (clock (4 * k + 1)) (4 * k + 2))) (
            stream-next clock (4 * k + 2) (4 * k + 3) (suc n) (omega arith) (omega arith)
            ∙ ap (◌∷◌ (event_at (clock (4 * k + 2)) (4 * k + 3))) (
                stream-next clock (4 * k + 3) (4 * k + 4) n (omega arith) (omega arith)
                ∙ ap (λ m. event_at (clock (4 * k + 3)) (4 * k + 4) ∷ stream next_event clock m n)
                    (omega arith))))

tx_of :
    (now k next r : ℕ)
    → next ≡ 4 * k + r + 1
    → 4 * k + 4 < 2 ^ 64
    → r < 4
    → (event_at now next).transaction_id ≡ some (codes "tx-" ++ to_string (k + 1000))
unfolding event_at
tx_of now k next r e fits small =
    ap (λ m. some (transaction_at m)) e ∙ ap some (transaction_at-four k r fits small)

run-four :
    (clock : ℕ → ℕ) (k n : ℕ)
    → 4 * k + 4 < 2 ^ 64
    → map timeless (run new (stream next_event clock (4 * k) (suc (suc (suc (suc n)))))).1
      ≡ of_transaction k ++ map timeless (run new (stream next_event clock (4 * suc k) n)).1
unfolding event_at operation_at
run-four clock k n fits =
    ap (λ events. map timeless (run new events).1) (stream-four clock k n fits)
    ∙ ap (map timeless) (
        run-transaction (codes "tx-" ++ to_string (k + 1000)) (event_at (clock (4 * k)) (4 * k + 1))
          (event_at (clock (4 * k + 1)) (4 * k + 2)) (event_at (clock (4 * k + 2)) (4 * k + 3))
          (event_at (clock (4 * k + 3)) (4 * k + 4)) (stream next_event clock (4 * suc k) n)
          (tx_of (clock (4 * k)) k (4 * k + 1) 0 (omega arith) fits (omega arith))
          (tx_of (clock (4 * k + 1)) k (4 * k + 2) 1 (omega arith) fits (omega arith))
          (tx_of (clock (4 * k + 2)) k (4 * k + 3) 2 (omega arith) fits (omega arith))
          (tx_of (clock (4 * k + 3)) k (4 * k + 4) 3 (omega arith) fits (omega arith))
          (ground arith, ground arith, ground arith, ground arith))

run-aligned :
    (clock : ℕ → ℕ) (k m r : ℕ)
    → r < 4
    → 4 * k + quads m r < 2 ^ 64
    → map timeless (run new (stream next_event clock (4 * k) (quads m r))).1 ≡ span k m
run-aligned clock k zero r small fits =
    ap (map timeless) (run-open new clock (4 * k) r (omega (arith, small)) fits)
run-aligned clock k (suc m) r small fits =
    run-four clock k (quads m r) (omega (arith, fits))
    ∙ ap (λ l. of_transaction k ++ l) (run-aligned clock (suc k) m r small (omega (arith, fits)))

-- The number of the last event that was sent, after so many transactions, and of those that a session
-- of so many events completes.
abbrev pub last_number : ℕ → ℕ
last_number zero = 0
last_number (suc k) = 4 * k + 3

abbrev pub completed : ℕ → ℕ → ℕ
completed zero n = n / 4
completed (suc k) n = (n - 1) / 4

pub transactions-span : (k m : ℕ) → transactions k ++ span k m ≡ transactions (k + m)
unfolding transactions
transactions-span k zero =
    let e : k ≡ k + 0 = omega arith in append-nil (transactions k) ∙ ap transactions e
transactions-span k (suc m) =
    let e : suc k + m ≡ k + suc m = omega arith in
    sym (append_assoc (transactions k) (of_transaction k) (span (suc k) m))
    ∙ transactions-span (suc k) m
    ∙ ap transactions e

run-whole :
    (clock : ℕ → ℕ) (k n : ℕ)
    → 4 * k + n < 2 ^ 64
    → map timeless (run new (stream next_event clock (4 * k) n)).1 ≡ span k (n / 4)
run-whole clock k n fits =
    let parts : n ≡ quads (n / 4) (n % 4) = omega (arith, quads-eq (n / 4) (n % 4)) in
    ap (λ m. map timeless (run new (stream next_event clock (4 * k) m)).1) parts
    ∙ run-aligned clock k (n / 4) (n % 4) (omega arith) (omega (arith, fits, parts))

run-commit-at :
    (now k : ℕ) (rest : List ChangeEvent)
    → (run new (event_at now (4 * k) ∷ rest)).1 ≡ (run new rest).1
unfolding event_at operation_at
run-commit-at now k rest = run-commit _ (event_at now (4 * k)) rest refl (ground arith)

pub run-session :
    (clock : ℕ → ℕ) (k n : ℕ)
    → last_number k + n < 2 ^ 64
    → map timeless (run new (stream next_event clock (last_number k) n)).1 ≡ span k (completed k n)
unfolding stream run
run-session clock zero n fits = run-whole clock 0 n fits
run-session clock (suc k) zero fits = refl
run-session clock (suc k) (suc n) fits =
    let e : n / 4 ≡ (suc n - 1) / 4 = omega arith in
    let first = stream-next clock (4 * k + 3) (4 * suc k) n (omega arith) (omega (arith, fits)) in
    ap (λ events. map timeless (run new events).1) first
    ∙ ap (map timeless)
        (run-commit-at (clock (4 * k + 3)) (suc k) (stream next_event clock (4 * suc k) n))
    ∙ run-whole clock (suc k) n (omega (arith, fits))
    ∙ ap (span (suc k)) e
