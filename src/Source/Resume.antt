-- ===== src/Source/Resume.antt =====
-- Where a stream goes on after a restart, and the transactions of the Postgres stream.
use caminus.Prelude.{
  ℕ, ◌+◌, ◌*◌, ◌%◌, ◌^◌, ◌<◌, ◌≡◌, sym, ap, ◌∙◌, append-nil, [], some, ◌++◌, ok, arith, true,
}
use caminus.Text.Defs.{Text, codes}
use caminus.Text.Decimal.{to_string, parse_u64-to_string, to_string-ascii}
use caminus.Text.Utf8.{is_utf8, is_utf8-ascii-append}
use caminus.Event.{create, update, commit}
use caminus.Storage.Database.{Database, Serde}
use caminus.Storage.Store.{save_offset}
use caminus.Consensus.Failover.{resume_checkpoint_offset}
use caminus.Consensus.Lease.{resume-save_offset}
use caminus.Source.Postgres.{or_zero, start_seq, operation_at, transaction_at, event_at, next_event}

pub start_seq-to_string : (n : ℕ) → n < 2 ^ 64 → start_seq (some (to_string n)) ≡ n
unfolding start_seq
start_seq-to_string n small = ap or_zero (parse_u64-to_string n small)

pub to_string-utf8 : (n : ℕ) → is_utf8 (to_string n) ≡ true
unfolding is_utf8
to_string-utf8 n =
    ap is_utf8 (sym (append-nil (to_string n)))
    ∙ is_utf8-ascii-append (to_string n) [] (to_string-ascii n)

-- If the offset of an event of the Postgres stream is saved, the stream that is started from the
-- checkpoint is in the state that the first stream had after that event: it yields the events after
-- it, none twice and none left out.
resume_postgres :
    (d : Database) (j : Serde) (s s' : d.State) (source_id : Text) (now seq : ℕ)
    → save_offset d j s source_id (next_event now seq).0.offset ≡ ok s'
    → start_seq (resume_checkpoint_offset d j s' source_id) ≡ (next_event now seq).1
unfolding next_event event_at
resume_postgres d j s s' source_id now seq saved =
    let next : ℕ = (seq + 1) % 2 ^ 64 in
    ap start_seq
      (resume-save_offset d j s s' source_id (to_string next) (to_string-utf8 next) saved)
    ∙ start_seq-to_string next (omega arith)

pub transaction_at-four :
    (n r : ℕ)
    → 4 * n + 4 < 2 ^ 64
    → r < 4
    → transaction_at (4 * n + r + 1) ≡ codes "tx-" ++ to_string (n + 1000)
unfolding transaction_at
transaction_at-four n r fits small =
    ap (λ k. codes "tx-" ++ to_string k) (omega (arith, small, fits))

-- Four events from a multiple of four, whose numbers fit 64 bits, are one transaction: a create, two
-- updates and the commit, all with its id.
transaction_of_four :
    (now n : ℕ)
    → 4 * n + 4 < 2 ^ 64
    → ((r : ℕ)
        → r < 4
        → (event_at now (4 * n + r + 1)).transaction_id
          ≡ some (codes "tx-" ++ to_string (n + 1000)))
      × ((event_at now (4 * n + 0 + 1)).operation ≡ create)
      × ((event_at now (4 * n + 1 + 1)).operation ≡ update)
      × ((event_at now (4 * n + 2 + 1)).operation ≡ update)
      × ((event_at now (4 * n + 3 + 1)).operation ≡ commit)
unfolding event_at operation_at
transaction_of_four now n fits = (
  λ r small. ap some (transaction_at-four n r fits small),
  ground arith,
  ground arith,
  ground arith,
  ground arith,
)
