-- ===== src/Simulation/Ready.antt =====
-- What a session finds in the store, and leaves there.
use caminus.Prelude.{
  ℕ, zero, suc, ◌+◌, ◌*◌, ◌-◌, ◌^◌, ◌≤◌, ◌<◌, ◌≡◌, refl, ap, ◌∙◌, Option, none, some, List, [], ◌∷◌,
  ◌++◌, map, Result, ok, err, map_err, arith, inr, bind-eq-ok, then-eq-ok, map_err-ok,
}
use caminus.Text.Defs.{Text}
use caminus.Text.Decimal.{to_string}
use caminus.Event.{ChangeEvent}
use caminus.Storage.Database.{Database, Serde, is_plain}
use caminus.Storage.Store.{get_offset, get_schema, save_schema}
use caminus.Storage.Laws.{get-save_schema}
use caminus.Schema.Defs.{Fault, storage, register_schema, check_existing, backward}
use caminus.Consensus.Failover.{resume_checkpoint_offset}
use caminus.Source.Postgres.{start_seq, event_at}
use caminus.Source.Resume.{start_seq-to_string}
use caminus.Pipeline.Checkpoint.{last_offset}
use caminus.Simulation.Defs.{user_schema, source_name, store_after, register_users, resumed_at}
use caminus.Simulation.Stages.{AreOfStream, IsRegistered}
use caminus.Simulation.Transactions.{timeless, of_transaction, transactions}
use caminus.Simulation.Blocks.{span, last_number, completed}

abbrev pub total : List ((ℕ → ℕ) × ℕ) → ℕ
total [] = 0
total ((clock, n) ∷ ss) = n + total ss

-- The offset of the last mutation of the first so many transactions.
abbrev pub checkpoint : ℕ → Option Text
checkpoint zero = none
checkpoint (suc k) = some (to_string (4 * k + 3))

pub last_offset-timeless :
    (before : Option Text) (events : List ChangeEvent)
    → last_offset before (map timeless events) ≡ last_offset before events
last_offset-timeless before [] = refl
last_offset-timeless before (event ∷ events) = last_offset-timeless (some event.offset) events

last_offset-three :
    (before : Option Text) (events : List ChangeEvent) (k : ℕ)
    → last_offset before (events ++ of_transaction k) ≡ checkpoint (suc k)
unfolding event_at
last_offset-three before [] k = refl
last_offset-three before (event ∷ events) k = last_offset-three (some event.offset) events k

pub last_offset-transactions : (k : ℕ) → last_offset none (transactions k) ≡ checkpoint k
unfolding transactions
last_offset-transactions zero = refl
last_offset-transactions (suc k) = last_offset-three none (transactions k) k

pub start_seq-checkpoint :
    (k : ℕ) → last_number k < 2 ^ 64 → start_seq (checkpoint k) ≡ last_number k
unfolding start_seq
start_seq-checkpoint zero small = refl
start_seq-checkpoint (suc k) small = start_seq-to_string (4 * k + 3) small

pub AreOfStream-timeless :
    (events : List ChangeEvent) → AreOfStream (map timeless events) → AreOfStream events
unfolding event_at
AreOfStream-timeless [] v = tt
AreOfStream-timeless (event ∷ events) ((now, n, small, e), v) = (
  (event.timestamp, n, small, ap (λ (x : ChangeEvent). record x { timestamp = event.timestamp }) e),
  AreOfStream-timeless events v,
)

pub last_number-eq : (k : ℕ) → last_number k ≡ 4 * k - 1
last_number-eq zero = omega arith
last_number-eq (suc k) = omega arith

pub span-AreOfStream : (k m : ℕ) → 4 * (k + m) < 2 ^ 64 + 1 → AreOfStream (span k m)
span-AreOfStream k zero fits = tt
span-AreOfStream k (suc m) fits = (
  (0, 4 * k + 1, omega (arith, fits), refl),
  (
    (0, 4 * k + 2, omega (arith, fits), refl),
    ((0, 4 * k + 3, omega (arith, fits), refl), span-AreOfStream (suc k) m (omega (arith, fits))),
  ),
)

pub last_number-completed : (k n : ℕ) → last_number (k + completed k n) ≤ last_number k + n
last_number-completed zero n = omega (arith, last_number-eq (0 + completed 0 n))
last_number-completed (suc k) n = omega (arith, last_number-eq (suc k + completed (suc k) n))

module _ (d : Database) (j : Serde) where
  pub resumed_at-eq :
      (source_id : Text) (s : d.State) (o : Option Text)
      → get_offset d j s source_id ≡ ok o
      → resumed_at d j source_id s ≡ start_seq o
  unfolding resumed_at resume_checkpoint_offset
  resumed_at-eq source_id s none e = rw (resume_checkpoint_offset, e) refl
  resumed_at-eq source_id s (some o) e = rw (resume_checkpoint_offset, e) refl

  -- A registration keeps the checkpoint.
  abbrev pub IsReady : Option Text → d.State → Type 0
  IsReady o s = (get_offset d j s source_name ≡ ok o) × IsRegistered d j s

  store_after-IsReady :
      (o : Option Text) (s : d.State) (r : Result (Fault d j) d.State)
      → register_schema d j s source_name user_schema backward ≡ r
      → IsReady o s
      → IsReady o (store_after d j s r)
  unfolding register_schema is_plain
  store_after-IsReady o s (err e) h ready = ready
  store_after-IsReady o s (ok s') h (offset, registered) =
      let (existing, found, rest) =
        bind-eq-ok (map_err storage (get_schema d j s source_name)) _ h in
      let (checked, saved') =
        then-eq-ok (check_existing d j existing user_schema backward) _ rest in
      let saved = map_err-ok storage (save_schema d j s source_name user_schema) saved' in
      let (schema, others, offsets) = get-save_schema d j s s' source_name user_schema refl saved in
      (offsets source_name ∙ offset, inr schema)

  pub register_users-IsReady :
      (o : Option Text) (s : d.State) → IsReady o s → IsReady o (register_users d j s)
  unfolding register_users
  register_users-IsReady o s ready =
      store_after-IsReady o s (register_schema d j s source_name user_schema backward) refl ready
