-- ===== src/Pipeline/Delivery.antt =====
-- What the delivery of mutations changes, and what it keeps.
use caminus.Prelude.{
  ◌≡◌, refl, sym, ap, ◌∙◌, List, [], ◌∷◌, ◌++◌, append-nil, append_assoc, Result, ok, err,
}
use caminus.Text.Defs.{Text}
use caminus.Json.Value.{Value}
use caminus.Event.{ChangeEvent}
use caminus.Storage.Database.{Database, Serde}
use caminus.Storage.Store.{Error, save_offset, get_schema}
use caminus.Storage.Laws.{get_schema-save_offset}
use caminus.Pipeline.Defs.{Pipeline, state_after, deliver_as, deliver}
use caminus.Pipeline.Stages.{keep_transformed, transformed}

module _ (d : Database) (j : Serde) (key_text : Value → Text) {T : Type 0}
    (transform : ChangeEvent → Result T ChangeEvent) (source_id : Text) where
  abbrev pub P : Type 0
  P = Pipeline d j key_text transform source_id

  pub transformed-append :
      (xs ys : List ChangeEvent)
      → transformed transform (xs ++ ys) ≡ transformed transform xs ++ transformed transform ys
  unfolding transformed
  transformed-append [] ys = refl
  transformed-append (x ∷ xs) ys = onto _ _ _ (transform x) (transformed-append xs ys)
    where
      onto :
          (us vs ws : List ChangeEvent) (r : Result T ChangeEvent)
          → us ≡ vs ++ ws
          → keep_transformed r us ≡ keep_transformed r vs ++ ws
      onto us vs ws (ok t) e = ap (◌∷◌ t) e
      onto us vs ws (err f) e = e

  -- What is left as it was by the delivery of mutations.
  pub record Kept (p q : P) : Type 0 where
    pub buffer : q.tx_buffer ≡ p.tx_buffer
    pub engine : q.watermark_engine ≡ p.watermark_engine
    pub filter : q.dedup_filter ≡ p.dedup_filter
    pub schema : get_schema d j q.store source_id ≡ get_schema d j p.store source_id

  state_after-schema :
      (s : d.State) (offset : Text) (r : Result (Error d j) d.State)
      → save_offset d j s source_id offset ≡ r
      → get_schema d j (state_after d j key_text transform source_id s r) source_id
        ≡ get_schema d j s source_id
  state_after-schema s offset (ok s') e =
      get_schema-save_offset d j s s' source_id offset source_id e
  state_after-schema s offset (err f) e = refl

  deliver_as-Kept :
      (p : P) (m : ChangeEvent) (r : Result T ChangeEvent)
      → Kept p (deliver_as d j key_text transform source_id p m r)
  deliver_as-Kept p m (ok t) = record {
    buffer = refl;
    engine = refl;
    filter = refl;
    schema = state_after-schema p.store t.offset _ refl;
  }
  deliver_as-Kept p m (err e) = record {
    buffer = refl;
    engine = refl;
    filter = refl;
    schema = refl;
  }

  deliver_as-sent :
      (p : P) (m : ChangeEvent) (r : Result T ChangeEvent) (ms : List ChangeEvent)
      → (deliver_as d j key_text transform source_id p m r).sent ++ ms
        ≡ p.sent ++ keep_transformed r ms
  deliver_as-sent p m (ok t) ms = append_assoc p.sent (t ∷ []) ms
  deliver_as-sent p m (err e) ms = refl

  pub deliver-Kept :
      (p : P) (ms : List ChangeEvent) → Kept p (deliver d j key_text transform source_id p ms)
  unfolding deliver
  deliver-Kept p [] = record { buffer = refl; engine = refl; filter = refl; schema = refl }
  deliver-Kept p (m ∷ ms) =
      let q : P = deliver_as d j key_text transform source_id p m (transform m) in
      let once : Kept p q = deliver_as-Kept p m (transform m) in
      let rest : Kept q (deliver d j key_text transform source_id q ms) = deliver-Kept q ms in
      record {
        buffer = rest.buffer ∙ once.buffer;
        engine = rest.engine ∙ once.engine;
        filter = rest.filter ∙ once.filter;
        schema = rest.schema ∙ once.schema;
      }

  pub deliver-sent :
      (p : P) (ms : List ChangeEvent)
      → (deliver d j key_text transform source_id p ms).sent ≡ p.sent ++ transformed transform ms
  unfolding deliver transformed
  deliver-sent p [] = sym (append-nil p.sent)
  deliver-sent p (m ∷ ms) =
      deliver-sent (deliver_as d j key_text transform source_id p m (transform m)) ms
      ∙ deliver_as-sent p m (transform m) (transformed transform ms)
