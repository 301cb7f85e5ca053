-- ===== src/Event.antt =====
-- Change events (src/source/mod.rs). A timestamp is the number of nanoseconds since the earliest
-- one that `DateTime<Utc>` can hold, which keeps their order.
use caminus.Prelude.{ℕ, ◌≡◌, ◌↔◌, Bool, true, false, Option, arith, PartialEq}
use caminus.Text.Defs.{Text}
use caminus.Json.Value.{Value}

pub data Operation : Type 0 where
  create update delete snapshot commit rollback : Operation

unfoldable pub operation_beq : Operation → Operation → Bool
operation_beq create create = true
operation_beq update update = true
operation_beq delete delete = true
operation_beq snapshot snapshot = true
operation_beq commit commit = true
operation_beq rollback rollback = true
operation_beq _ _ = false

pub operation_beq_iff : (a b : Operation) → (operation_beq a b ≡ true) ↔ (a ≡ b)
unfolding operation_beq
operation_beq_iff a b = ground arith

instance abbrev pub operation_eq : PartialEq Operation
operation_eq = record { eq = operation_beq; eq_iff = operation_beq_iff }

pub record ChangeEvent : Type 0 where
  pub id : Text
  pub source_database : Text
  pub source_table_or_collection : Text
  pub operation : Operation
  pub timestamp : ℕ
  pub key : Value
  pub before : Option Value
  pub after : Option Value
  pub transaction_id : Option Text
  pub offset : Text
