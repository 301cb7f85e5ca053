-- ===== src/Router/Defs.antt =====
-- `PartitionRouter`. How a key is printed and the hash of a text, of 64 bits, are parameters. What
-- `TenantRouter` adds is a rate limit.
use caminus.Prelude.{ℕ, ◌%◌, Option, none, some, leb, if◌then◌else◌}
use caminus.Text.Defs.{Text, codes}
use caminus.Json.Value.{Value, get_field, as_str}
use caminus.Event.{ChangeEvent}

pub data PartitionStrategy : Type 0 where
  key_hash tenant_prefix round_robin : PartitionStrategy

pub record PartitionRouter : Type 0 where
  pub num_partitions : ℕ
  pub strategy : PartitionStrategy

abbrev pub unwrap_or : Text → Option Text → Text
unwrap_or default none = default
unwrap_or default (some text) = text

abbrev pub text_field : Option Value → Option Text
text_field none = none
text_field (some field) = as_str field

abbrev pub tenant_field : Option Value → Option Text
tenant_field none = none
tenant_field (some after) = text_field (get_field (codes "tenant_id") after)

-- The tenant that the row names, or the database.
abbrev pub tenant_id : ChangeEvent → Text
tenant_id event = unwrap_or event.source_database (tenant_field event.after)

module _ (print : Value → Text) (hash : Text → ℕ) where
  -- What is hashed.
  unfoldable pub routing_text : PartitionStrategy → ChangeEvent → Text
  routing_text key_hash event = print event.key
  routing_text tenant_prefix event = tenant_id event
  routing_text round_robin event = event.id

  unfoldable pub resolve_partition : PartitionRouter → ChangeEvent → ℕ
  resolve_partition router event =
      if leb router.num_partitions 1
      then 0
      else hash (routing_text router.strategy event) % router.num_partitions
