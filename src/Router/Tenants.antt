-- ===== src/Router/Tenants.antt =====
-- `TenantRouter`: the partition of an event, if its tenant's quota allows it.
use caminus.Prelude.{ℕ, Bool, true, false, Option, none, some}
use caminus.Text.Defs.{Text}
use caminus.Json.Value.{Value}
use caminus.Event.{ChangeEvent}
use caminus.Limiter.Float.{Float}
use caminus.Limiter.Quota.{TenantQuotaLimiter, new_quota, set_tenant_quota, Reading, try_allow}
use caminus.Router.Defs.{PartitionRouter, tenant_prefix, tenant_id, resolve_partition}

module _ (print : Value → Text) (hash : Text → ℕ) (f : Float) where
  pub record TenantRouter : Type 0 where
    pub router : PartitionRouter
    pub quota_limiter : TenantQuotaLimiter f

  abbrev pub new_router : ℕ → ℕ → f.F → TenantRouter
  new_router num_partitions default_quota_capacity default_refill_rate = record {
    router = record { num_partitions = num_partitions; strategy = tenant_prefix };
    quota_limiter = new_quota f default_quota_capacity default_refill_rate;
  }

  unfoldable pub set_quota : ℕ → Text → ℕ → f.F → TenantRouter → TenantRouter
  set_quota now tenant capacity rate s = record s {
    quota_limiter = set_tenant_quota f now tenant capacity rate s.quota_limiter;
  }

  abbrev pub if_allowed : Bool → ℕ → Option ℕ
  if_allowed true partition = some partition
  if_allowed false partition = none

  unfoldable pub route_event : Reading f → ChangeEvent → TenantRouter → Option ℕ × TenantRouter
  route_event at event s =
      let allowed = try_allow f at (tenant_id event) s.quota_limiter in
      (
        if_allowed allowed.0 (resolve_partition print hash s.router event),
        record s { quota_limiter = allowed.1 },
      )
