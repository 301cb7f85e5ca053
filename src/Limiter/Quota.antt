-- ===== src/Limiter/Quota.antt =====
-- `TenantQuotaLimiter`: a bucket for each tenant, made with the defaults at its first call.
use caminus.Prelude.{ℕ, Bool, Option, none, some, [], length}
use caminus.Text.Defs.{Text, text_eq}
use caminus.Dict.Defs.{Dict, get, insert, contains_key}
use caminus.Limiter.Float.{Float}
use caminus.Limiter.Bucket.{TokenBucketLimiter, new, try_acquire}

module _ (f : Float) where
  pub record TenantQuotaLimiter : Type 0 where
    pub tenant_limiters : Dict Text (TokenBucketLimiter f)
    pub default_capacity : ℕ
    pub default_refill_rate : f.F

  abbrev pub new_quota : ℕ → f.F → TenantQuotaLimiter
  new_quota default_capacity default_refill_rate = record {
    tenant_limiters = [];
    default_capacity = default_capacity;
    default_refill_rate = default_refill_rate;
  }

  unfoldable pub set_tenant_quota : ℕ → Text → ℕ → f.F → TenantQuotaLimiter → TenantQuotaLimiter
  set_tenant_quota now tenant_id capacity refill_rate_per_sec s = record s {
    tenant_limiters = insert tenant_id (new f now capacity refill_rate_per_sec) s.tenant_limiters;
  }

  abbrev pub or_new : Option (TokenBucketLimiter f) → TokenBucketLimiter f → TokenBucketLimiter f
  or_new none limiter = limiter
  or_new (some limiter) default = limiter

  -- The readings of the clock at the making of the bucket, if it is made, and at the call.
  pub record Reading : Type 0 where
    pub created : ℕ
    pub now : ℕ

  abbrev pub tenant_bucket : Reading → Text → TenantQuotaLimiter → TokenBucketLimiter f
  tenant_bucket at tenant_id s =
      or_new (get tenant_id s.tenant_limiters)
        (new f at.created s.default_capacity s.default_refill_rate)

  unfoldable pub try_allow : Reading → Text → TenantQuotaLimiter → Bool × TenantQuotaLimiter
  try_allow at tenant_id s =
      let tried = try_acquire f at.now 1 (tenant_bucket at tenant_id s) in
      (tried.0, record s { tenant_limiters = insert tenant_id tried.1 s.tenant_limiters })

  unfoldable pub tenant_count : TenantQuotaLimiter → ℕ
  tenant_count s = length s.tenant_limiters

  unfoldable pub has_tenant_quota : Text → TenantQuotaLimiter → Bool
  has_tenant_quota tenant_id s = contains_key tenant_id s.tenant_limiters
