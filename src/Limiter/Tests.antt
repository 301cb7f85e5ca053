-- ===== src/Limiter/Tests.antt =====
-- Buckets at work, and the theorems about them.
use caminus.Prelude.{
  ℕ, ◌^◌, ◌*◌, ◌-◌, some, ◌⊎◌, ◌≤◌, ◌≡◌, refl, true, false, none, List, [], ◌∷◌, arith,
}
use caminus.Text.Defs.{Text, codes, text_beq}
use caminus.Dict.Defs.{get, insert}
use caminus.Limiter.Bucket.{
  TokenBucketLimiter, new, refill, take_tokens, try_acquire, wait_time, acquire, acquired, sleeping,
  panicked,
}
use caminus.Limiter.Bounds.{granted_sum, try_all, burst, acquire_too_many}
use caminus.Limiter.Quota.{
  TenantQuotaLimiter, new_quota, set_tenant_quota, Reading, try_allow, tenant_count,
  has_tenant_quota,
}
use caminus.Limiter.Isolation.{of_tenant, answers, alone}
use caminus.Limiter.Reset.{answers-set_tenant_quota}
use caminus.Limiter.Instances.{billionths, billionths_floors}
use caminus.Limiter.Floors.{sum_counts, acquire_all, acquire_all-ends}

program : Unit {0}
unfolding text_beq get insert refill take_tokens try_acquire wait_time acquire try_all
    set_tenant_quota try_allow tenant_count has_tenant_quota answers alone
program = tt

abbrev requests : List ℕ
requests = 5 ∷ 4 ∷ 3 ∷ 1 ∷ []

abbrev bucket : TokenBucketLimiter billionths
bucket = new billionths 0 10 (2 * 10 ^ 9)

burst_of_four : try_all billionths 0 requests bucket ≡ true ∷ true ∷ false ∷ true ∷ []
unfolding program
burst_of_four = refl

-- A bucket with more tokens than its capacity, as none that is made by `new` has.
abbrev overfull : TokenBucketLimiter billionths
overfull = record bucket { tokens = 30 * 10 ^ 9 }

burst_example : granted_sum (try_all billionths 7 requests overfull) requests ≤ 10
burst_example =
    burst billionths 7 requests overfull (omega arith) tt
      (omega arith, (omega arith, (omega arith, (omega arith, tt))))

acquire_too_many_example :
    (t : TokenBucketLimiter billionths) × ((acquire billionths (0 ∷ 10 ^ 9 ∷ []) 11 bucket
        ≡ sleeping t)
      ⊎ ((acquire billionths (0 ∷ 10 ^ 9 ∷ []) 11 bucket ≡ panicked t)
          × (wait_time billionths 11 t ≡ none)))
acquire_too_many_example =
    acquire_too_many billionths (0 ∷ 10 ^ 9 ∷ []) 11 bucket (omega arith) (omega arith)

abbrev quotas : TenantQuotaLimiter billionths
quotas = set_tenant_quota billionths 0 (codes "tenant-A") 1 (10 ^ 9) (new_quota billionths 2 0)

abbrev at_once : Reading billionths
at_once = record { created = 0; now = 0 }

abbrev calls : List (Text × Reading billionths)
calls =
    (codes "tenant-A", at_once)
    ∷ (codes "tenant-B", at_once)
    ∷ (codes "tenant-A", at_once)
    ∷ (codes "tenant-B", at_once)
    ∷ (codes "tenant-B", at_once)
    ∷ []

quota_of_a : of_tenant (codes "tenant-A") (answers billionths quotas calls) ≡ true ∷ false ∷ []
unfolding program
quota_of_a = refl

quota_of_b :
    of_tenant (codes "tenant-B") (answers billionths quotas calls) ≡ true ∷ true ∷ false ∷ []
unfolding program
quota_of_b = refl

abbrev within : List (List ℕ × ℕ)
within = (0 ∷ 5 ∷ [], 4) ∷ (3 ∷ [], 5) ∷ (1 ∷ [], 1) ∷ []

acquire_all-ends_example :
    (s : TokenBucketLimiter billionths) × (acquire_all billionths within bucket ≡ acquired s)
    × (billionths.ge s.tokens (billionths.of_u32 (10 - sum_counts within)) ≡ true)
acquire_all-ends_example =
    acquire_all-ends billionths billionths_floors 0 10 (2 * 10 ^ 9) within (omega arith)
      (omega arith) tt (tt, (tt, (tt, tt)))

answers-set_tenant_quota_example :
    of_tenant
      (codes "tenant-A")
      (answers billionths (set_tenant_quota billionths 0 (codes "tenant-A") 2 0 quotas) calls)
    ≡ alone billionths 2 0 (some (new billionths 0 2 0)) (of_tenant (codes "tenant-A") calls)
unfolding text_beq set_tenant_quota
answers-set_tenant_quota_example =
    answers-set_tenant_quota billionths quotas (codes "tenant-A") (codes "tenant-A") 0 2 0 calls
