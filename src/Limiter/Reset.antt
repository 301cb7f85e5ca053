-- ===== src/Limiter/Reset.antt =====
-- What a change of a tenant's quota does.
use caminus.Prelude.{
  ℕ, ◌≡◌, sym, ap, ◌∙◌, Bool, Option, some, List, Bool-cases, inl, inr, arith, if◌then◌else◌,
}
use caminus.Text.Defs.{Text, text_eq, text_beq}
use caminus.Dict.Defs.{get, insert}
use caminus.Dict.Laws.{get-insert}
use caminus.Limiter.Float.{Float}
use caminus.Limiter.Bucket.{TokenBucketLimiter, new}
use caminus.Limiter.Quota.{TenantQuotaLimiter, Reading, set_tenant_quota}
use caminus.Limiter.Isolation.{of_tenant, answers, alone, answers-alone}

module _ (f : Float) where
  -- After the quota of a tenant is set, it gets the answers of a new and full bucket with that quota,
  -- whatever it took before, and every other tenant gets the answers that it would have got.
  pub answers-set_tenant_quota :
      (s : TenantQuotaLimiter f) (tenant t : Text) (now capacity : ℕ) (rate : f.F)
      (calls : List (Text × Reading f))
      → of_tenant t (answers f (set_tenant_quota f now tenant capacity rate s) calls) ≡ (
          if text_beq tenant t
          then alone f s.default_capacity s.default_refill_rate
              (some (new f now capacity rate))
              (of_tenant t calls)
          else of_tenant t (answers f s calls))
  unfolding set_tenant_quota
  answers-set_tenant_quota s tenant t now capacity rate calls =
      let bucket = new f now capacity rate in
      let found = get-insert tenant t bucket s.tenant_limiters in
      let after : Option (TokenBucketLimiter f) → List Bool =
        λ b. alone f s.default_capacity s.default_refill_rate b (of_tenant t calls) in
      answers-alone f (set_tenant_quota f now tenant capacity rate s) t calls
      ∙ elim (Bool-cases (text_beq tenant t)) [
        | inl mine ↦
            let now_there : get t (insert tenant bucket s.tenant_limiters) ≡ some bucket =
              ground (arith, found, mine) in
            rw mine (ap after now_there)
        | inr other ↦
            let as_before : get t (insert tenant bucket s.tenant_limiters)
                ≡ get t s.tenant_limiters =
              ground (arith, found, other) in
            rw other (ap after as_before ∙ sym (answers-alone f s t calls))
      ]
