-- ===== src/Limiter/Isolation.antt =====
-- The tenants do not see one another.
use caminus.Prelude.{
  ℕ, ◌≡◌, refl, ap, ◌∙◌, Bool, Option, some, List, [], ◌∷◌, if◌then◌else◌, Bool-cases, inl, inr,
  arith,
}
use caminus.Text.Defs.{Text, text_eq, text_beq, text_beq_iff}
use caminus.Dict.Defs.{get, insert}
use caminus.Dict.Laws.{get-insert}
use caminus.Limiter.Float.{Float}
use caminus.Limiter.Bucket.{TokenBucketLimiter, new, try_acquire}
use caminus.Limiter.Quota.{TenantQuotaLimiter, or_new, Reading, tenant_bucket, try_allow}

-- The entries of one tenant, in their order.
abbrev pub of_tenant {ℓ} : {A : Type ℓ} → Text → List (Text × A) → List A
of_tenant t [] = []
of_tenant t ((tenant, a) ∷ entries) =
    if text_beq tenant t then a ∷ of_tenant t entries else of_tenant t entries

module _ (f : Float) where
  -- The answers to calls of all tenants, each with its tenant.
  unfoldable pub answers : TenantQuotaLimiter f → List (Text × Reading f) → List (Text × Bool)
  answers s [] = []
  answers s ((tenant, at) ∷ calls) =
      let tried = try_allow f at tenant s in (tenant, tried.0) ∷ answers tried.1 calls

  -- The answers of one bucket, if it is there, to its tenant's calls.
  unfoldable pub alone : ℕ → f.F → Option (TokenBucketLimiter f) → List (Reading f) → List Bool
  alone capacity rate bucket [] = []
  alone capacity rate bucket (at ∷ calls) =
      let tried = try_acquire f at.now 1 (or_new f bucket (new f at.created capacity rate)) in
      tried.0 ∷ alone capacity rate (some tried.1) calls

  -- Whatever calls of all tenants come, and however they interleave, a tenant gets the answers that
  -- its own bucket alone gives to its own calls: that of its quota, or one that is made at its first
  -- call with the defaults.
  pub answers-alone :
      (s : TenantQuotaLimiter f) (t : Text) (calls : List (Text × Reading f))
      → of_tenant t (answers s calls)
        ≡ alone s.default_capacity s.default_refill_rate
            (get t s.tenant_limiters)
            (of_tenant t calls)
  unfolding answers alone try_allow
  answers-alone s t [] = refl
  answers-alone s t ((tenant, at) ∷ calls) =
      let tried = try_acquire f at.now 1 (tenant_bucket f at tenant s) in
      let s' : TenantQuotaLimiter f = record s {
        tenant_limiters = insert tenant tried.1 s.tenant_limiters;
      } in
      let ih = answers-alone s' t calls in
      let found = get-insert tenant t tried.1 s.tenant_limiters in
      let rest = alone s.default_capacity s.default_refill_rate in
      elim (Bool-cases (text_beq tenant t)) [
        | inl mine ↦
            let now_there : get t (insert tenant tried.1 s.tenant_limiters) ≡ some tried.1 =
              ground (arith, found, mine) in
            rw mine (
              ap (◌∷◌ tried.0) (ih ∙ ap (λ b. rest b (of_tenant t calls)) now_there)
              ∙ ap
                  (λ k.
                    let r = try_acquire f at.now 1 (tenant_bucket f at k s) in
                    r.0 ∷ rest (some r.1) (of_tenant t calls))
                  ((text_beq_iff tenant t).0 mine))
        | inr other ↦
            let as_before : get t (insert tenant tried.1 s.tenant_limiters)
                ≡ get t s.tenant_limiters =
              ground (arith, found, other) in
            rw other (ih ∙ ap (λ b. rest b (of_tenant t calls)) as_before)
      ]
