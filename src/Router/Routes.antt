-- ===== src/Router/Routes.antt =====
-- What a run of events through the router by tenant gives each tenant.
use caminus.Prelude.{
  ℕ, ◌≡◌, refl, ap, ◌∙◌, Bool, Option, List, [], ◌∷◌, map, leb, ◌%◌, if◌then◌else◌, Bool-cases, inl,
  inr,
}
use mathlib.Core.Path.{ap₂}
use caminus.Text.Defs.{Text, text_beq, text_beq_iff}
use caminus.Dict.Defs.{get}
use caminus.Text.Defs.{text_eq}
use caminus.Json.Value.{Value}
use caminus.Event.{ChangeEvent}
use caminus.Limiter.Float.{Float}
use caminus.Limiter.Quota.{Reading, try_allow}
use caminus.Limiter.Isolation.{of_tenant, answers, alone, answers-alone}
use caminus.Router.Defs.{PartitionRouter, tenant_prefix, routing_text, tenant_id, resolve_partition}
use caminus.Router.Tenants.{TenantRouter, if_allowed, route_event}

module _ (print : Value → Text) (hash : Text → ℕ) (f : Float) where
  -- The events that are routed in turn, each with its tenant.
  unfoldable pub routes :
      TenantRouter print hash f → List (Reading f × ChangeEvent) → List (Text × Option ℕ)
  routes s [] = []
  routes s ((at, event) ∷ events) =
      let routed = route_event print hash f at event s in
      (tenant_id event, routed.0) ∷ routes routed.1 events

  abbrev pub calls_of : List (Reading f × ChangeEvent) → List (Text × Reading f)
  calls_of [] = []
  calls_of ((at, event) ∷ events) = (tenant_id event, at) ∷ calls_of events

  -- The partition of a tenant's events.
  abbrev pub partition_of : ℕ → Text → ℕ
  partition_of n tenant = if leb n 1 then 0 else hash tenant % n

  abbrev pub to_partition : ℕ → Bool → Option ℕ
  to_partition partition allowed = if_allowed print hash f allowed partition

  of_its_tenant :
      (router : PartitionRouter) (event : ChangeEvent)
      → router.strategy ≡ tenant_prefix
      → resolve_partition print hash router event
        ≡ partition_of router.num_partitions (tenant_id event)
  unfolding resolve_partition routing_text
  of_its_tenant router event e =
      ap
        (λ st.
          if leb router.num_partitions 1
          then 0
          else hash (routing_text print hash st event) % router.num_partitions)
        e

  routes-answers :
      (s : TenantRouter print hash f) (t : Text) (events : List (Reading f × ChangeEvent))
      → s.router.strategy ≡ tenant_prefix
      → of_tenant t (routes s events)
        ≡ map
            (to_partition (partition_of s.router.num_partitions t))
            (of_tenant t (answers f s.quota_limiter (calls_of events)))
  unfolding routes answers route_event
  routes-answers s t [] by_tenant = refl
  routes-answers s t ((at, event) ∷ events) by_tenant =
      let allowed = try_allow f at (tenant_id event) s.quota_limiter in
      let ih = routes-answers (record s { quota_limiter = allowed.1 }) t events by_tenant in
      elim (Bool-cases (text_beq (tenant_id event) t)) [
        | inl mine ↦
            let partition =
              of_its_tenant s.router event by_tenant
              ∙ ap (partition_of s.router.num_partitions) ((text_beq_iff _ t).0 mine) in
            rw mine (ap₂ (λ p l. to_partition p allowed.0 ∷ l) partition ih)
        | inr other ↦ rw other ih
      ]

  -- In a router whose strategy is the tenant's prefix, as `new` makes it: whatever events come, and
  -- however the tenants interleave, a tenant's events get, in their order, the one partition that the
  -- hash of the tenant gives wherever the tenant's own bucket alone grants them, and none where it
  -- does not.
  pub routes-alone :
      (s : TenantRouter print hash f) (t : Text) (events : List (Reading f × ChangeEvent))
      → s.router.strategy ≡ tenant_prefix
      → of_tenant t (routes s events)
        ≡ map (to_partition (partition_of s.router.num_partitions t)) (
            alone f s.quota_limiter.default_capacity s.quota_limiter.default_refill_rate
              (get t s.quota_limiter.tenant_limiters)
              (of_tenant t (calls_of events)))
  routes-alone s t events by_tenant =
      routes-answers s t events by_tenant
      ∙ ap (map (to_partition (partition_of s.router.num_partitions t)))
          (answers-alone f s.quota_limiter t (calls_of events))
