-- ===== src/Router/Tests.antt =====
-- The partition of two events, and the theorem about it.
use caminus.Prelude.{ℕ, ◌≡◌, refl, map, List, ◌∷◌, none, some, [], length}
use caminus.Text.Defs.{Text, codes, text_beq}
use caminus.Dict.Defs.{get, insert}
use caminus.Json.Value.{Value, null, string, object, field, end, get_field, as_str, entries}
use caminus.Event.{ChangeEvent, create}
use caminus.Router.Defs.{PartitionRouter, tenant_prefix, routing_text, resolve_partition}
use caminus.Limiter.Instances.{billionths}
use caminus.Limiter.Bucket.{refill, take_tokens, try_acquire}
use caminus.Limiter.Quota.{Reading, try_allow}
use caminus.Limiter.Isolation.{of_tenant, alone}
use caminus.Router.Tenants.{TenantRouter, new_router, route_event}
use caminus.Router.Routes.{routes, calls_of, to_partition, routes-alone}

program : Unit {0}
unfolding text_beq get get_field as_str entries routing_text resolve_partition insert refill
    take_tokens try_acquire try_allow alone route_event routes
program = tt

abbrev event : ChangeEvent
event = record {
  id = codes "e2";
  source_database = codes "db";
  source_table_or_collection = codes "users";
  operation = create;
  timestamp = 0;
  key = null;
  before = none;
  after = some (object (field (codes "tenant_id") (string (codes "tenant-alpha")) end));
  transaction_id = none;
  offset = codes "2";
}

abbrev other : ChangeEvent
other = record event { id = codes "e3"; source_database = codes "db2" }

abbrev router : PartitionRouter
router = record { num_partitions = 8; strategy = tenant_prefix }

abbrev printed : Value → Text
printed v = []

abbrev size : Text → ℕ
size t = length t

fourth : resolve_partition printed size router event ≡ 4
unfolding program
fourth = refl

abbrev tenant_router : TenantRouter printed size billionths
tenant_router = new_router printed size billionths 8 1 0

abbrev events : List (Reading billionths × ChangeEvent)
events =
    (record { created = 0; now = 0 }, event)
    ∷ (record { created = 0; now = 5 }, record event { after = none })
    ∷ (record { created = 0; now = 9 }, other)
    ∷ []

-- The second event of the tenant is over its quota.
routed :
    of_tenant (codes "tenant-alpha") (routes printed size billionths tenant_router events)
    ≡ some 4 ∷ none ∷ []
unfolding program
routed = refl

routes-alone_example :
    of_tenant (codes "tenant-alpha") (routes printed size billionths tenant_router events)
    ≡ map (to_partition printed size billionths 4) (
        alone billionths 1 0 none
          (of_tenant (codes "tenant-alpha") (calls_of printed size billionths events)))
unfolding program
routes-alone_example =
    routes-alone printed size billionths tenant_router (codes "tenant-alpha") events refl
