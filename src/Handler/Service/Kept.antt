-- ===== src/Handler/Service/Kept.antt =====
-- What the collector's goroutine leaves of a service (internal/handler/handler.go).
use go_loadbalancer.Prelude.{◌≡◌, refl, Option, none, some}
use go_loadbalancer.Prelude.Slots.{Holds}
use go_loadbalancer.Collector.{Collector, receive}
use go_loadbalancer.Handler.Service.{Service, with_collector, collected}

with_collector-Kept :
    (s : Service) (c : Option Collector)
    → Holds
        (λ t. (t.store ≡ s.store) × (t.reserved ≡ s.reserved) × (t.requests ≡ s.requests))
        (with_collector s c)
with_collector-Kept s none = tt
with_collector-Kept s (some c) = (refl, refl, refl)

pub collected-Kept :
    (s : Service) (c : Option Collector)
    → Holds
        (λ t. (t.store ≡ s.store) × (t.reserved ≡ s.reserved) × (t.requests ≡ s.requests))
        (collected s c)
collected-Kept s none = tt
collected-Kept s (some c) = with_collector-Kept s (receive c)
