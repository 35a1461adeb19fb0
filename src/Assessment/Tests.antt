-- ===== src/Assessment/Tests.antt =====
-- The cache of metric configurations at concrete times.
use clouditor.Prelude.{ℕ, String, ◌≡◌, refl, [], ◌∷◌, arith}
use clouditor.Prelude.Maps.{Map, lookup}
use clouditor.Status.{Result, ok}
use clouditor.Policies.{MetricChangeEvent, type_config_changed}
use clouditor.Assessment.{CachedConfiguration, Caches, metric_configuration}
use clouditor.Assessment.Configuration.{metric_configuration-stale}

-- A configuration is a number here.
abbrev entry : CachedConfiguration ℕ
entry = record { cached_at = 5; metric_configuration = 1 }

abbrev cache : Map (CachedConfiguration ℕ)
cache = ("s1-m1", entry) ∷ []

abbrev client : String → String → Result ℕ
client service metric = ok 2

abbrev later_client : String → String → Result ℕ
later_client service metric = ok 3

-- A day later.
metric_configuration-stale_example :
    metric_configuration client 86400000000000 86400000000001 "s1" "m1" cache ≡ (ok 1, cache)
unfolding lookup
metric_configuration-stale_example =
    metric_configuration-stale client 86400000000000 86400000000001 "s1" "m1" cache entry refl
      (omega arith)

abbrev changed : MetricChangeEvent
changed = record { type = type_config_changed; metric_id = "m1"; cloud_service_id = "s1" }

abbrev caches : Caches ℕ ℕ
caches = record { cached_configurations = cache; queries = ("m1-s1-h", 7) ∷ [] }
