-- ===== src/Assessment.antt =====
-- The metric configurations of service/assessment/assessment.go: the cache that
-- MetricConfiguration reads and fills, and handleMetricEvent. Times are nanoseconds; the
-- orchestrator's client is an argument of each call, since its answers change.
pub mod Configuration
pub mod Assess
pub mod Handle
pub mod Updated
mod Tests
use Prim.Native.String.{◌++◌ as str_append}
use clouditor.Prelude.{
  ℕ, ◌+◌, ◌*◌, String, Bool, true, false, Option, none, some, List, [], ◌∷◌, ltb, if◌then◌else◌,
}
use clouditor.Prelude.Maps.{Map, lookup, put, remove}
use clouditor.Status.{Error, Result, ok, err, panic, wrapped}
use clouditor.Exec.{Exec}
use clouditor.Policies.{
  MetricChangeEvent, MetricEventType, type_unspecified, type_config_changed,
  type_implementation_changed, type_metadata_changed, handle_metric_event,
}

-- EvictionTime: one hour
abbrev pub eviction_time : ℕ
eviction_time = 3600 * 1000000000

-- Conf is the message MetricConfiguration.
pub record CachedConfiguration (Conf : Type 0) : Type 0 where
  pub cached_at : ℕ
  pub metric_configuration : Conf

-- fmt.Sprintf("%s-%s", cloudServiceID, metricID)
abbrev pub configuration_key : String → String → String
configuration_key cloud_service_id metric_id =
    str_append cloud_service_id (str_append "-" metric_id)

-- The fields of Service that an event changes: the configurations, and the queries of the policy
-- evaluation.
pub record Caches (Conf Q : Type 0) : Type 0 where
  pub cached_configurations : Map (CachedConfiguration Conf)
  pub queries : Map Q

module _ {Conf : Type 0} where
  -- `!ok || cache.cachedAt.After(time.Now().Add(EvictionTime))`
  unfoldable pub must_fetch : ℕ → Option (CachedConfiguration Conf) → Bool
  must_fetch now none = true
  must_fetch now (some entry) = ltb (now + eviction_time) entry.cached_at

  -- What the client returned: a configuration is kept with the time of `later`.
  unfoldable pub keep_configuration :
      ℕ → String → Result Conf → Exec (Map (CachedConfiguration Conf)) Conf
  keep_configuration later key (ok config) cache =
      (ok config, put key (record { cached_at = later; metric_configuration = config }) cache)
  keep_configuration later key (err e) cache =
      (err (wrapped "could not retrieve metric configuration" e), cache)
  keep_configuration later key panic cache = (panic, cache)

  -- The entry found, or what the client returns. `now` and `later` are the two calls of time.Now.
  unfoldable pub metric_configuration :
      (String → String → Result Conf)
      → ℕ
      → ℕ
      → String
      → String
      → Exec (Map (CachedConfiguration Conf)) Conf
  unfolding must_fetch keep_configuration
  metric_configuration client now later cloud_service_id metric_id cache =
      let key = configuration_key cloud_service_id metric_id in
      elim (lookup key cache) [
        | none ↦ keep_configuration later key (client cloud_service_id metric_id) cache
        | some entry ↦
            if must_fetch now (some entry)
            then keep_configuration later key (client cloud_service_id metric_id) cache
            else (ok entry.metric_configuration, cache)
      ]

abbrev pub is_config_changed : MetricEventType → Bool
is_config_changed type_config_changed = true
is_config_changed _ = false

unfoldable pub handle_event : {Conf Q : Type 0} → MetricChangeEvent → Caches Conf Q → Caches Conf Q
unfolding handle_metric_event
handle_event event s = record {
  cached_configurations =
      if is_config_changed event.type
      then remove (configuration_key event.cloud_service_id event.metric_id) s.cached_configurations
      else s.cached_configurations;
  queries = handle_metric_event event s.queries;
}
