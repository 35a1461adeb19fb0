-- ===== src/Policies.antt =====
-- The cache of prepared queries in policies/rego.go: queryCache with Get, Empty and Evict, its keys,
-- and HandleMetricEvent. A prepared query is of a type Q of Rego's library.
pub mod Evicted
pub mod Names
pub mod Query
pub mod Eval
use Prim.Native.Char.{code}
use Prim.Native.String.{◌++◌ as str_append}
use clouditor.Prelude.{
  String, Bool, true, false, ◌&&◌, Option, none, some, List, [], ◌∷◌, ◌==ℕ◌, if◌then◌else◌,
}
use clouditor.Prelude.Maps.{Map, lookup, put}
use clouditor.Status.{Error, Result, ok, err, panic}
use clouditor.Exec.{Exec}

pub data MetricEventType : Type 0 where
  type_unspecified type_config_changed type_implementation_changed type_metadata_changed :
      MetricEventType

-- orchestrator.MetricChangeEvent
pub record MetricChangeEvent : Type 0 where
  pub type : MetricEventType
  pub metric_id : String
  pub cloud_service_id : String

-- strings.HasPrefix
unfoldable pub has_prefix : String → String → Bool
has_prefix s String.[] = true
has_prefix String.[] (String.◌∷◌ c t) = false
has_prefix (String.◌∷◌ d s) (String.◌∷◌ c t) = code d ==ℕ code c && has_prefix s t

-- fmt.Sprintf("%s-%s-%s", metricID, serviceID, config.Hash())
abbrev pub query_key : String → String → String → String
query_key metric_id service_id hash =
    str_append metric_id (str_append "-" (str_append service_id (str_append "-" hash)))

module _ {Q : Type 0} where
  -- What orElse returned: a query is kept, an error is passed on.
  unfoldable pub keep_query : String → Result Q → Exec (Map Q) Q
  keep_query key (ok query) cache = (ok query, put key query cache)
  keep_query key (err e) cache = (err e, cache)
  keep_query key panic cache = (panic, cache)

  -- queryCache.Get
  unfoldable pub get : String → (String → Result Q) → Exec (Map Q) Q
  unfolding keep_query
  get key or_else cache = elim (lookup key cache) [
    | some query ↦ (ok query, cache)
    | none ↦ keep_query key (or_else key) cache
  ]

  -- queryCache.Empty
  unfoldable pub empty : Map Q → Map Q
  empty cache = []

  -- queryCache.Evict
  unfoldable pub evict : String → Map Q → Map Q
  unfolding has_prefix
  evict metric [] = []
  evict metric ((key, query) ∷ rest) =
      let kept = evict metric rest in if has_prefix key metric then kept else (key, query) ∷ kept

  -- HandleMetricEvent evicts whatever the type of the event is.
  unfoldable pub handle_metric_event : MetricChangeEvent → Map Q → Map Q
  handle_metric_event event cache = evict event.metric_id cache
