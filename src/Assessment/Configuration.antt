-- ===== src/Assessment/Configuration.antt =====
-- Which metric configuration an assessment works with.
use clouditor.Prelude.{
  ℕ, ◌+◌, ◌≤◌, String, ◌≡◌, refl, ap, ◌∙◌, false, none, some, ltb, arith, str_eq_refl,
  if◌then◌else◌,
}
use clouditor.Prelude.Maps.{Map, lookup, put, lookup-put, lookup-remove}
use clouditor.Status.{Result, ok}
use clouditor.Policies.{MetricChangeEvent, type_config_changed}
use clouditor.Assessment.{
  CachedConfiguration, Caches, eviction_time, configuration_key, keep_configuration,
  metric_configuration, handle_event,
}

module _ {Conf : Type 0} where
  lookup-configured :
      (client : String → String → Result Conf) (now later : ℕ) (service metric : String)
      (cache : Map (CachedConfiguration Conf)) (entry : CachedConfiguration Conf)
      → lookup (configuration_key service metric) cache ≡ some entry
      → ltb (now + eviction_time) entry.cached_at ≡ false
      → metric_configuration client now later service metric cache
        ≡ (ok entry.metric_configuration, cache)
  unfolding metric_configuration
  lookup-configured client now later service metric cache entry found fresh = ground arith

  lookup-missing :
      (client : String → String → Result Conf) (now later : ℕ) (service metric : String)
      (cache : Map (CachedConfiguration Conf))
      → lookup (configuration_key service metric) cache ≡ none
      → metric_configuration client now later service metric cache
        ≡ keep_configuration later (configuration_key service metric) (client service metric) cache
  unfolding metric_configuration
  lookup-missing client now later service metric cache found = ground arith

  -- A cached configuration never expires by time: an entry whose time is not in the future is given
  -- back at every later time, however late, and the orchestrator is not asked.
  pub metric_configuration-stale :
      (client : String → String → Result Conf) (now later : ℕ) (service metric : String)
      (cache : Map (CachedConfiguration Conf)) (entry : CachedConfiguration Conf)
      → lookup (configuration_key service metric) cache ≡ some entry
      → entry.cached_at ≤ now
      → metric_configuration client now later service metric cache
        ≡ (ok entry.metric_configuration, cache)
  metric_configuration-stale client now later service metric cache entry found past =
      lookup-configured client now later service metric cache entry found (ground arith)

  keep_configuration-ok :
      (later : ℕ) (key : String) (cache : Map (CachedConfiguration Conf)) (config : Conf)
      {r : Result Conf}
      → r ≡ ok config
      → keep_configuration later key r cache
        ≡ (ok config, put key (record { cached_at = later; metric_configuration = config }) cache)
  unfolding keep_configuration
  keep_configuration-ok later key cache config h = rw h

  -- A configuration that a call has fetched is what the next call gives back, whatever the
  -- orchestrator says by then, if the clock has not gone back.
  pub metric_configuration-metric_configuration :
      (client other : String → String → Result Conf) (now later now' later' : ℕ)
      (service metric : String) (cache : Map (CachedConfiguration Conf)) (config : Conf)
      → lookup (configuration_key service metric) cache ≡ none
      → client service metric ≡ ok config
      → later ≤ now'
      → (metric_configuration other now' later' service metric
          (metric_configuration client now later service metric cache).1).0
        ≡ ok config
  metric_configuration-metric_configuration client other now later now' later' service metric cache
        config found asked past =
      let entry : CachedConfiguration Conf = record {
        cached_at = later;
        metric_configuration = config;
      } in
      let key : String = configuration_key service metric in
      let first : metric_configuration client now later service metric cache
          ≡ (ok config, put key entry cache) =
        lookup-missing client now later service metric cache found
        ∙ keep_configuration-ok later key cache config asked in
      ap (λ p. (metric_configuration other now' later' service metric p.1).0) first
      ∙ ap (λ p. p.0)
          (metric_configuration-stale other now' later' service metric (put key entry cache) entry
            (lookup-put key key entry cache
              ∙ ap (λ b. if b then some entry else lookup key cache) (str_eq_refl key))
            past)

  handle_event-removed :
      {Q : Type 0} (event : MetricChangeEvent) (s : Caches Conf Q)
      → event.type ≡ type_config_changed
      → lookup
          (configuration_key event.cloud_service_id event.metric_id)
          (handle_event event s).cached_configurations
        ≡ none
  unfolding handle_event
  handle_event-removed event s changed = rw changed (
      lookup-remove (configuration_key event.cloud_service_id event.metric_id)
        (configuration_key event.cloud_service_id event.metric_id) s.cached_configurations
      ∙ rw (str_eq_refl (configuration_key event.cloud_service_id event.metric_id)) refl)

  -- After an event that a configuration has changed, the next call for its service and metric asks
  -- the orchestrator, gives back its answer, and keeps it.
  pub metric_configuration-handle_event :
      {Q : Type 0} (event : MetricChangeEvent) (client : String → String → Result Conf)
      (now later : ℕ) (s : Caches Conf Q)
      → event.type ≡ type_config_changed
      → metric_configuration client now later event.cloud_service_id event.metric_id
          (handle_event event s).cached_configurations
        ≡ keep_configuration later
            (configuration_key event.cloud_service_id event.metric_id)
            (client event.cloud_service_id event.metric_id)
            (handle_event event s).cached_configurations
  metric_configuration-handle_event event client now later s changed =
      lookup-missing client now later event.cloud_service_id event.metric_id
        (handle_event event s).cached_configurations (handle_event-removed event s changed)
