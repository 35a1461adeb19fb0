-- ===== src/Assessment/Updated.antt =====
-- A metric configuration that is changed in service/orchestrator/metrics.go, as the assessment of
-- service/assessment/assessment.go sees it once it has received the event.
use mathlib.Core.Path.{ap₂}
use clouditor.Prelude.{ℕ, String, ◌≡◌, refl, sym, ap, ◌∙◌, true, false, Option, none, some, arith}
use clouditor.Status.{Result, ok}
use clouditor.Auth.{AuthorizationStrategy, access_read}
use clouditor.Validate.{Rules}
use clouditor.Policies.{MetricChangeEvent, type_config_changed}
use clouditor.Orchestrator.Metrics.{
  MetricConfiguration, GetMetricConfigurationRequest, UpdateMetricConfigurationRequest, Tables,
  Service,
}
use clouditor.Orchestrator.Metrics.Configurations.{
  configuration_conds, saved_conds, get_metric_configuration, update_metric_configuration,
}
use clouditor.Orchestrator.Metrics.Configurations.Access.{update_metric_configuration-Updated}
use clouditor.Assessment.{
  Caches, metric_configuration, keep_configuration, configuration_key, handle_event,
}
use clouditor.Assessment.Configuration.{metric_configuration-handle_event}

abbrev pub changed : {V : Type 0} → UpdateMetricConfigurationRequest V → MetricChangeEvent
changed req = record {
  type = type_config_changed;
  metric_id = req.metric_id;
  cloud_service_id = req.cloud_service_id;
}

module _ {D V Ctx : Type 0} (tables : Tables D V) (authz : AuthorizationStrategy Ctx)
    (reads : Rules GetMetricConfigurationRequest) where
  -- The orchestrator's client of an assessment with the context `ctx`.
  abbrev pub orchestrator_client :
      Option Ctx → Service D V → String → String → Result (MetricConfiguration V)
  orchestrator_client ctx s cloud_service_id metric_id =
      (get_metric_configuration tables authz ctx reads
        (some (record { cloud_service_id = cloud_service_id; metric_id = metric_id })) s).0

  client-saved :
      (ctx : Option Ctx) (s : Service D V) (cloud_service_id metric_id : String)
      (config : MetricConfiguration V)
      → reads (record { cloud_service_id = cloud_service_id; metric_id = metric_id }) ≡ none
      → authz.check_access ctx access_read cloud_service_id ≡ true
      → tables.configurations.get (configuration_conds cloud_service_id metric_id) s.db ≡ ok config
      → orchestrator_client ctx s cloud_service_id metric_id ≡ ok config
  unfolding get_metric_configuration
  client-saved ctx s cloud_service_id metric_id config valid access found = ground arith

  -- An update of a configuration for the service and the metric that it names itself: once the
  -- assessment has handled the update's event, it works with the updated configuration, whatever it
  -- has cached, if the database reads what it has saved and the assessment may read the service.
  pub metric_configuration-update_metric_configuration :
      {Q : Type 0} (updates : Rules (UpdateMetricConfigurationRequest V))
      (ctx assessment : Option Ctx) (time now later : ℕ) (req : UpdateMetricConfigurationRequest V)
      (s t : Service D V) (res : MetricConfiguration V) (caches : Caches (MetricConfiguration V) Q)
      → ((config : MetricConfiguration V) (db db' : D)
          → tables.configurations.save config
              (saved_conds config.cloud_service_id config.metric_id)
              db
            ≡ (ok tt, db')
          → tables.configurations.get
              (configuration_conds config.cloud_service_id config.metric_id)
              db'
            ≡ ok config)
      → req.configuration.cloud_service_id ≡ req.cloud_service_id
      → req.configuration.metric_id ≡ req.metric_id
      → reads (record { cloud_service_id = req.cloud_service_id; metric_id = req.metric_id }) ≡ none
      → authz.check_access assessment access_read req.cloud_service_id ≡ true
      → update_metric_configuration tables authz ctx updates time (some req) s ≡ (ok res, t)
      → (metric_configuration
          (orchestrator_client assessment t)
          now
          later
          req.cloud_service_id
          req.metric_id
          (handle_event (changed req) caches).cached_configurations).0
        ≡ ok res
  unfolding keep_configuration
  metric_configuration-update_metric_configuration updates ctx assessment time now later req s t res
        caches saves service metric valid access h =
      let updated =
        update_metric_configuration-Updated tables authz ctx updates time req s t res h in
      let config = record req.configuration { updated_at = time; is_default = false } in
      let written =
        ap (λ conds. tables.configurations.save config conds s.db) (ap₂ saved_conds service metric)
        ∙ updated.written in
      let found =
        ap (λ conds. tables.configurations.get conds t.db)
          (ap₂ configuration_conds (sym service) (sym metric))
        ∙ saves config s.db t.db written
        ∙ ap ok (sym updated.result) in
      let client = orchestrator_client assessment t in
      ap (λ p. p.0) (metric_configuration-handle_event (changed req) client now later caches refl)
      ∙ ap
          (λ r.
            (keep_configuration later (configuration_key req.cloud_service_id req.metric_id) r
              (handle_event (changed req) caches).cached_configurations).0)
          (client-saved assessment t req.cloud_service_id req.metric_id res valid access found)
