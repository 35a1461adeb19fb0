-- ===== src/Orchestrator/Metrics/Configurations/Access.antt =====
-- Whose metric configurations a caller of service/orchestrator/metrics.go can change.
use clouditor.Prelude.{ℕ, ◌≡◌, true, false, Option, none, some, [], ◌∷◌, ◌++◌, arith}
use clouditor.Status.{ok}
use clouditor.Auth.{AuthorizationStrategy, access_read}
use clouditor.Validate.{Rules}
use clouditor.Policies.{type_config_changed}
use clouditor.Orchestrator.Metrics.{
  MetricConfiguration, UpdateMetricConfigurationRequest, Tables, Service,
}
use clouditor.Orchestrator.Metrics.Configurations.{saved_conds, update_metric_configuration}

module _ {D V Ctx : Type 0} (tables : Tables D V) (authz : AuthorizationStrategy Ctx)
    (ctx : Option Ctx) where
  -- What has been checked and done when a metric configuration has been updated.
  pub record Updated (rules : Rules (UpdateMetricConfigurationRequest V)) (now : ℕ)
      (req : UpdateMetricConfigurationRequest V) (s t : Service D V) (res : MetricConfiguration V)
      : Type 0 where
    pub valid : rules req ≡ none
    pub access : authz.check_access ctx access_read req.cloud_service_id ≡ true
    pub result : res ≡ record req.configuration { updated_at = now; is_default = false }
    pub written :
        tables.configurations.save
          (record req.configuration { updated_at = now; is_default = false })
          (saved_conds req.cloud_service_id req.metric_id)
          s.db
        ≡ (ok tt, t.db)
    pub events :
        t.events
        ≡ s.events
          ++ record {
            type = type_config_changed;
            metric_id = req.metric_id;
            cloud_service_id = req.cloud_service_id;
          }
            ∷ []

  -- A metric configuration is updated only for a valid request of a caller that may read the service
  -- which the request names. It is saved as the request gives it, with the service and the metric
  -- that the configuration itself names, and one event tells of the service and the metric that the
  -- request names.
  pub update_metric_configuration-Updated :
      (rules : Rules (UpdateMetricConfigurationRequest V)) (now : ℕ)
      (req : UpdateMetricConfigurationRequest V) (s t : Service D V) (res : MetricConfiguration V)
      → update_metric_configuration tables authz ctx rules now (some req) s ≡ (ok res, t)
      → Updated rules now req s t res
  unfolding update_metric_configuration
  update_metric_configuration-Updated rules now req s t res h = record {
    valid = ground arith;
    access = ground arith;
    result = ground arith;
    written = ground arith;
    events = ground arith;
  }
