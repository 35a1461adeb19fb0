-- ===== src/Orchestrator/Metrics/Configurations.antt =====
-- The configurations of metrics in service/orchestrator/metrics.go, and the stream of its events.
pub mod Listed
pub mod Access
mod Tests
use clouditor.Prelude.{
  ℕ, String, Bool, true, false, Option, none, some, List, [], ◌∷◌, ◌++◌, if◌then◌else◌,
}
use clouditor.Prelude.Int.{ℤ, pos, negsuc}
use clouditor.Prelude.Maps.{Map, lookup, put}
use clouditor.Status.{
  Error, Result, ok, err, panic, status, not_found, internal, unknown, is_record_not_found, is_eof,
  err_permission_denied,
}
use clouditor.Exec.{Exec, pure, raise, lift, gets, modify, require, map_err, attempt, ◌>>=◌, ◌>>◌}
use clouditor.Auth.{AuthorizationStrategy, access_read}
use clouditor.Validate.{Rules, validate}
use clouditor.Query.{equals, atom, and}
use clouditor.Storage.{Conds}
use clouditor.Policies.{MetricChangeEvent, type_config_changed}
use clouditor.Orchestrator.Metrics.{
  Metric, MetricConfiguration, GetMetricConfigurationRequest, UpdateMetricConfigurationRequest,
  ListMetricConfigurationRequest, Tables, Service, database_error, configuration_error, for_service,
  on_db, notify,
}

-- "cloud_service_id = ? AND metric_id = ?"
abbrev pub configuration_conds : String → String → Conds
configuration_conds cloud_service_id metric_id =
    atom (equals "cloud_service_id" cloud_service_id)
    ∷ and
    ∷ atom (equals "metric_id" metric_id)
    ∷ []

-- "metric_id = ? AND cloud_service_id = ?"
abbrev pub saved_conds : String → String → Conds
saved_conds cloud_service_id metric_id =
    atom (equals "metric_id" metric_id)
    ∷ and
    ∷ atom (equals "cloud_service_id" cloud_service_id)
    ∷ []

module _ {V : Type 0} where
  -- The default configuration, for a service.
  unfoldable pub default_configuration :
      String → String → Map (MetricConfiguration V) → Result (MetricConfiguration V)
  default_configuration cloud_service_id metric_id defaults = elim (lookup metric_id defaults) [
    | some config ↦ ok (for_service cloud_service_id config)
    | none ↦ err (status not_found "metric configuration not found for metric with id")
  ]

  -- What the database gave, or the default configuration where it has no record.
  unfoldable pub or_default :
      String
      → String
      → Map (MetricConfiguration V)
      → Result (MetricConfiguration V)
      → Result (MetricConfiguration V)
  unfolding default_configuration
  or_default cloud_service_id metric_id defaults (ok config) = ok config
  or_default cloud_service_id metric_id defaults panic = panic
  or_default cloud_service_id metric_id defaults (err e) =
      if is_record_not_found e
      then default_configuration cloud_service_id metric_id defaults
      else err (status internal "database error")

  -- `if err == nil { response.Configurations[metric.Id] = config }`
  unfoldable pub put_found :
      String
      → Result (MetricConfiguration V)
      → Map (MetricConfiguration V)
      → Map (MetricConfiguration V)
  put_found metric_id (ok config) found = put metric_id config found
  put_found metric_id (err e) found = found
  put_found metric_id panic found = found

module _ {D V Ctx : Type 0} (tables : Tables D V) (authz : AuthorizationStrategy Ctx)
    (ctx : Option Ctx) where
  unfoldable pub get_metric_configuration :
      Rules GetMetricConfigurationRequest
      → Option GetMetricConfigurationRequest
      → Exec (Service D V) (MetricConfiguration V)
  unfolding validate or_default
  get_metric_configuration rules request = do
    req ← lift (validate rules request)
    require (authz.check_access ctx access_read req.cloud_service_id) err_permission_denied
    db ← gets (λ s. s.db)
    defaults ← gets (λ s. s.default_metric_configurations)
    lift (
        or_default req.cloud_service_id req.metric_id defaults
          (tables.configurations.get (configuration_conds req.cloud_service_id req.metric_id) db))

  unfoldable pub update_metric_configuration :
      Rules (UpdateMetricConfigurationRequest V)
      → ℕ
      → Option (UpdateMetricConfigurationRequest V)
      → Exec (Service D V) (MetricConfiguration V)
  unfolding validate configuration_error
  update_metric_configuration rules now request = do
    req ← lift (validate rules request)
    require (authz.check_access ctx access_read req.cloud_service_id) err_permission_denied
    let config = record req.configuration { updated_at = now; is_default = false }
    map_err configuration_error (
        on_db tables
          (tables.configurations.save config (saved_conds req.cloud_service_id req.metric_id)))
    notify tables (record {
      type = type_config_changed;
      metric_id = req.metric_id;
      cloud_service_id = req.cloud_service_id;
    })
    pure config

  -- The loop over the metrics. Its calls only read, so that a panic alone ends it.
  unfoldable pub collect_configurations :
      Rules GetMetricConfigurationRequest
      → String
      → List (Metric V)
      → Map (MetricConfiguration V)
      → Exec (Service D V) (Map (MetricConfiguration V))
  unfolding get_metric_configuration put_found
  collect_configurations rules cloud_service_id [] found = pure found
  collect_configurations rules cloud_service_id (m ∷ rest) found = do
    outcome ← attempt (
        get_metric_configuration rules
          (some (record { cloud_service_id = cloud_service_id; metric_id = m.id })))
    collect_configurations rules cloud_service_id rest (put_found m.id outcome found)

  unfoldable pub list_metric_configurations :
      Rules ListMetricConfigurationRequest
      → Rules GetMetricConfigurationRequest
      → Option ListMetricConfigurationRequest
      → Exec (Service D V) (Map (MetricConfiguration V))
  unfolding validate collect_configurations
  list_metric_configurations rules single request = do
    req ← lift (validate rules request)
    require (authz.check_access ctx access_read req.cloud_service_id) err_permission_denied
    db ← gets (λ s. s.db)
    metrics ← map_err database_error (lift (tables.metrics.list [] db "" true (pos 0) (negsuc 0)))
    collect_configurations single req.cloud_service_id metrics []

-- SubscribeMetricChangeEvents on the events that it takes from the channel, each with what Send
-- returns for it: the outcome, and the events that were given to Send. Without a further event the
-- call blocks, which is the end of the script.
unfoldable pub subscribe_metric_change_events :
    List (MetricChangeEvent × Result (Unit {0}))
    → Option (Result (Unit {0})) × List MetricChangeEvent
subscribe_metric_change_events [] = (none, [])
subscribe_metric_change_events ((event, ok u) ∷ rest) =
    let (outcome, given) = subscribe_metric_change_events rest in (outcome, event ∷ given)
subscribe_metric_change_events ((event, err e) ∷ rest) =
    if is_eof e
    then (some (ok tt), event ∷ [])
    else (some (err (status unknown "cannot stream response to the client")), event ∷ [])
subscribe_metric_change_events ((event, panic) ∷ rest) = (some panic, event ∷ [])
