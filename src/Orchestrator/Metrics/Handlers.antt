-- ===== src/Orchestrator/Metrics/Handlers.antt =====
-- The handlers of service/orchestrator/metrics.go on metrics and their implementations.
use clouditor.Prelude.{ℕ, String, not, Option, List, [], ◌∷◌, ◌==ℕ◌}
use clouditor.Status.{status, wrapped, internal, already_exists, failed_precondition}
use clouditor.Exec.{Exec, pure, lift, gets, require, map_err, ◌>>=◌, ◌>>◌}
use clouditor.Validate.{Rules, validate}
use clouditor.Query.{equals, atom}
use clouditor.Page.{Wire, paginate_storage, default_pagination_opts}
use clouditor.Policies.{type_implementation_changed}
use clouditor.Orchestrator.Metrics.{
  MetricImplementation, Metric, MetricRequest, UpdateMetricImplementationRequest, MetricIdRequest,
  ListMetricsRequest, Tables, Service, database_error, metric_error, implementation_error,
  with_metadata, deprecated, is_set, deprecated_conds, metadata_changed, on_db, notify,
}

module _ {D V : Type 0} (tables : Tables D V) where
  unfoldable pub create_metric :
      Rules (MetricRequest V) → Option (MetricRequest V) → Exec (Service D V) (Metric V)
  unfolding validate
  create_metric rules request = do
    req ← lift (validate rules request)
    db ← gets (λ s. s.db)
    count ←
        map_err database_error
          (lift (tables.metrics.count (atom (equals "id" req.metric.id) ∷ []) db))
    require (count ==ℕ 0) (status already_exists "metric already exists")
    require (not (is_set req.metric.deprecated_since))
        (status failed_precondition "the metric shouldn't be set to deprecated at creation time")
    map_err database_error (on_db tables (tables.metrics.create req.metric))
    notify tables (metadata_changed req.metric.id)
    pure req.metric

  unfoldable pub update_metric :
      Rules (MetricRequest V) → Option (MetricRequest V) → Exec (Service D V) (Metric V)
  unfolding validate metric_error
  update_metric rules request = do
    req ← lift (validate rules request)
    db ← gets (λ s. s.db)
    found ←
        map_err metric_error (lift (tables.metrics.get (atom (equals "id" req.metric.id) ∷ []) db))
    let m = with_metadata req.metric found
    map_err database_error (on_db tables (tables.metrics.save m (atom (equals "id" m.id) ∷ [])))
    notify tables (metadata_changed m.id)
    pure m

  unfoldable pub update_metric_implementation :
      Rules UpdateMetricImplementationRequest
      → ℕ
      → Option UpdateMetricImplementationRequest
      → Exec (Service D V) MetricImplementation
  unfolding validate metric_error
  update_metric_implementation rules now request = do
    req ← lift (validate rules request)
    db ← gets (λ s. s.db)
    found ←
        map_err metric_error
          (lift (tables.metrics.get (atom (equals "id" req.implementation.metric_id) ∷ []) db))
    let impl = record req.implementation { updated_at = now }
    map_err (λ e. wrapped "could not save metric implementation" e)
        (on_db tables
          (tables.implementations.save impl (atom (equals "metric_id" impl.metric_id) ∷ [])))
    notify tables
        (record { type = type_implementation_changed; metric_id = found.id; cloud_service_id = "" })
    pure impl

  unfoldable pub list_metrics :
      Wire
      → Rules ListMetricsRequest
      → Option ListMetricsRequest
      → Exec (Service D V) (List (Metric V) × String)
  unfolding validate
  list_metrics w rules request = do
    req ← lift (validate rules request)
    db ← gets (λ s. s.db)
    map_err (λ e. status internal "could not paginate metrics")
        (lift (
          paginate_storage w req.page
            (tables.metrics.list (deprecated_conds req.include_deprecated) db)
            default_pagination_opts))

  unfoldable pub remove_metric :
      Rules MetricIdRequest → ℕ → Option MetricIdRequest → Exec (Service D V) (Unit {0})
  unfolding validate metric_error
  remove_metric rules now request = do
    req ← lift (validate rules request)
    db ← gets (λ s. s.db)
    found ←
        map_err metric_error (lift (tables.metrics.get (atom (equals "id" req.metric_id) ∷ []) db))
    map_err database_error (
        on_db tables
          (tables.metrics.update (deprecated now found) (atom (equals "Id" req.metric_id) ∷ [])))

  unfoldable pub get_metric :
      Rules MetricIdRequest → Option MetricIdRequest → Exec (Service D V) (Metric V)
  unfolding validate metric_error
  get_metric rules request = do
    req ← lift (validate rules request)
    db ← gets (λ s. s.db)
    map_err metric_error (lift (tables.metrics.get (atom (equals "id" req.metric_id) ∷ []) db))

  unfoldable pub get_metric_implementation :
      Rules MetricIdRequest → Option MetricIdRequest → Exec (Service D V) MetricImplementation
  unfolding validate implementation_error
  get_metric_implementation rules request = do
    req ← lift (validate rules request)
    db ← gets (λ s. s.db)
    map_err implementation_error
        (lift (tables.implementations.get (atom (equals "metric_id" req.metric_id) ∷ []) db))
