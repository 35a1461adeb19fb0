-- ===== src/Orchestrator/Metrics/Loading.antt =====
-- loadMetrics, prepareMetric, loadMetricImplementation and loadEmbeddedMetrics of
-- service/orchestrator/metrics.go. The files and the JSON decoding are a parameter.
use Prim.Native.String.{◌++◌ as str_append}
use clouditor.Prelude.{ℕ, String, true, Option, none, some, List, [], ◌∷◌}
use clouditor.Prelude.Maps.{put}
use clouditor.Status.{Result, ok, panic, wrapped}
use clouditor.Exec.{Exec, pure, lift, modify, map_err, attempt, ◌>>=◌, ◌>>◌}
use clouditor.Query.{equals, atom}
use clouditor.Orchestrator.Metrics.{
  Metric, MetricImplementation, language_rego, MetricConfiguration, Tables, Service, on_db,
}

-- os.ReadFile, the embedded file of the metrics, and json.Unmarshal at the two types.
pub record Files (V : Type 0) : Type 0 where
  pub read_file : String → Result String
  pub read_embedded : String → Result String
  pub unmarshal_metrics : String → Result (List (Metric V))
  -- `none` is what the text null leaves
  pub unmarshal_configuration : String → Result (Option (MetricConfiguration V))

module _ {V : Type 0} (files : Files V) where
  unfoldable pub load_embedded_metrics : {S : Type 0} → String → Exec S (List (Metric V))
  load_embedded_metrics metrics_file = do
    b ← map_err (λ e. wrapped "error while loading" e) (lift (files.read_embedded metrics_file))
    map_err (λ e. wrapped "error in JSON marshal" e) (lift (files.unmarshal_metrics b))

  unfoldable pub load_metric_implementation :
      {S : Type 0} → ℕ → String → String → Exec S MetricImplementation
  load_metric_implementation now metric_id file = do
    b ← map_err (λ e. wrapped "could not read file" e) (lift (files.read_file file))
    pure (record { metric_id = metric_id; lang = language_rego; code = b; updated_at = now })

  abbrev bundle : String → String → String
  bundle metric_id name =
      str_append "policies/bundles/" (str_append metric_id (str_append "/" name))

  -- The fields of a nil configuration cannot be set.
  abbrev not_nil : {A : Type 0} → Option A → Result A
  not_nil none = panic
  not_nil (some a) = ok a

  -- The metric's implementation; its default configuration is kept.
  unfoldable pub prepare_metric :
      {D : Type 0} → ℕ → Metric V → Exec (Service D V) MetricImplementation
  unfolding load_metric_implementation
  prepare_metric now m = do
    impl ←
        map_err (λ e. wrapped "could not load metric implementation" e)
          (load_metric_implementation now m.id (bundle m.id "metric.rego"))
    b ←
        map_err (λ e. wrapped "could not retrieve default configuration for metric" e)
          (lift (files.read_file (bundle m.id "data.json")))
    decoded ←
        map_err (λ e. wrapped "error in reading default configuration for metric" e)
          (lift (files.unmarshal_configuration b))
    config ← lift (not_nil decoded)
    modify (λ s. record s {
      default_metric_configurations =
          put m.id (record config { is_default = true; metric_id = m.id })
            s.default_metric_configurations;
    })
    pure impl

module _ {D V : Type 0} (tables : Tables D V) (files : Files V) (now : ℕ) where
  -- One turn of the loop, up to the first error, which is logged.
  unfoldable pub load_metric : Metric V → Exec (Service D V) (Unit {0})
  unfolding prepare_metric
  load_metric m = do
    on_db tables (tables.metrics.save m (atom (equals "id" m.id) ∷ []))
    impl ← prepare_metric files now m
    on_db tables (tables.implementations.save impl (atom (equals "metric_id" m.id) ∷ []))

  unfoldable pub load_each : List (Metric V) → Exec (Service D V) (Unit {0})
  unfolding load_metric
  load_each [] = pure tt
  load_each (m ∷ rest) = do logged ← attempt (load_metric m); load_each rest

  unfoldable pub load_metrics : Exec (Service D V) (List (Metric V)) → Exec (Service D V) (Unit {0})
  unfolding load_each
  load_metrics load_metrics_func = do
    metrics ← map_err (λ e. wrapped "could not load metrics" e) load_metrics_func
    modify (λ s. record s { default_metric_configurations = [] })
    load_each metrics
