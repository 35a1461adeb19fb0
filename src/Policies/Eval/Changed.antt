-- ===== src/Policies/Eval/Changed.antt =====
-- What an evaluation of policies/rego.go sees of a change that an event has told of.
use mathlib.Core.Path.{ap₂}
use clouditor.Prelude.{String, ◌≡◌, refl, sym, ap, ◌∙◌, Option, some, List, [], ◌∷◌}
use clouditor.Prelude.Maps.{Map, lookup}
use clouditor.Status.{Result, ok, err, panic, wrapped}
use clouditor.Exec.{pure, lift, map_err, rescue, continue, ◌>>=◌}
use clouditor.Policies.{MetricChangeEvent, query_key, get, keep_query, handle_metric_event}
use clouditor.Policies.Evicted.{get-handle_metric_event}
use clouditor.Policies.Names.{Unicode, create_key}
use clouditor.Policies.Query.{EvalResult, Engine, MetricsSource, new_query, answer}
use clouditor.Policies.Eval.{
  RegoEval, cached_metrics, eval_map, run_cached, add_result, on_queries, eval_metrics, eval,
}

module _ {Tx Q Input Conf Impl : Type 0} (unicode : Unicode) (engine : Engine Tx Q Input Conf Impl)
    (hash : Conf → String) (pkg : String) (src : MetricsSource Conf Impl) where
  -- The source after the list of metrics has changed.
  abbrev with_metrics : Result (List String) → MetricsSource Conf Impl
  with_metrics metrics = record src { metrics = metrics }

  eval_map-with_metrics :
      (metrics : Result (List String)) (service_id metric_id : String) (input : Input)
      → eval_map unicode engine hash pkg (with_metrics metrics) service_id metric_id input
        ≡ eval_map unicode engine hash pkg src service_id metric_id input
  unfolding eval_map new_query
  eval_map-with_metrics metrics service_id metric_id input = refl

  run_cached-with_metrics :
      (metrics : Result (List String)) (service_id : String) (input : Input) (names : List String)
      → run_cached unicode engine hash pkg (with_metrics metrics) service_id input names
        ≡ run_cached unicode engine hash pkg src service_id input names
  unfolding run_cached
  run_cached-with_metrics metrics service_id input [] = refl
  run_cached-with_metrics metrics service_id input (metric_id ∷ rest) =
      ap₂
        (λ first others. first >>= λ result.
          others >>= λ found. pure (add_result unicode engine hash pkg src result found))
        (eval_map-with_metrics metrics service_id metric_id input)
        (run_cached-with_metrics metrics service_id input rest)

  -- Once the metrics of a type of resource are cached, an evaluation has the same outcome whatever
  -- the source's list of metrics is, also after any metric event.
  pub eval-with_metrics :
      (metrics : Result (List String)) (tool_id service_id : String) (resource_map : Result Input)
      (types : List String) (event : MetricChangeEvent) (re : RegoEval Q) (names : List String)
      → cached_metrics (create_key tool_id types) re.mrtc ≡ some names
      → eval unicode engine hash pkg
          (with_metrics metrics)
          tool_id
          service_id
          resource_map
          types
          (record re { qc = handle_metric_event event re.qc })
        ≡ eval unicode engine hash pkg src tool_id service_id resource_map types
            (record re { qc = handle_metric_event event re.qc })
  unfolding eval eval_metrics
  eval-with_metrics metrics tool_id service_id (ok input) types event re names h =
      let later = record re { qc = handle_metric_event event re.qc } in
      ap
        (λ cached.
          eval_metrics unicode engine hash pkg (with_metrics metrics) (create_key tool_id types)
            service_id input cached later)
        h
      ∙ ap (λ call. on_queries unicode engine hash pkg src call later)
          (run_cached-with_metrics metrics service_id input names)
      ∙ sym (
          ap
            (λ cached.
              eval_metrics unicode engine hash pkg src (create_key tool_id types) service_id input
                cached later)
            h)
  eval-with_metrics metrics tool_id service_id (err e) types event re names h = refl
  eval-with_metrics metrics tool_id service_id panic types event re names h = refl

  -- What evalMap does once it has the outcome of Get.
  abbrev with_query : String → Input → Result Q × Map Q → Result (Option (EvalResult Conf))
  with_query metric_id input p =
      (continue (rescue p.0 (λ e. wrapped "could not fetch cached query for metric" e))
        (λ query. lift (answer unicode engine pkg metric_id input query)) p.1).0

  keep_query-with_query :
      (key metric_id : String) (input : Input) (r : Result Q) (cache other : Map Q)
      → with_query metric_id input (keep_query key r cache)
        ≡ with_query metric_id input (keep_query key r other)
  unfolding keep_query
  keep_query-with_query key metric_id input (ok query) cache other = refl
  keep_query-with_query key metric_id input (err e) cache other = refl
  keep_query-with_query key metric_id input panic cache other = refl

  get-with_query :
      (event : MetricChangeEvent) (service_id : String) (input : Input) (cache : Map Q)
      (config : Conf) (or_else : String → Result Q)
      → with_query event.metric_id input (
          get
            (query_key event.metric_id service_id (hash config))
            or_else
            (handle_metric_event event cache))
        ≡ with_query event.metric_id input
            (get (query_key event.metric_id service_id (hash config)) or_else [])
  unfolding get lookup
  get-with_query event service_id input cache config or_else =
      ap (with_query event.metric_id input)
        (get-handle_metric_event event service_id (hash config) or_else cache)
      ∙ keep_query-with_query (query_key event.metric_id service_id (hash config)) event.metric_id
          input _ _ []

  -- evalMap once it has the outcome of MetricConfiguration.
  abbrev with_config :
      String → String → Input → Result Conf → Map Q → Result (Option (EvalResult Conf))
  with_config service_id metric_id input r s =
      (continue (rescue r (λ e. wrapped "could not fetch metric configuration for metric" e))
        (λ config.
          map_err (λ e. wrapped "could not fetch cached query for metric" e)
            (get (query_key metric_id service_id (hash config))
              (λ key. new_query unicode engine pkg src metric_id config))
          >>= λ query. lift (answer unicode engine pkg metric_id input query))
        s).0

  -- After an event about a metric, the evaluation of the metric has the outcome that it has with no
  -- cached query.
  pub eval_map-handle_metric_event :
      (event : MetricChangeEvent) (service_id : String) (input : Input) (cache : Map Q)
      → (eval_map unicode engine hash pkg src service_id event.metric_id input
          (handle_metric_event event cache)).0
        ≡ (eval_map unicode engine hash pkg src service_id event.metric_id input []).0
  unfolding eval_map
  eval_map-handle_metric_event event service_id input cache =
      configured (src.metric_configuration service_id event.metric_id)
    where
      configured :
          (r : Result Conf)
          → with_config service_id event.metric_id input r (handle_metric_event event cache)
            ≡ with_config service_id event.metric_id input r []
      configured (ok config) =
          get-with_query event service_id input cache config
            (λ key. new_query unicode engine pkg src event.metric_id config)
      configured (err e) = refl
      configured panic = refl
