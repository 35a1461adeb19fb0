-- ===== src/Policies/Eval.antt =====
-- Eval and evalMap of policies/rego.go, with the cache of the metrics that apply to a type of
-- resource. What the source of the metrics answers does not change during one evaluation.
pub mod Stable
pub mod Grown
pub mod Again
pub mod Changed
mod Tests
use Prim.Native.String.{◌++◌ as str_append}
use clouditor.Prelude.{
  String, Bool, true, false, ◌&&◌, ◌||◌, Option, none, some, List, [], ◌∷◌, if◌then◌else◌,
}
use clouditor.Prelude.Maps.{Map, lookup, put}
use clouditor.Status.{
  Code, Error, Result, ok, err, panic, plain, record_not_found, constraint_failed,
  unique_constraint_failed, eof, wrapped, status, not_found,
}
use clouditor.Exec.{Exec, pure, gets, lift, raise, map_err, attempt, modify, ◌>>=◌, ◌>>◌}
use clouditor.Policies.{has_prefix, query_key, get}
use clouditor.Policies.Names.{Unicode, create_key}
use clouditor.Policies.Query.{EvalResult, Engine, MetricsSource, new_query, answer}

-- The message and the code of status.FromError, for the errors that have a code.
unfoldable pub status_of : Error → Option (Code × String)
status_of (status code message) = some (code, message)
status_of (wrapped message e) = elim (status_of e) [
  | some (code, rest) ↦ some (code, str_append message (str_append ": " rest))
  | none ↦ none
]
status_of _ = none

-- strings.Contains
unfoldable pub text_contains : String → String → Bool
unfolding has_prefix
text_contains String.[] text = has_prefix "" text
text_contains (String.◌∷◌ c s) text = has_prefix (String.◌∷◌ c s) text || text_contains s text

abbrev is_not_found : Code → Bool
is_not_found not_found = true
is_not_found _ = false

abbrev missing_status : Option (Code × String) → Bool
missing_status none = false
missing_status (some (code, message)) =
    is_not_found code
    && (text_contains message "implementation for metric not found"
        || text_contains message "metric configuration not found for metric")

-- The error says that the metric has no implementation or no configuration.
unfoldable pub is_missing : Error → Bool
unfolding status_of text_contains
is_missing e = missing_status (status_of e)

-- regoEval: a nil slice in the metrics cache is `none`.
pub record RegoEval (Q : Type 0) : Type 0 where
  pub mrtc : Map (Option (List String))
  pub qc : Map Q

abbrev pub entry_metrics : Option (Option (List String)) → Option (List String)
entry_metrics none = none
entry_metrics (some names) = names

abbrev pub cached_metrics : String → Map (Option (List String)) → Option (List String)
cached_metrics key mrtc = entry_metrics (lookup key mrtc)

module _ {Tx Q Input Conf Impl : Type 0} (unicode : Unicode) (engine : Engine Tx Q Input Conf Impl)
    (hash : Conf → String) (pkg : String) (src : MetricsSource Conf Impl) where
  unfoldable pub eval_map : String → String → Input → Exec (Map Q) (Option (EvalResult Conf))
  unfolding new_query answer
  eval_map service_id metric_id input = do
    config ←
        map_err (λ e. wrapped "could not fetch metric configuration for metric" e)
          (lift (src.metric_configuration service_id metric_id))
    query ←
        map_err (λ e. wrapped "could not fetch cached query for metric" e)
          (get (query_key metric_id service_id (hash config))
            (λ key. new_query unicode engine pkg src metric_id config))
    lift (answer unicode engine pkg metric_id input query)

  abbrev pub add_applicable :
      String
      → EvalResult Conf
      → List String × List (EvalResult Conf)
      → List String × List (EvalResult Conf)
  add_applicable metric_id result found = (metric_id ∷ found.0, result ∷ found.1)

  -- What the loop over the metrics does with one of them; `rest` is the rest of the loop.
  unfoldable pub keep_applicable :
      String
      → Exec (Map Q) (List String × List (EvalResult Conf))
      → Result (Option (EvalResult Conf))
      → Exec (Map Q) (List String × List (EvalResult Conf))
  unfolding is_missing
  keep_applicable metric_id rest (err e) = if is_missing e then rest else raise e
  keep_applicable metric_id rest panic = lift panic
  keep_applicable metric_id rest (ok none) = rest
  keep_applicable metric_id rest (ok (some result)) =
      rest >>= λ found. pure (add_applicable metric_id result found)

  -- The metrics that apply, and their results.
  unfoldable pub run_metrics :
      String → Input → List String → Exec (Map Q) (List String × List (EvalResult Conf))
  unfolding eval_map keep_applicable
  run_metrics service_id input [] = pure ([], [])
  run_metrics service_id input (metric_id ∷ rest) =
      attempt (eval_map service_id metric_id input)
      >>= keep_applicable metric_id (run_metrics service_id input rest)

  abbrev pub add_result : Option (EvalResult Conf) → List (EvalResult Conf) → List (EvalResult Conf)
  add_result none results = results
  add_result (some result) results = result ∷ results

  -- The metrics are those of the cache.
  unfoldable pub run_cached : String → Input → List String → Exec (Map Q) (List (EvalResult Conf))
  unfolding eval_map
  run_cached service_id input [] = pure []
  run_cached service_id input (metric_id ∷ rest) = do
    result ← eval_map service_id metric_id input
    found ← run_cached service_id input rest
    pure (add_result result found)

  abbrev pub on_queries : {A : Type 0} → Exec (Map Q) A → Exec (RegoEval Q) A
  on_queries call re = let (outcome, qc) = call re.qc in (outcome, record re { qc = qc })

  -- The metrics cache after the loop: an error leaves a nil slice.
  unfoldable pub store_metrics :
      String
      → Result (List String × List (EvalResult Conf))
      → Exec (RegoEval Q) (List (EvalResult Conf))
  store_metrics key (ok found) =
      modify (λ re. record re { mrtc = put key (some found.0) re.mrtc }) >> pure found.1
  store_metrics key (err e) = modify (λ re. record re { mrtc = put key none re.mrtc }) >> raise e
  store_metrics key panic = lift panic

  unfoldable pub eval_metrics :
      String → String → Input → Option (List String) → Exec (RegoEval Q) (List (EvalResult Conf))
  unfolding run_metrics run_cached store_metrics
  eval_metrics key service_id input (some names) = on_queries (run_cached service_id input names)
  eval_metrics key service_id input none = do
    names ← map_err (λ e. wrapped "could not retrieve metric definitions" e) (lift src.metrics)
    outcome ← attempt (on_queries (run_metrics service_id input names))
    store_metrics key outcome

  -- Eval of an evidence from a tool about a service. The resource is given by what
  -- ontology.ResourceMap and ontology.ResourceTypes make of it.
  unfoldable pub eval :
      String → String → Result Input → List String → Exec (RegoEval Q) (List (EvalResult Conf))
  unfolding create_key eval_metrics
  eval tool_id service_id resource_map types = do
    input ← lift resource_map
    cached ← gets (λ re. cached_metrics (create_key tool_id types) re.mrtc)
    eval_metrics (create_key tool_id types) service_id input cached
