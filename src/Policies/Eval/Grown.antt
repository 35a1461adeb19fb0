-- ===== src/Policies/Eval/Grown.antt =====
-- What the functions of policies/rego.go that fill the cache of queries keep of it.
use clouditor.Prelude.{String, Bool, true, false, Option, none, some, List, [], ◌∷◌, if◌then◌else◌}
use clouditor.Prelude.Maps.{Map}
use clouditor.Status.{Result, ok, err, panic}
use clouditor.Exec.{Exec, pure, raise, attempted, continue}
use clouditor.Policies.Names.{Unicode}
use clouditor.Policies.Query.{EvalResult, Engine, MetricsSource}
use clouditor.Policies.Eval.{
  is_missing, eval_map, add_applicable, keep_applicable, run_metrics, run_cached,
}
use clouditor.Policies.Eval.Stable.{
  Grows, Grows-refl, Grows-trans, Stable, Stable-lift, Stable-map_err, Stable-bind, Stable-get,
}

module _ {Tx Q Input Conf Impl : Type 0} (unicode : Unicode) (engine : Engine Tx Q Input Conf Impl)
    (hash : Conf → String) (pkg : String) (src : MetricsSource Conf Impl) where
  pub eval_map-Stable :
      (service_id metric_id : String) (input : Input)
      → Stable (eval_map unicode engine hash pkg src service_id metric_id input)
  unfolding eval_map
  eval_map-Stable service_id metric_id input =
      Stable-bind _ _
        (Stable-map_err _ _ (Stable-lift (src.metric_configuration service_id metric_id)))
        λ config. Stable-bind _ _ (Stable-map_err _ _ (Stable-get _ _)) λ query. Stable-lift _

  pub run_cached-Stable :
      (service_id : String) (input : Input) (names : List String)
      → Stable (run_cached unicode engine hash pkg src service_id input names)
  unfolding run_cached
  run_cached-Stable service_id input [] = Stable-lift _
  run_cached-Stable service_id input (metric_id ∷ rest) =
      Stable-bind _ _ (eval_map-Stable service_id metric_id input)
        λ result. Stable-bind _ _ (run_cached-Stable service_id input rest) λ found. Stable-lift _

  -- What the loop over the metrics does after the first of them.
  abbrev pub after_first :
      String
      → Exec (Map Q) (List String × List (EvalResult Conf))
      → Result (Option (EvalResult Conf))
      → Exec (Map Q) (List String × List (EvalResult Conf))
  after_first metric_id rest r cache =
      continue (attempted r cache).0 (keep_applicable unicode engine hash pkg src metric_id rest)
        (attempted r cache).1

  keep-Grows :
      (metric_id : String) (rest : Exec (Map Q) (List String × List (EvalResult Conf)))
      → ((cache : Map Q) → Grows cache (rest cache).1)
      → (r : Result (Option (EvalResult Conf))) (cache : Map Q)
      → Grows cache (after_first metric_id rest r cache).1
  unfolding keep_applicable
  keep-Grows metric_id rest grows (ok none) cache = grows cache
  keep-Grows metric_id rest grows (ok (some result)) cache =
      added (rest cache).0 (rest cache).1 (grows cache)
    where
      added :
          (r : Result (List String × List (EvalResult Conf))) (after : Map Q)
          → Grows cache after
          → Grows cache
              (continue r
                (λ found. pure (add_applicable unicode engine hash pkg src metric_id result found))
                after).1
      added (ok found) after g = g
      added (err e) after g = g
      added panic after g = g
  keep-Grows metric_id rest grows (err e) cache = missing (is_missing e)
    where
      missing : (b : Bool) → Grows cache ((if b then rest else raise e) cache).1
      missing true = grows cache
      missing false = Grows-refl cache
  keep-Grows metric_id rest grows panic cache = Grows-refl cache

  pub run_metrics-Grows :
      (service_id : String) (input : Input) (names : List String) (cache : Map Q)
      → Grows cache (run_metrics unicode engine hash pkg src service_id input names cache).1
  unfolding run_metrics
  run_metrics-Grows service_id input [] cache = Grows-refl cache
  run_metrics-Grows service_id input (metric_id ∷ rest) cache =
      let E = eval_map unicode engine hash pkg src service_id metric_id input cache in
      Grows-trans ((eval_map-Stable service_id metric_id input).grows cache) (
        keep-Grows metric_id (run_metrics unicode engine hash pkg src service_id input rest)
          (run_metrics-Grows service_id input rest) E.0 E.1)
