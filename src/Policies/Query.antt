-- ===== src/Policies/Query.antt =====
-- What evalMap of policies/rego.go does with Rego: a query is prepared for a metric, and its first
-- result is read. Rego's library and the JSON encoding are a parameter.
use clouditor.Prelude.{String, Bool, Option, none, some, List, [], ◌∷◌, if◌then◌else◌}
use clouditor.Prelude.Maps.{Map, lookup}
use clouditor.Status.{Result, ok, err, panic, plain, wrapped, ◌>>=◌}
use clouditor.Policies.Names.{Unicode, camel_case_to_snake_case}

-- A value that Rego binds to a name.
pub data Value : Type 0 where
  truth : Bool → Value
  text : String → Value
  structure : String → Value

-- Conf is the message MetricConfiguration.
pub record EvalResult (Conf : Type 0) : Type 0 where
  pub applicable : Bool
  pub compliant : Bool
  pub target_value : Option Value
  pub operator : String
  pub metric_id : String
  pub config : Conf

pub record Engine (Tx Q Input Conf Impl : Type 0) : Type 0 where
  -- inmem.NewFromObject with the data of the configuration, and NewTransaction
  pub new_transaction : Conf → Result Tx
  pub upsert_policy : String → Impl → Tx → Result Tx
  -- PrepareForEval, with the package's prefix and the metric's package
  pub prepare_for_eval : String → String → Tx → Result Q
  pub commit : Tx → Result (Unit {0})
  pub eval : Q → Input → Result (List (Map Value))
  pub marshal : Option Value → Result String
  pub unmarshal : String → Result Conf

pub record MetricsSource (Conf Impl : Type 0) : Type 0 where
  pub metrics : Result (List String)
  pub metric_configuration : String → String → Result Conf
  pub metric_implementation : String → Result Impl

unfoldable pub wrap_err : {A : Type 0} → String → Result A → Result A
wrap_err message (ok a) = ok a
wrap_err message (err e) = err (wrapped message e)
wrap_err message panic = panic

-- `.(bool)` and `.(string)` panic when the value is of another type.
unfoldable pub as_bool : Option Value → Result Bool
as_bool (some (truth b)) = ok b
as_bool _ = panic

unfoldable pub as_string : Option Value → Result String
as_string (some (text s)) = ok s
as_string _ = panic

module _ {Tx Q Input Conf Impl : Type 0} (unicode : Unicode) (engine : Engine Tx Q Input Conf Impl)
    (pkg : String) where
  -- The function that evalMap gives to queryCache.Get.
  unfoldable pub new_query : MetricsSource Conf Impl → String → Conf → Result Q
  unfolding wrap_err camel_case_to_snake_case
  new_query src metric_id config = do
    tx ← wrap_err "could not create transaction" (engine.new_transaction config)
    impl ← wrap_err "could not fetch policy for metric" (src.metric_implementation metric_id)
    tx' ← wrap_err "could not upsert policy" (engine.upsert_policy metric_id impl tx)
    query ←
        wrap_err "could not prepare rego evaluation for metric"
          (engine.prepare_for_eval pkg (camel_case_to_snake_case unicode metric_id) tx')
    done ← wrap_err "could not commit transaction" (engine.commit tx')
    ok query

  abbrev applicable_only : EvalResult Conf → Option (EvalResult Conf)
  applicable_only result = if result.applicable then some result else none

  unfoldable pub read_result : String → List (Map Value) → Result (Option (EvalResult Conf))
  unfolding wrap_err as_bool as_string
  read_result metric_id [] = err (plain "no results. probably the package name of metric is wrong")
  read_result metric_id (bindings ∷ rest) = do
    applicable ← as_bool (lookup "applicable" bindings)
    compliant ← as_bool (lookup "compliant" bindings)
    operator ← as_string (lookup "operator" bindings)
    b ← wrap_err "JSON marshal failed" (engine.marshal (lookup "config" bindings))
    config ← wrap_err "JSON unmarshal failed" (engine.unmarshal b)
    ok (
        applicable_only (record {
          applicable = applicable;
          compliant = compliant;
          target_value = lookup "target_value" bindings;
          operator = operator;
          metric_id = metric_id;
          config = config;
        }))

  -- What evalMap does with a query.
  unfoldable pub answer : String → Input → Q → Result (Option (EvalResult Conf))
  unfolding wrap_err read_result
  answer metric_id input query = do
    results ← wrap_err "could not evaluate rego policy" (engine.eval query input)
    read_result metric_id results
