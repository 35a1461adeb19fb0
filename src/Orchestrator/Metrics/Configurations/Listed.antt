-- ===== src/Orchestrator/Metrics/Configurations/Listed.antt =====
-- Which metric configurations a listing of service/orchestrator/metrics.go has.
use clouditor.Prelude.{
  ◌≡◌, refl, sym, ap, ◌∙◌, String, Bool, true, false, ◌||◌, Option, none, some, List, [], ◌∷◌, map,
  contains, ◌==◌, str_eq→eq, if◌then◌else◌, arith,
}
use clouditor.Prelude.Int.{pos, negsuc}
use clouditor.Prelude.Maps.{Map, lookup, lookup-put}
use clouditor.Status.{Result, ok, err, panic}
use clouditor.Exec.Inversion.{Gives-bind, result-attempt, state-attempt}
use clouditor.Exec.{Exec, attempt}
use clouditor.Auth.{AuthorizationStrategy}
use clouditor.Validate.{Rules}
use clouditor.Orchestrator.Metrics.{
  Metric, MetricConfiguration, GetMetricConfigurationRequest, ListMetricConfigurationRequest,
  Tables, Service,
}
use clouditor.Orchestrator.Metrics.Configurations.{
  put_found, get_metric_configuration, collect_configurations, list_metric_configurations,
}

-- The configuration that a call has given, or else the one that there was.
abbrev pub found_or : {A : Type 0} → Result A → Option A → Option A
found_or (ok a) before = some a
found_or (err e) before = before
found_or panic before = before

found_or-found_or :
    {A : Type 0} (r : Result A) (before : Option A)
    → found_or r (found_or r before) ≡ found_or r before
found_or-found_or (ok a) before = refl
found_or-found_or (err e) before = refl
found_or-found_or panic before = refl

-- One turn of the loop, for a metric whose ID is the key or is not.
found_or-turn :
    {A : Type 0} (same later : Bool) (here one : Result A) (before : Option A)
    → (same ≡ true → one ≡ here)
    → (if later
        then found_or here (if same then found_or one before else before)
        else (if same then found_or one before else before))
      ≡ (if same || later then found_or here before else before)
found_or-turn false later here one before h = refl
found_or-turn true true here one before h =
    ap (λ r. found_or here (found_or r before)) (h refl) ∙ found_or-found_or here before
found_or-turn true false here one before h = ap (λ r. found_or r before) (h refl)

module _ {D V Ctx : Type 0} (tables : Tables D V) (authz : AuthorizationStrategy Ctx)
    (ctx : Option Ctx) (rules : Rules GetMetricConfigurationRequest)
    (cloud_service_id : String) where
  abbrev request : String → GetMetricConfigurationRequest
  request metric_id = record { cloud_service_id = cloud_service_id; metric_id = metric_id }

  abbrev pub get_one : String → Exec (Service D V) (MetricConfiguration V)
  get_one metric_id = get_metric_configuration tables authz ctx rules (some (request metric_id))

  state-get_one : (metric_id : String) (s : Service D V) → (get_one metric_id s).1 ≡ s
  unfolding get_metric_configuration
  state-get_one metric_id s = ground arith

  lookup-put_found :
      (metric_id key : String) (r : Result (MetricConfiguration V))
      (before : Map (MetricConfiguration V))
      → lookup key (put_found metric_id r before)
        ≡ (if metric_id == key then found_or r (lookup key before) else lookup key before)
  unfolding put_found
  lookup-put_found metric_id key (ok config) before = lookup-put metric_id key config before
  lookup-put_found metric_id key (err e) before = ground arith
  lookup-put_found metric_id key panic before = ground arith

  abbrev ids : List (Metric V) → List String
  ids metrics = map (λ m. m.id) metrics

  -- What the listing has for a key.
  abbrev listed :
      List (Metric V)
      → Map (MetricConfiguration V)
      → String
      → Service D V
      → Option (MetricConfiguration V)
  listed metrics before key s =
      if contains (ids metrics) key
      then found_or (get_one key s).0 (lookup key before)
      else lookup key before

  lookup-collect :
      (metrics : List (Metric V)) (before found : Map (MetricConfiguration V)) (key : String)
      (s : Service D V)
      → (collect_configurations tables authz ctx rules cloud_service_id metrics before s).0
        ≡ ok found
      → lookup key found ≡ listed metrics before key s
  unfolding collect_configurations
  lookup-collect [] before found key s h = ap (lookup key) (sym (same h))
    where
      same : {A : Type 0} {a b : A} → ok a ≡ ok b → a ≡ b
      same e = cc
  lookup-collect (m ∷ rest) before found key s h =
      let parts =
        Gives-bind (attempt (get_one m.id)) _ s found _ (record { result = h; state = refl }) in
      let unchanged = state-attempt (get_one m.id) s ∙ state-get_one m.id s in
      let later = put_found m.id parts.a before in
      lookup-collect rest later found key _ parts.then.result
      ∙ ap (listed rest later key) unchanged
      ∙ ap (λ l. if contains (ids rest) key then found_or (get_one key s).0 l else l)
          (lookup-put_found m.id key parts.a before)
      ∙ found_or-turn (m.id == key) (contains (ids rest) key) (get_one key s).0 parts.a
          (lookup key before)
          (λ e.
            sym (result-attempt (get_one m.id) s parts.a parts.first)
            ∙ ap (λ k. (get_one k s).0) (str_eq→eq m.id key e))

  -- A listing that succeeds has a configuration for a key exactly if the key is the ID of a metric of
  -- the database and GetMetricConfiguration gives one for it, and it has that one.
  pub lookup-list_metric_configurations :
      (lists : Rules ListMetricConfigurationRequest) (metrics : List (Metric V)) (s : Service D V)
      (found : Map (MetricConfiguration V)) (key : String)
      → tables.metrics.list [] s.db "" true (pos 0) (negsuc 0) ≡ ok metrics
      → (list_metric_configurations tables authz ctx lists rules
          (some (record { cloud_service_id = cloud_service_id }))
          s).0
        ≡ ok found
      → lookup key found
        ≡ (if contains (map (λ m. m.id) metrics) key then found_or (get_one key s).0 none else none)
  unfolding list_metric_configurations lookup
  lookup-list_metric_configurations lists metrics s found key all h =
      lookup-collect metrics [] found key s (ground arith)
