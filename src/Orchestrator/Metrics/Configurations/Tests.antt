-- ===== src/Orchestrator/Metrics/Configurations/Tests.antt =====
-- Metric configurations over a list of configurations, and what the assessment sees of an update.
use clouditor.Prelude.{
  ℕ, String, ◌≡◌, refl, sym, ap, Bool, true, false, Option, none, some, [], ◌∷◌, map, contains,
  if◌then◌else◌,
}
use clouditor.Prelude.Int.{pos}
use clouditor.Prelude.Maps.{lookup, put}
use clouditor.Status.{Result, ok, err, record_not_found, is_record_not_found}
use clouditor.Auth.{AuthorizationStrategy}
use clouditor.Validate.{Rules}
use clouditor.Storage.{Table}
use clouditor.Assessment.{Caches, metric_configuration, handle_event}
use clouditor.Assessment.Updated.{
  changed, orchestrator_client, metric_configuration-update_metric_configuration,
}
use clouditor.Orchestrator.Metrics.{
  Metric, MetricConfiguration, MetricImplementation, language_rego, metric,
  UpdateMetricConfigurationRequest, Tables, Service,
}
use clouditor.Orchestrator.Metrics.Configurations.{
  configuration_conds, saved_conds, update_metric_configuration, list_metric_configurations,
}
use clouditor.Orchestrator.Metrics.Configurations.Access.{
  Updated, update_metric_configuration-Updated,
}
use clouditor.Orchestrator.Metrics.Configurations.Listed.{
  found_or, get_one, lookup-list_metric_configurations,
}

-- A database that holds one configuration, the last that was saved.
abbrev Db : Type 0
Db = Option (MetricConfiguration ℕ)

abbrev last : Db → Result (MetricConfiguration ℕ)
last none = err record_not_found
last (some config) = ok config

abbrev encryption : Metric ℕ
encryption = record {
  id = "Encryption";
  name = "Encryption";
  description = "";
  category = "";
  scale = metric;
  range = none;
  interval = pos 0;
  implementation = none;
  deprecated_since = none;
}

abbrev table : {R : Type 0} → R → Table Db R
table r = record {
  create = λ r db. (ok tt, db);
  save = λ r conds db. (ok tt, db);
  update = λ r conds db. (ok tt, db);
  get = λ conds db. ok r;
  list = λ conds db order asc start size. ok (r ∷ []);
  count = λ conds db. ok 1;
  delete = λ conds db. (ok tt, db);
}

abbrev no_implementation : MetricImplementation
no_implementation = record { metric_id = ""; lang = language_rego; code = ""; updated_at = 0 }

abbrev tables : Tables Db ℕ
tables = record {
  metrics = table encryption;
  implementations = table no_implementation;
  configurations = record {
    create = λ config db. (ok tt, some config);
    save = λ config conds db. (ok tt, some config);
    update = λ config conds db. (ok tt, some config);
    get = λ conds db. last db;
    list = λ conds db order asc start size. ok [];
    count = λ conds db. ok 1;
    delete = λ conds db. (ok tt, none);
  };
}

abbrev allow_all : AuthorizationStrategy String
allow_all = record {
  check_access = λ ctx access id. true;
  allowed_cloud_services = λ ctx. (true, []);
}

abbrev no_rules : {A : Type 0} → Rules A
no_rules a = none

abbrev config : ℕ → Bool → ℕ → MetricConfiguration ℕ
config target is_default time = record {
  operator = "==";
  target_value = target;
  is_default = is_default;
  updated_at = time;
  metric_id = "Encryption";
  cloud_service_id = "service";
}

abbrev request : UpdateMetricConfigurationRequest ℕ
request = record {
  cloud_service_id = "service";
  metric_id = "Encryption";
  configuration = config 1 true 0;
}

abbrev start : Service Db ℕ
start = record {
  db = none;
  default_metric_configurations = ("Encryption", config 0 true 0) ∷ [];
  events = [];
}

abbrev after : Service Db ℕ
after = record start { db = some (config 1 false 7); events = changed request ∷ [] }

update_metric_configuration-Updated_example :
    Updated tables allow_all (some "user") no_rules 7 request start after (config 1 false 7)
unfolding update_metric_configuration
update_metric_configuration-Updated_example =
    update_metric_configuration-Updated tables allow_all (some "user") no_rules 7 request start
      after (config 1 false 7) refl

lookup-list_metric_configurations_example :
    lookup "Encryption" (("Encryption", config 0 true 0) ∷ []) ≡ (
      if contains (map (λ m. m.id) (encryption ∷ [])) "Encryption"
      then found_or
          (get_one tables allow_all (some "user") no_rules "service" "Encryption" start).0
          none
      else none)
unfolding list_metric_configurations lookup put is_record_not_found
lookup-list_metric_configurations_example =
    lookup-list_metric_configurations tables allow_all (some "user") no_rules "service" no_rules
      (encryption ∷ []) start (("Encryption", config 0 true 0) ∷ []) "Encryption" refl refl

saves :
    (c : MetricConfiguration ℕ) (db db' : Db)
    → tables.configurations.save c (saved_conds c.cloud_service_id c.metric_id) db ≡ (ok tt, db')
    → tables.configurations.get (configuration_conds c.cloud_service_id c.metric_id) db' ≡ ok c
saves c db db' h = ap (λ p. last p.1) (sym h)

abbrev caches : Caches (MetricConfiguration ℕ) String
caches = record {
  cached_configurations =
      ("service-Encryption", record { cached_at = 1; metric_configuration = config 0 true 0 }) ∷ [];
  queries = [];
}

metric_configuration-update_metric_configuration_example :
    (metric_configuration
      (orchestrator_client tables allow_all no_rules (some "assessment") after)
      8
      9
      "service"
      "Encryption"
      (handle_event (changed request) caches).cached_configurations).0
    ≡ ok (config 1 false 7)
unfolding update_metric_configuration
metric_configuration-update_metric_configuration_example =
    metric_configuration-update_metric_configuration tables allow_all no_rules no_rules
      (some "user") (some "assessment") 7 8 9 request start after (config 1 false 7) caches saves
      refl refl refl refl refl
