-- ===== src/Orchestrator/Metrics.antt =====
-- Metrics, their implementations and their configurations: service/orchestrator/metrics.go, with the
-- messages of api/assessment/metric.proto. A JSON value is of a type V. An event that a goroutine
-- gives to the channel of events is written down at once; the time of a call is an argument. The
-- handlers are in the children.
pub mod Ranges
pub mod Handlers
pub mod Configurations
pub mod Loading
use clouditor.Prelude.{
  ℕ, String, Bool, true, false, not, Option, none, some, List, [], ◌∷◌, ◌++◌, ◌==ℕ◌, if◌then◌else◌,
}
use clouditor.Prelude.Int.{ℤ}
use clouditor.Prelude.Maps.{Map, lookup, put}
use clouditor.Status.{
  Error, Result, ok, err, panic, status, wrapped, not_found, internal, already_exists,
  failed_precondition, unknown, record_not_found, err_permission_denied, is_record_not_found,
  is_constraint_failed, is_eof,
}
use clouditor.Exec.{Exec, pure, raise, lift, gets, modify, require, map_err, ◌>>=◌, ◌>>◌}
use clouditor.Auth.{AuthorizationStrategy, access_read}
use clouditor.Validate.{Rules, validate}
use clouditor.Query.{equals, is_null, atom, and}
use clouditor.Storage.{Table, Conds}
use clouditor.Page.{PageRequest, Wire, paginate_storage, default_pagination_opts}
use clouditor.Policies.{
  MetricChangeEvent, MetricEventType, type_config_changed, type_implementation_changed,
  type_metadata_changed,
}

pub data Scale : Type 0 where
  scale_unspecified nominal ordinal metric : Scale

-- The message Range; `none` is nil.
pub data Range (V : Type 0) : Type 0 where
  allowed_values order : List V → Range V
  min_max : ℤ → ℤ → Range V

pub data Language : Type 0 where
  language_unspecified language_rego : Language

pub record MetricImplementation : Type 0 where
  pub metric_id : String
  pub lang : Language
  pub code : String
  pub updated_at : ℕ

pub record Metric (V : Type 0) : Type 0 where
  pub id : String
  pub name : String
  pub description : String
  pub category : String
  pub scale : Scale
  pub range : Option (Range V)
  pub interval : ℤ
  pub implementation : Option MetricImplementation
  pub deprecated_since : Option ℕ

pub record MetricConfiguration (V : Type 0) : Type 0 where
  pub operator : String
  pub target_value : V
  pub is_default : Bool
  pub updated_at : ℕ
  pub metric_id : String
  pub cloud_service_id : String

-- CreateMetricRequest and UpdateMetricRequest
pub record MetricRequest (V : Type 0) : Type 0 where
  pub metric : Metric V

pub record UpdateMetricImplementationRequest : Type 0 where
  pub implementation : MetricImplementation

-- RemoveMetricRequest, GetMetricRequest and GetMetricImplementationRequest
pub record MetricIdRequest : Type 0 where
  pub metric_id : String

-- `none` is a request without a filter, or a filter without the flag.
pub record ListMetricsRequest : Type 0 where
  pub include_deprecated : Option Bool
  pub page : PageRequest

pub record GetMetricConfigurationRequest : Type 0 where
  pub cloud_service_id : String
  pub metric_id : String

pub record UpdateMetricConfigurationRequest (V : Type 0) : Type 0 where
  pub cloud_service_id : String
  pub metric_id : String
  pub configuration : MetricConfiguration V

pub record ListMetricConfigurationRequest : Type 0 where
  pub cloud_service_id : String

-- The tables of the database, at the types of the records.
pub record Tables (D V : Type 0) : Type 0 where
  pub metrics : Table D (Metric V)
  pub implementations : Table D MetricImplementation
  pub configurations : Table D (MetricConfiguration V)

pub record Service (D V : Type 0) : Type 0 where
  pub db : D
  pub default_metric_configurations : Map (MetricConfiguration V)
  -- the events given to the channel, the last one last
  pub events : List MetricChangeEvent

abbrev pub err_metric_not_found : Error
err_metric_not_found = status not_found "metric not found"

abbrev pub database_error : Error → Error
database_error e = status internal "database error"

unfoldable pub metric_error : Error → Error
metric_error e =
    if is_record_not_found e then err_metric_not_found else status internal "database error"

-- `err == persistence.ErrRecordNotFound` is not errors.Is.
unfoldable pub implementation_error : Error → Error
implementation_error record_not_found = status not_found "implementation for metric not found"
implementation_error _ = status internal "could not retrieve metric implementation"

unfoldable pub configuration_error : Error → Error
configuration_error e =
    if is_constraint_failed e
    then status not_found "metric or service does not exist"
    else status internal "database error"

-- UpdateMetric keeps the other fields of the metric that it has found.
abbrev pub with_metadata : {V : Type 0} → Metric V → Metric V → Metric V
with_metadata given found = record found {
  name = given.name;
  description = given.description;
  category = given.category;
  range = given.range;
  scale = given.scale;
  deprecated_since = given.deprecated_since;
}

abbrev pub deprecated : {V : Type 0} → ℕ → Metric V → Metric V
deprecated now m = record m { deprecated_since = some (since m.deprecated_since) }
  where
    since : Option ℕ → ℕ
    since none = now
    since (some time) = time

-- The copy of a default configuration for a cloud service.
abbrev pub for_service : {V : Type 0} → String → MetricConfiguration V → MetricConfiguration V
for_service cloud_service_id config = record config { cloud_service_id = cloud_service_id }

abbrev pub is_set : {A : Type 0} → Option A → Bool
is_set none = false
is_set (some a) = true

abbrev pub deprecated_conds : Option Bool → Conds
deprecated_conds (some true) = []
deprecated_conds _ = atom (is_null "deprecated_since") ∷ []

abbrev pub metadata_changed : String → MetricChangeEvent
metadata_changed id = record { type = type_metadata_changed; metric_id = id; cloud_service_id = "" }

module _ {D V : Type 0} (tables : Tables D V) where
  abbrev pub on_db : Exec D (Unit {0}) → Exec (Service D V) (Unit {0})
  on_db call s = let (outcome, db) = call s.db in (outcome, record s { db = db })

  abbrev pub notify : MetricChangeEvent → Exec (Service D V) (Unit {0})
  notify event = modify (λ s. record s { events = s.events ++ event ∷ [] })
