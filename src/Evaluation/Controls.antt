-- ===== src/Evaluation/Controls.antt =====
-- The cached controls of service/evaluation/evaluation.go: cacheControls, getControl,
-- getAllMetricsFromControl, getMetricsFromSubcontrols and getMetricIds.
pub mod Cached
use Prim.Native.String.{◌++◌ as str_append}
use clouditor.Prelude.{
  String, ◌≡◌, ◌≢◌, refl, sym, ap, ◌∙◌, inl, inr, Bool, true, false, Bool-cases, Option, none, some,
  List, [], ◌∷◌, ◌++◌, map, All, ◌==◌, if◌then◌else◌, eq_iff, arith,
}
use clouditor.Prelude.Maps.{Map, lookup, put, lookup-put}
use clouditor.Status.{Error, Result, ok, err, panic, plain, wrapped, ◌>>=◌, on_error}
use clouditor.Evaluation.Model.{Control, ControlFields, fields, controls, Metric}

-- map[catalog_id][category_name-control_id]*Control
abbrev pub CatalogControls : Type 0
CatalogControls = Map (Map Control)

-- fmt.Sprintf("%s-%s", categoryName, controlId)
abbrev pub tag : String → String → String
tag category_name id = str_append category_name (str_append "-" id)

abbrev pub tag_of : Control → String
tag_of c = tag (fields c).category_name (fields c).id

unfoldable pub put_all : List Control → Map Control → Map Control
put_all [] m = m
put_all (c ∷ cs) m = put_all cs (put (tag_of c) c m)

unfoldable pub store_controls : String → List Control → CatalogControls → Result CatalogControls
unfolding put_all
store_controls catalog_id [] cache = err (plain "no controls for catalog available")
store_controls catalog_id (c ∷ cs) cache = ok (put catalog_id (put_all (c ∷ cs) []) cache)

-- `listed` is what fetching all pages of the orchestrator's ListControls gives for the catalog.
unfoldable pub cache_controls :
    (String → Result (List Control)) → String → CatalogControls → Result CatalogControls
unfolding store_controls
cache_controls listed catalog_id cache =
    if catalog_id == ""
    then err (plain "catalog_id is missing")
    else listed catalog_id >>= λ cs. store_controls catalog_id cs cache

-- Reading a map that is not there finds nothing.
abbrev pub inner : Option (Map Control) → Map Control
inner none = []
inner (some m) = m

abbrev pub available : Option Control → Result Control
available none = err (plain "control not available")
available (some c) = ok c

unfoldable pub get_control : CatalogControls → String → String → String → Result Control
get_control cache catalog_id category_name control_id =
    if catalog_id == ""
    then err (plain "catalog_id is missing")
    else if category_name == ""
    then err (plain "category_name is missing")
    else if control_id == ""
    then err (plain "control_id is missing")
    else available (lookup (tag category_name control_id) (inner (lookup catalog_id cache)))

unfoldable pub get_metrics_from_subcontrols : CatalogControls → List Control → Result (List Metric)
get_metrics_from_subcontrols cache [] = ok []
get_metrics_from_subcontrols cache (c ∷ cs) =
    get_control cache (fields c).category_catalog_id (fields c).category_name (fields c).id
    >>= λ sub. get_metrics_from_subcontrols cache cs >>= λ rest. ok ((fields sub).metrics ++ rest)

unfoldable pub get_all_metrics_from_control :
    CatalogControls → String → String → String → Result (List Metric)
get_all_metrics_from_control cache catalog_id category_name control_id =
    on_error (get_control cache catalog_id category_name control_id)
      (λ e. err (wrapped "could not get control" e))
    >>= λ c.
        on_error (get_metrics_from_subcontrols cache (controls c))
          (λ e. err (wrapped "error getting metrics from sub-controls" e))
        >>= λ subs. ok ((fields c).metrics ++ subs)

abbrev pub get_metric_ids : List Metric → List String
get_metric_ids = map (λ m. m.id)
