-- ===== src/Orchestrator/Catalogs.antt =====
-- Catalogs of controls: service/orchestrator/catalogs.go. The files and their JSON are a parameter;
-- which associations of a record the database loads is not modelled.
pub mod Errors
pub mod Loading
mod Tests
use clouditor.Prelude.{
  String, Bool, true, false, not, ◌&&◌, Option, none, some, List, [], ◌∷◌, ◌++◌, ◌==◌,
  if◌then◌else◌,
}
use clouditor.Status.{
  Error, Result, ok, err, panic, status, not_found, internal, is_record_not_found,
}
use clouditor.Exec.{Exec, pure, lift, gets, map_err, ◌>>=◌, ◌>>◌}
use clouditor.Validate.{Rules, validate}
use clouditor.Query.{equals, in_list_or_null, atom, and, Clause, join_and}
use clouditor.Storage.{Table, Conds}
use clouditor.Page.{PageRequest, Wire, paginate_storage, default_pagination_opts}

-- The fields of a control beside its sub-controls and its metrics.
pub record ControlFields : Type 0 where
  pub id : String
  pub category_name : String
  pub category_catalog_id : String
  pub name : String
  pub description : String
  pub parent_control_id : Option String
  pub parent_control_category_name : Option String
  pub parent_control_category_catalog_id : Option String
  pub assurance_level : Option String

mutual
  pub data Control : Type 0 where
    control : ControlFields → Controls → Control

  pub data Controls : Type 0 where
    nil : Controls
    cons : Control → Controls → Controls

pub record Category : Type 0 where
  pub name : String
  pub catalog_id : String
  pub description : String
  pub controls : Controls

-- A catalog; X is the rest of its fields.
pub record Catalog (X : Type 0) : Type 0 where
  pub id : String
  pub categories : List Category
  pub rest : X

-- CreateCatalogRequest and UpdateCatalogRequest
pub record CatalogRequest (X : Type 0) : Type 0 where
  pub catalog : Catalog X

-- GetCatalogRequest and RemoveCatalogRequest
pub record CatalogIdRequest : Type 0 where
  pub catalog_id : String

pub record GetCategoryRequest : Type 0 where
  pub catalog_id : String
  pub category_name : String

pub record GetControlRequest : Type 0 where
  pub catalog_id : String
  pub category_name : String
  pub control_id : String

-- `none` is a request without a filter.
pub record ListControlsRequest : Type 0 where
  pub catalog_id : String
  pub category_name : String
  pub assurance_levels : Option (List String)
  pub page : PageRequest

abbrev db_error : Error → Error
db_error e = status internal "database error"

-- The error of a record that is not found, with its message.
unfoldable pub missing_error : String → Error → Error
missing_error message e =
    if is_record_not_found e then status not_found message else status internal "database error"

-- `if len(levels) > 0`
abbrev pub level_clauses : Option (List String) → List Clause
level_clauses (some (level ∷ levels)) =
    (atom (in_list_or_null "assurance_level" (level ∷ levels)) ∷ []) ∷ []
level_clauses _ = []

abbrev when : Bool → Clause → List Clause
when true clause = clause ∷ []
when false clause = []

-- The condition of ListControls.
unfoldable pub control_clauses : ListControlsRequest → List Clause
control_clauses req =
    when (not (req.category_name == "") && not (req.catalog_id == ""))
      (atom (equals "category_name" req.category_name) ∷ [])
    ++ (when (not (req.catalog_id == "")) (atom (equals "category_catalog_id" req.catalog_id) ∷ [])
        ++ level_clauses req.assurance_levels)

-- The state of the service is the database.
module _ {D X : Type 0} (table : Table D (Catalog X)) where
  unfoldable pub create_catalog :
      Rules (CatalogRequest X) → Option (CatalogRequest X) → Exec D (Catalog X)
  unfolding validate
  create_catalog rules request = do
    req ← lift (validate rules request)
    map_err db_error (table.create req.catalog)
    pure req.catalog

  unfoldable pub get_catalog : Rules CatalogIdRequest → Option CatalogIdRequest → Exec D (Catalog X)
  unfolding validate missing_error
  get_catalog rules request = do
    req ← lift (validate rules request)
    db ← gets (λ s. s)
    map_err (missing_error "catalog not found")
        (lift (table.get (atom (equals "Id" req.catalog_id) ∷ []) db))

  unfoldable pub list_catalogs :
      Wire → Rules PageRequest → Option PageRequest → Exec D (List (Catalog X) × String)
  unfolding validate
  list_catalogs w rules request = do
    req ← lift (validate rules request)
    db ← gets (λ s. s)
    map_err (λ e. status internal "could not paginate results")
        (lift (paginate_storage w req (table.list [] db) default_pagination_opts))

  unfoldable pub update_catalog :
      Rules (CatalogRequest X) → Option (CatalogRequest X) → Exec D (Catalog X)
  unfolding validate missing_error
  update_catalog rules request = do
    req ← lift (validate rules request)
    map_err (missing_error "catalog not found")
        (table.update req.catalog (atom (equals "id" req.catalog.id) ∷ []))
    pure req.catalog

  unfoldable pub remove_catalog :
      Rules CatalogIdRequest → Option CatalogIdRequest → Exec D (Unit {0})
  unfolding validate missing_error
  remove_catalog rules request = do
    req ← lift (validate rules request)
    map_err (missing_error "catalog not found")
        (table.delete (atom (equals "Id" req.catalog_id) ∷ []))

module _ {D : Type 0} where
  unfoldable pub get_category :
      Table D Category → Rules GetCategoryRequest → Option GetCategoryRequest → Exec D Category
  unfolding validate missing_error
  get_category table rules request = do
    req ← lift (validate rules request)
    db ← gets (λ s. s)
    map_err (missing_error "category not found") (
        lift (
          table.get
            (atom (equals "name" req.category_name)
              ∷ and
              ∷ atom (equals "catalog_id" req.catalog_id)
              ∷ [])
            db))

  unfoldable pub get_control :
      Table D Control → Rules GetControlRequest → Option GetControlRequest → Exec D Control
  unfolding validate missing_error
  get_control table rules request = do
    req ← lift (validate rules request)
    db ← gets (λ s. s)
    map_err (missing_error "control not found") (
        lift (
          table.get
            (atom (equals "Id" req.control_id)
              ∷ and
              ∷ atom (equals "category_name" req.category_name)
              ∷ and
              ∷ atom (equals "category_catalog_id" req.catalog_id)
              ∷ [])
            db))

  unfoldable pub list_controls :
      Table D Control
      → Wire
      → Rules ListControlsRequest
      → Option ListControlsRequest
      → Exec D (List Control × String)
  unfolding validate control_clauses
  list_controls table w rules request = do
    req ← lift (validate rules request)
    db ← gets (λ s. s)
    map_err (λ e. status internal "could not paginate results")
        (lift (
          paginate_storage w req.page (table.list (join_and (control_clauses req)) db)
            default_pagination_opts))
