-- ===== src/Evaluation/Results.antt =====
-- ListEvaluationResults and CreateEvaluationResult of service/evaluation/evaluation.go.
mod Tests
pub mod Scope
pub mod Access
pub mod Create
use clouditor.Prelude.{
  ℕ, String, Bool, true, false, not, ◌&&◌, ◌||◌, Option, none, some, List, [], ◌∷◌, ◌++◌, ◌==◌,
  if◌then◌else◌, contains,
}
use clouditor.Status.{
  Error, Result, ok, err, panic, status, invalid_argument, internal, err_permission_denied,
}
use clouditor.Exec.{Exec, pure, raise, lift, gets, require, map_err, ◌>>=◌, ◌>>◌}
use clouditor.Auth.{AuthorizationStrategy, access_read, access_create}
use clouditor.Validate.{Rules, validate}
use clouditor.Query.{
  Atom, equals, in_list, in_numbers, has_prefix, is_null, not_past, Token, atom, and, or, Clause,
  join_and, when_set, allowed_clauses,
}
use clouditor.Storage.{Table, Conds}
use clouditor.Page.{PageRequest, Wire, paginate_storage, default_pagination_opts}
use clouditor.Evaluation.Model.{
  EvaluationStatus, compliant_manually, not_compliant_manually, EvaluationResult,
}

pub record Filter : Type 0 where
  pub cloud_service_id : Option String
  pub catalog_id : Option String
  pub control_id : Option String
  pub sub_controls : Option String
  pub parents_only : Option Bool
  pub valid_manual_only : Option Bool

pub record ListRequest : Type 0 where
  pub filter : Option Filter
  pub latest_by_control_id : Option Bool
  pub page : PageRequest

pub record ListResponse : Type 0 where
  pub results : List EvaluationResult
  pub next_page_token : String

-- util.Deref and the generated getters: the zero value for nil.
abbrev pub deref_bool : Option Bool → Bool
deref_bool none = false
deref_bool (some b) = b

abbrev pub deref_text : Option String → String
deref_text none = ""
deref_text (some s) = s

-- EVALUATION_STATUS_COMPLIANT_MANUALLY and EVALUATION_STATUS_NOT_COMPLIANT_MANUALLY
abbrev pub manual_statuses : List ℕ
manual_statuses = 2 ∷ 4 ∷ []

abbrev pub parents_clauses : Bool → List Clause
parents_clauses true = (atom (is_null "parent_control_id") ∷ []) ∷ []
parents_clauses false = []

abbrev pub manual_clauses : Bool → List Clause
manual_clauses true =
    (atom (in_numbers "status" manual_statuses) ∷ [])
    ∷ (atom (is_null "valid_until") ∷ or ∷ atom (not_past "valid_until") ∷ [])
    ∷ []
manual_clauses false = []

unfoldable pub filter_clauses : Filter → List Clause
filter_clauses f =
    when_set f.cloud_service_id (equals "cloud_service_id")
    ++ (when_set f.catalog_id (equals "control_catalog_id")
        ++ (when_set f.control_id (equals "control_id")
            ++ (when_set f.sub_controls (has_prefix "control_id")
                ++ (parents_clauses (deref_bool f.parents_only)
                    ++ manual_clauses (deref_bool f.valid_manual_only)))))

unfoldable pub optional_filter_clauses : Option Filter → List Clause
unfolding filter_clauses
optional_filter_clauses none = []
optional_filter_clauses (some f) = filter_clauses f

-- The slice `query`, with its arguments.
unfoldable pub list_query : Option Filter → Bool × List String → List Clause
unfolding optional_filter_clauses
list_query filter allowed = optional_filter_clauses filter ++ allowed_clauses allowed

-- The columns that the raw query partitions by.
abbrev pub partition : Option Filter → List String
partition none = "control_id" ∷ []
partition (some f) = elim f.sub_controls [
  | none ↦ "control_id" ∷ []
  | some s ↦ "control_id" ∷ "control_id" ∷ []
]

-- The raw statement: of the rows that meet the condition, the latest of each partition.
abbrev pub LatestCall : Type 0 → Type 0
LatestCall D = List String → Conds → D → Result (List EvaluationResult)

module _ {Ctx D : Type 0} (authz : AuthorizationStrategy Ctx) (table : Table D EvaluationResult)
    (latest : LatestCall D) (w : Wire) where
  unfoldable pub filter_access : Option Ctx → Option Filter → Bool
  filter_access ctx none = true
  filter_access ctx (some f) = authz.check_access ctx access_read (deref_text f.cloud_service_id)

  unfoldable pub fetch_results : ListRequest → Conds → D → Result ListResponse
  fetch_results req conds db =
      if deref_bool req.latest_by_control_id
      then elim (latest (partition req.filter) conds db) [
        | ok rows ↦ ok (record { results = rows; next_page_token = "" })
        | err e ↦ err (status internal "database error")
        | panic ↦ panic
      ]
      else elim (paginate_storage w req.page (table.list conds db) default_pagination_opts) [
        | ok page ↦ ok (record { results = page.0; next_page_token = page.1 })
        | err e ↦ err (status internal "could not paginate results")
        | panic ↦ panic
      ]

  unfoldable pub list_evaluation_results :
      Rules ListRequest → Option Ctx → Option ListRequest → Exec D ListResponse
  unfolding filter_access fetch_results list_query validate
  list_evaluation_results rules ctx request = do
    req ← lift (validate rules request)
    require (filter_access ctx req.filter) err_permission_denied
    db ← gets (λ db. db)
    lift
        (fetch_results req (join_and (list_query req.filter (authz.allowed_cloud_services ctx))) db)

pub record CreateRequest : Type 0 where
  pub result : EvaluationResult

unfoldable pub is_manual : EvaluationStatus → Bool
is_manual compliant_manually = true
is_manual not_compliant_manually = true
is_manual _ = false

abbrev pub is_set {ℓ} : {A : Type ℓ} → Option A → Bool
is_set none = false
is_set (some a) = true

-- `fresh` is what uuid.NewString returns for this call.
unfoldable pub create_evaluation_result :
    {Ctx D : Type 0}
    → AuthorizationStrategy Ctx
    → Table D EvaluationResult
    → Rules CreateRequest
    → String
    → Option Ctx
    → Option CreateRequest
    → Exec D EvaluationResult
unfolding is_manual validate
create_evaluation_result authz table rules fresh ctx request = do
  req ← lift (validate rules request)
  require (is_manual req.result.status)
      (status invalid_argument "only manually set statuses are allowed")
  require (is_set req.result.valid_until) (status invalid_argument "validity must be set")
  require (authz.check_access ctx access_create req.result.cloud_service_id) err_permission_denied
  let res = record req.result { id = fresh }
  map_err (λ e. status internal "database error") (table.create res)
  pure res
