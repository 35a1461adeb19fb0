-- ===== src/Orchestrator/Results.antt =====
-- Assessment results: service/orchestrator/assessment_results.go. A hook is a name; informing it is
-- written down, at once, where the code starts a goroutine for it.
pub mod Access
pub mod Create
mod Tests
use clouditor.Prelude.{
  ℕ, String, Bool, true, false, not, ◌&&◌, Option, none, some, List, [], ◌∷◌, ◌++◌, map, contains,
  if◌then◌else◌,
}
use clouditor.Status.{
  Error, Result, ok, err, panic, status, not_found, internal, err_permission_denied,
  is_record_not_found,
}
use clouditor.Exec.{Exec, pure, raise, lift, gets, modify, require, map_err, ◌>>=◌, ◌>>◌}
use clouditor.Auth.{AuthorizationStrategy, access_read}
use clouditor.Auth.Grants.{may_access}
use clouditor.Validate.{Rules, validate}
use clouditor.Query.{
  Atom, equals, is_bool, in_list, atom, Clause, join_and, when_set, allowed_clauses,
}
use clouditor.Storage.{Table, Conds}
use clouditor.Page.{PageRequest, Wire, paginate_storage, default_pagination_opts}
use clouditor.Stream.{Turn, Outcome, serve}

pub record AssessmentResult : Type 0 where
  pub id : String
  pub timestamp : ℕ
  pub cloud_service_id : String
  pub metric_id : String
  pub compliant : Bool
  pub resource_id : String
  pub tool_id : Option String

pub record StoreRequest : Type 0 where
  pub result : AssessmentResult

pub record GetRequest : Type 0 where
  pub id : String

pub record Filter : Type 0 where
  pub cloud_service_id : Option String
  pub compliant : Option Bool
  -- `none` is nil
  pub metric_ids : Option (List String)
  pub tool_id : Option String

pub record ListRequest : Type 0 where
  pub filter : Option Filter
  pub latest_by_resource_id : Bool
  pub page : PageRequest

pub record ListResponse : Type 0 where
  pub results : List AssessmentResult
  pub next_page_token : String

pub record Service (D H : Type 0) : Type 0 where
  pub db : D
  pub hooks : List H
  -- the calls of hooks so far
  pub informed : List (H × AssessmentResult)

-- `!all && … != nil && !slices.Contains(allowed, …)`
unfoldable pub filter_allowed : Bool × List String → Option Filter → Bool
filter_allowed allowed none = true
filter_allowed allowed (some f) = elim f.cloud_service_id [
  | none ↦ true
  | some id ↦ may_access allowed id
]

unfoldable pub filter_clauses : Option Filter → List Clause
filter_clauses none = []
filter_clauses (some f) =
    when_set f.cloud_service_id (equals "cloud_service_id")
    ++ (when_set f.compliant (is_bool "compliant")
        ++ (when_set f.metric_ids (in_list "metric_id") ++ when_set f.tool_id (equals "tool_id")))

unfoldable pub get_error : Error → Error
get_error e =
    if is_record_not_found e
    then status not_found "assessment result not found"
    else status internal "database error"

-- The raw statement: of the rows that meet the condition, the latest of each resource and metric.
abbrev pub LatestCall : Type 0 → Type 0
LatestCall D = Conds → D → Result (List AssessmentResult)

abbrev pub calls : {H : Type 0} → List H → AssessmentResult → List (H × AssessmentResult)
calls hooks result = map (λ h. (h, result)) hooks

unfoldable pub fetch_results :
    {D : Type 0}
    → Table D AssessmentResult
    → LatestCall D
    → Wire
    → ListRequest
    → Conds
    → D
    → Result ListResponse
fetch_results table latest w req conds db =
    if req.latest_by_resource_id
    then elim (latest conds db) [
      | ok rows ↦ ok (record { results = rows; next_page_token = "" })
      | err e ↦ err (status internal "database error")
      | panic ↦ panic
    ]
    else elim (paginate_storage w req.page (table.list conds db) default_pagination_opts) [
      | ok page ↦ ok (record { results = page.0; next_page_token = page.1 })
      | err e ↦ err (status internal "could not paginate results")
      | panic ↦ panic
    ]

module _ {D H : Type 0} where
  unfoldable pub inform_hook : AssessmentResult → Exec (Service D H) (Unit {0})
  inform_hook result = modify (λ s. record s { informed = s.informed ++ calls s.hooks result })

  unfoldable pub register_assessment_result_hook : H → Exec (Service D H) (Unit {0})
  register_assessment_result_hook hook = modify (λ s. record s { hooks = s.hooks ++ hook ∷ [] })

  module _ {Ctx : Type 0} (authz : AuthorizationStrategy Ctx)
      (table : Table D AssessmentResult) where
    unfoldable pub get_assessment_result :
        Rules GetRequest → Option Ctx → Option GetRequest → Exec (Service D H) AssessmentResult
    unfolding validate
    get_assessment_result rules ctx request = do
      req ← lift (validate rules request)
      db ← gets (λ s. s.db)
      res ← map_err get_error (lift (table.get (atom (equals "Id" req.id) ∷ []) db))
      require (may_access (authz.allowed_cloud_services ctx) res.cloud_service_id)
          err_permission_denied
      pure res

    unfoldable pub list_assessment_results :
        LatestCall D
        → Wire
        → Rules ListRequest
        → Option Ctx
        → Option ListRequest
        → Exec (Service D H) ListResponse
    unfolding validate filter_allowed fetch_results
    list_assessment_results latest w rules ctx request = do
      req ← lift (validate rules request)
      require (filter_allowed (authz.allowed_cloud_services ctx) req.filter) err_permission_denied
      db ← gets (λ s. s.db)
      lift (
          fetch_results table latest w req
            (join_and
              (filter_clauses req.filter ++ allowed_clauses (authz.allowed_cloud_services ctx)))
            db)

    abbrev pub create : AssessmentResult → Exec (Service D H) (Unit {0})
    create result s = let (r, db') = table.create result s.db in (r, record s { db = db' })

    unfoldable pub store_assessment_result :
        Rules StoreRequest → Option Ctx → Option StoreRequest → Exec (Service D H) (Unit {0})
    unfolding validate inform_hook
    store_assessment_result rules ctx request = do
      req ← lift (validate rules request)
      require (authz.check_access ctx access_read req.result.cloud_service_id) err_permission_denied
      map_err (λ e. status internal "database error") (create req.result)
      inform_hook req.result

    unfoldable pub store_assessment_results :
        Rules StoreRequest
        → Option Ctx
        → List (Turn StoreRequest)
        → Service D H
        → Outcome (Service D H)
    store_assessment_results rules ctx turns = serve (store_assessment_result rules ctx) turns
