-- ===== src/Evaluation/Results/Access.antt =====
-- Whose evaluation results a caller of ListEvaluationResults sees.
use clouditor.Prelude.{
  String, ◌≡◌, sym, ◌∙◌, inl, inr, Bool, true, false, Option, none, some, List, All, All-map, arith,
  Bool-cases,
}
use clouditor.Prelude.Int.{ℤ}
use clouditor.Status.{ok, err, err_permission_denied}
use clouditor.Auth.{AuthorizationStrategy, access_read}
use clouditor.Auth.Grants.{Coherent, may_access}
use clouditor.Validate.{Rules}
use clouditor.Query.{Atom, in_list, join_and, satisfies}
use clouditor.Query.Laws.{all_hold-last}
use clouditor.Storage.{Table, Conds}
use clouditor.Page.{Wire, default_pagination_opts, effective_size}
use clouditor.Page.Source.{paginate_storage-listed}
use clouditor.Evaluation.Model.{EvaluationResult}
use clouditor.Evaluation.Results.{
  Filter, ListRequest, ListResponse, LatestCall, deref_bool, deref_text, partition, fetch_results,
  list_query, list_evaluation_results,
}
use clouditor.Evaluation.Results.Scope.{filter_atoms, wants_manual, list_query-all_hold}

module _ {Ctx D : Type 0} (authz : AuthorizationStrategy Ctx) (table : Table D EvaluationResult)
    (latest : LatestCall D) (row : EvaluationResult → Atom → Bool) where
  -- The database gives only rows that meet the condition it is asked with; `row` says which
  -- comparisons a row meets.
  pub record Answers : Type 0 where
    pub listed :
        (conds : Conds) (db : D) (order : String) (asc : Bool) (start size : ℤ)
        (rows : List EvaluationResult)
        → table.list conds db order asc start size ≡ ok rows
        → All (λ r. satisfies (row r) conds ≡ true) rows
    pub latest_rows :
        (columns : List String) (conds : Conds) (db : D) (rows : List EvaluationResult)
        → latest columns conds db ≡ ok rows
        → All (λ r. satisfies (row r) conds ≡ true) rows

  module _ (w : Wire) (answers : Answers) where
    fetch_results-All :
        (req : ListRequest) (conds : Conds) (db : D) (res : ListResponse)
        → fetch_results authz table latest w req conds db ≡ ok res
        → All (λ r. satisfies (row r) conds ≡ true) res.results
    unfolding fetch_results
    fetch_results-All req conds db res h = elim (Bool-cases (deref_bool req.latest_by_control_id)) [
      | inl e ↦ answers.latest_rows (partition req.filter) conds db res.results (ground arith)
      | inr e ↦
          let (start, from) =
            paginate_storage-listed w req.page (table.list conds db) default_pagination_opts
              res.results {npt = res.next_page_token} (ground arith) in
          answers.listed conds db req.page.order_by req.page.asc start
            (effective_size req.page default_pagination_opts) res.results from
    ]

    answered :
        (rules : Rules ListRequest) (ctx : Option Ctx) (req : ListRequest) (db : D)
        (res : ListResponse) (db' : D)
        → list_evaluation_results authz table latest w rules ctx (some req) db ≡ (ok res, db')
        → fetch_results authz table latest w req
            (join_and (list_query req.filter (authz.allowed_cloud_services ctx)))
            db
          ≡ ok res
    unfolding list_evaluation_results
    answered rules ctx req db res db' h = ground arith

    -- A caller that may access only some services gets, from a listing that does not ask for valid
    -- manual results alone, only results whose cloud service is one of them, if the database gives
    -- only rows that meet the condition it is asked with.
    pub list_evaluation_results-allowed :
        (rules : Rules ListRequest) (ctx : Option Ctx) (req : ListRequest) (db : D)
        (res : ListResponse) (db' : D) (ids : List String)
        → authz.allowed_cloud_services ctx ≡ (false, ids)
        → wants_manual req.filter ≡ false
        → list_evaluation_results authz table latest w rules ctx (some req) db ≡ (ok res, db')
        → All (λ r. row r (in_list "cloud_service_id" ids) ≡ true) res.results
    list_evaluation_results-allowed rules ctx req db res db' ids restricted plain h =
        All-map
          (λ r met.
            all_hold-last (row r) (filter_atoms req.filter) (in_list "cloud_service_id" ids) (
              sym (list_query-all_hold (row r) req.filter (false, ids) plain)
              ∙ (rw restricted at met)))
          res.results (fetch_results-All req _ db res (answered rules ctx req db res db' h))

  -- A listing for a service that the caller may not access is refused, and a listing whose filter
  -- names no service is refused to every caller that may not access all of them.
  pub list_evaluation_results-denied :
      (w : Wire) (coherent : Coherent authz) (rules : Rules ListRequest) (ctx : Option Ctx)
      (req : ListRequest) (f : Filter) (db : D)
      → rules req ≡ none
      → req.filter ≡ some f
      → may_access (authz.allowed_cloud_services ctx) (deref_text f.cloud_service_id) ≡ false
      → list_evaluation_results authz table latest w rules ctx (some req) db
        ≡ (err err_permission_denied, db)
  unfolding list_evaluation_results
  list_evaluation_results-denied w coherent rules ctx req f db valid filtered denied =
      ground (arith, coherent.agree ctx access_read (deref_text f.cloud_service_id))
