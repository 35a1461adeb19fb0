-- ===== src/Orchestrator/Results/Access.antt =====
-- Whose assessment results a caller sees.
use mathlib.Core.List.{map-append}
use clouditor.Prelude.{
  String, ◌≡◌, refl, sym, ◌∙◌, Bool, true, false, Option, none, some, List, [], ◌++◌, map, All,
  All-map, Bool-cases, inl, inr, arith,
}
use clouditor.Status.{ok}
use clouditor.Auth.{AuthorizationStrategy}
use clouditor.Auth.Grants.{may_access}
use clouditor.Validate.{Rules}
use clouditor.Query.{Atom, equals, is_bool, in_list, join_and, satisfies, allowed_clauses}
use clouditor.Query.Laws.{
  single, all_hold, all_hold-last, satisfies-singles, when_atom, when_set-single, allowed_atoms,
  allowed_clauses-single,
}
use clouditor.Storage.{Table, Conds}
use clouditor.Storage.Answers.{Answers, paginate_storage-All}
use clouditor.Page.{Wire, default_pagination_opts}
use clouditor.Orchestrator.Results.{
  AssessmentResult, Filter, GetRequest, ListRequest, ListResponse, Service, LatestCall,
  filter_clauses, fetch_results, get_assessment_result, list_assessment_results,
}

-- The comparisons that a filter asks for.
abbrev pub filter_atoms : Option Filter → List Atom
filter_atoms none = []
filter_atoms (some f) =
    when_atom f.cloud_service_id (equals "cloud_service_id")
    ++ (when_atom f.compliant (is_bool "compliant")
        ++ (when_atom f.metric_ids (in_list "metric_id") ++ when_atom f.tool_id (equals "tool_id")))

filter_clauses-single :
    (filter : Option Filter) → filter_clauses filter ≡ map single (filter_atoms filter)
unfolding filter_clauses
filter_clauses-single none = refl
filter_clauses-single (some f) = simp (map-append, when_set-single)

-- The condition of a listing is met by exactly the assessment results that meet every comparison of
-- the filter and belong to a service that the caller may access.
pub result_conds-all_hold :
    (row : Atom → Bool) (filter : Option Filter) (allowed : Bool × List String)
    → satisfies row (join_and (filter_clauses filter ++ allowed_clauses allowed))
      ≡ all_hold row (filter_atoms filter ++ allowed_atoms allowed)
result_conds-all_hold row filter allowed =
    rw
      (
        filter_clauses-single filter,
        allowed_clauses-single allowed,
        sym (map-append single (filter_atoms filter) (allowed_atoms allowed)),
      )
      (satisfies-singles row (filter_atoms filter ++ allowed_atoms allowed))

-- What the database is relied on for when it answers the raw statement.
abbrev pub AnswersLatest : {D : Type 0} → (AssessmentResult → Atom → Bool) → LatestCall D → Type 0
AnswersLatest {D} row latest =
    (conds : Conds) (db : D) (rows : List AssessmentResult)
    → latest conds db ≡ ok rows
    → All (λ r. satisfies (row r) conds ≡ true) rows

fetch_results-All :
    {D : Type 0} (table : Table D AssessmentResult) (row : AssessmentResult → Atom → Bool)
    (answers : Answers table row) (latest : LatestCall D) (latest_rows : AnswersLatest row latest)
    (w : Wire) (req : ListRequest) (conds : Conds) (db : D) (res : ListResponse)
    → fetch_results table latest w req conds db ≡ ok res
    → All (λ r. satisfies (row r) conds ≡ true) res.results
unfolding fetch_results
fetch_results-All table row answers latest latest_rows w req conds db res h =
    elim (Bool-cases req.latest_by_resource_id) [
      | inl e ↦ latest_rows conds db res.results (ground arith)
      | inr e ↦
          paginate_storage-All table row answers w req.page conds db default_pagination_opts
            res.results {npt = res.next_page_token} (ground arith)
    ]

module _ {D H Ctx : Type 0} (authz : AuthorizationStrategy Ctx)
    (table : Table D AssessmentResult) where
  -- Whatever the database answers, an assessment result is given back by its ID only to a caller
  -- that may access its cloud service.
  pub get_assessment_result-allowed :
      (rules : Rules GetRequest) (ctx : Option Ctx) (req : GetRequest) (s t : Service D H)
      (res : AssessmentResult)
      → get_assessment_result authz table rules ctx (some req) s ≡ (ok res, t)
      → may_access (authz.allowed_cloud_services ctx) res.cloud_service_id ≡ true
  unfolding get_assessment_result
  get_assessment_result-allowed rules ctx req s t res h = ground arith

  module _ (row : AssessmentResult → Atom → Bool) (answers : Answers table row)
      (latest : LatestCall D) (latest_rows : AnswersLatest row latest) where
    answered :
        (w : Wire) (rules : Rules ListRequest) (ctx : Option Ctx) (req : ListRequest)
        (s t : Service D H) (res : ListResponse)
        → list_assessment_results authz table latest w rules ctx (some req) s ≡ (ok res, t)
        → fetch_results table latest w req
            (join_and
              (filter_clauses req.filter ++ allowed_clauses (authz.allowed_cloud_services ctx)))
            s.db
          ≡ ok res
    unfolding list_assessment_results
    answered w rules ctx req s t res h = ground arith

    -- A caller that may access only some services gets from a listing, of all or of the latest
    -- assessment results, only those of these services, if the database gives only rows that meet
    -- the condition it is asked with.
    pub list_assessment_results-allowed :
        (w : Wire) (rules : Rules ListRequest) (ctx : Option Ctx) (req : ListRequest)
        (s t : Service D H) (res : ListResponse) (ids : List String)
        → authz.allowed_cloud_services ctx ≡ (false, ids)
        → list_assessment_results authz table latest w rules ctx (some req) s ≡ (ok res, t)
        → All (λ r. row r (in_list "cloud_service_id" ids) ≡ true) res.results
    list_assessment_results-allowed w rules ctx req s t res ids restricted h =
        All-map
          (λ r met.
            all_hold-last (row r) (filter_atoms req.filter) (in_list "cloud_service_id" ids) (
              sym (result_conds-all_hold (row r) req.filter (false, ids)) ∙ (rw restricted at met)))
          res.results
          (fetch_results-All table row answers latest latest_rows w req _ s.db res
            (answered w rules ctx req s t res h))
