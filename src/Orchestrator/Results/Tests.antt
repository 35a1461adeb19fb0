-- ===== src/Orchestrator/Results/Tests.antt =====
-- Assessment results over a small database, with one hook.
use clouditor.Prelude.{
  String, ◌≡◌, refl, sym, Bool, true, false, Option, none, some, List, [], ◌∷◌, keep, keep-All, All,
  ◌==◌, contains, if◌then◌else◌,
}
use clouditor.Prelude.Int.{pos}
use clouditor.Status.{Result, ok, err, plain, record_not_found}
use clouditor.Auth.{AuthorizationStrategy}
use clouditor.Auth.Grants.{may_access}
use clouditor.Validate.{Rules}
use clouditor.Query.{Atom, equals, in_list, join_and, satisfies}
use clouditor.Storage.{Table, Conds}
use clouditor.Storage.Answers.{Answers}
use clouditor.Page.{Wire}
use clouditor.Stream.{Turn}
use clouditor.Orchestrator.Results.{
  AssessmentResult, StoreRequest, Filter, Service, LatestCall, filter_clauses,
  list_assessment_results,
}
use clouditor.Orchestrator.Results.Access.{AnswersLatest, list_assessment_results-allowed}

abbrev Db : Type 0
Db = List AssessmentResult

abbrev column : String → AssessmentResult → String
column name r =
    if name == "cloud_service_id"
    then r.cloud_service_id
    else if name == "metric_id"
    then r.metric_id
    else r.id

abbrev row : AssessmentResult → Atom → Bool
row r (equals name v) = column name r == v
row r (in_list name vs) = contains vs (column name r)
row r _ = false

abbrev matching : Conds → Db → Db
matching conds = keep (λ r. satisfies (row r) conds)

abbrev first : Db → Result AssessmentResult
first [] = err record_not_found
first (r ∷ rs) = ok r

abbrev table : Table Db AssessmentResult
table = record {
  create = λ r db. (ok tt, r ∷ db);
  save = λ r conds db. (ok tt, r ∷ db);
  update = λ r conds db. (ok tt, r ∷ db);
  get = λ conds db. first (matching conds db);
  list = λ conds db order asc start size. ok (matching conds db);
  count = λ conds db. ok 0;
  delete = λ conds db. (ok tt, []);
}

ok-inj : {A : Type 0} {a b : A} → ok a ≡ ok b → a ≡ b
ok-inj h = cc

first-All :
    (p : AssessmentResult → Bool) (rs : Db) (r : AssessmentResult)
    → All (λ e. p e ≡ true) rs
    → first rs ≡ ok r
    → p r ≡ true
first-All p [] r h e = cc
first-All p (x ∷ xs) r h e = rw (sym (ok-inj e)) (h.0)

table-Answers : Answers table row
table-Answers = record {
  listed = λ conds db order asc start size rows h.
      rw (sym (ok-inj h)) (keep-All (λ r. satisfies (row r) conds) db);
  got = λ conds db r h.
      first-All (λ e. satisfies (row e) conds) (matching conds db) r
        (keep-All (λ e. satisfies (row e) conds) db) h;
}

abbrev latest : LatestCall Db
latest conds db = ok (matching conds db)

latest-AnswersLatest : AnswersLatest row latest
latest-AnswersLatest conds db rows h =
    rw (sym (ok-inj h)) (keep-All (λ r. satisfies (row r) conds) db)

abbrev own : Option String → Bool × List String
own none = (false, [])
own (some id) = (false, id ∷ [])

-- Callers that name the service they may access.
abbrev own_service : AuthorizationStrategy String
own_service = record {
  check_access = λ ctx typ id. may_access (own ctx) id;
  allowed_cloud_services = own;
}

abbrev no_rules : {A : Type 0} → Rules A
no_rules a = none

abbrev result : String → String → AssessmentResult
result id service = record {
  id = id;
  timestamp = 0;
  cloud_service_id = service;
  metric_id = "m1";
  compliant = true;
  resource_id = "r1";
  tool_id = none;
}

abbrev store : Db → Service Db String
store db = record { db = db; hooks = "hook" ∷ []; informed = [] }

abbrev two : Db
two = result "a1" "s1" ∷ result "a2" "s2" ∷ []

abbrev wire : Wire
wire = record {
  marshal = λ t. err (plain "not here");
  unmarshal = λ b. err (plain "not here");
  base64_encode = λ b. "";
  base64_decode = λ s. err (plain "not here");
}

-- The second result belongs to another service.
abbrev turns : List (Turn StoreRequest)
turns =
    (ok (record { result = result "a1" "s2" }), ok tt)
    ∷ (ok (record { result = result "a2" "s1" }), ok tt)
    ∷ (ok (record { result = result "a3" "s2" }), ok tt)
    ∷ []

abbrev metric_filter : Option Filter
metric_filter = some (record {
  cloud_service_id = none;
  compliant = none;
  metric_ids = some ("m1" ∷ []);
  tool_id = none;
})

list_assessment_results-allowed_example :
    All (λ r. row r (in_list "cloud_service_id" ("s2" ∷ [])) ≡ true) (result "a2" "s2" ∷ [])
unfolding satisfies join_and filter_clauses
list_assessment_results-allowed_example =
    list_assessment_results-allowed own_service table row table-Answers latest latest-AnswersLatest
      wire no_rules (some "s2")
      (record {
        filter = metric_filter;
        latest_by_resource_id = true;
        page = record { page_token = ""; page_size = pos 0; order_by = ""; asc = true };
      })
      (store two) (store two) (record { results = result "a2" "s2" ∷ []; next_page_token = "" })
      ("s2" ∷ []) refl (unfold list_assessment_results in refl)
