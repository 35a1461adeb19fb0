-- ===== src/Evaluation/Results/Tests.antt =====
-- Listing and creating evaluation results over a small database.
use clouditor.Prelude.{
  String, ◌≡◌, refl, sym, Bool, true, false, not, Option, none, some, List, [], ◌∷◌, keep, keep-All,
  All, ◌==◌, contains, if◌then◌else◌,
}
use clouditor.Prelude.Int.{pos}
use clouditor.Status.{Result, ok, err, plain}
use clouditor.Auth.{AuthorizationStrategy}
use clouditor.Auth.Grants.{Coherent, may_access}
use clouditor.Validate.{Rules}
use clouditor.Query.{
  Atom, equals, is_bool, in_list, in_numbers, has_prefix, in_list_or_null, like_any, is_null,
  not_past, join_and, satisfies,
}
use clouditor.Storage.{Table, Conds}
use clouditor.Page.{
  PageRequest, Wire, paginate_storage, paginate, request_token, storage_pager, next_page,
  effective_size,
}
use clouditor.Evaluation.Model.{EvaluationStatus, compliant_manually, compliant, EvaluationResult}
use clouditor.Evaluation.Results.{
  Filter, ListRequest, ListResponse, CreateRequest, is_set, list_query, list_evaluation_results,
  create_evaluation_result,
}
use clouditor.Evaluation.Results.Scope.{list_query-escape}
use clouditor.Evaluation.Results.Access.{Answers, list_evaluation_results-allowed}
use clouditor.Evaluation.Results.Create.{Stored, create_evaluation_result-Stored}

abbrev Db : Type 0
Db = List EvaluationResult

abbrev column : String → EvaluationResult → String
column name r =
    if name == "cloud_service_id"
    then r.cloud_service_id
    else if name == "control_catalog_id"
    then r.control_catalog_id
    else r.control_id

-- The time is over for every validity.
abbrev row : EvaluationResult → Atom → Bool
row r (equals name v) = column name r == v
row r (in_list name vs) = contains vs (column name r)
row r (is_null name) =
    if name == "valid_until" then not (is_set r.valid_until) else not (is_set r.parent_control_id)
row r _ = false

abbrev matching : Conds → Db → Db
matching conds = keep (λ r. satisfies (row r) conds)

table : Table Db EvaluationResult
table = record {
  create = λ r db. (ok tt, r ∷ db);
  save = λ r conds db. (ok tt, r ∷ db);
  update = λ r conds db. (ok tt, r ∷ db);
  get = λ conds db. err (plain "not here");
  list = λ conds db order asc start size. ok (matching conds db);
  count = λ conds db. ok 0;
  delete = λ conds db. (ok tt, []);
}

abbrev latest : List String → Conds → Db → Result (List EvaluationResult)
latest columns conds db = ok (matching conds db)

-- Callers that name the service they may access.
abbrev own_service : AuthorizationStrategy String
own_service = record {
  check_access = λ ctx typ id. may_access (own ctx) id;
  allowed_cloud_services = own;
}
  where
    own : Option String → Bool × List String
    own none = (false, [])
    own (some id) = (false, id ∷ [])

abbrev stored_result : String → EvaluationStatus → EvaluationResult
stored_result service status = record {
  id = "r";
  timestamp = 0;
  control_category_name = "AC";
  control_id = "AC-1";
  parent_control_id = none;
  cloud_service_id = service;
  control_catalog_id = "C";
  status = status;
  failing_assessment_result_ids = [];
  valid_until = some 7;
}

abbrev database : Db
database = stored_result "s1" compliant ∷ stored_result "s2" compliant ∷ []

abbrev page : PageRequest
page = record { page_token = ""; page_size = pos 0; order_by = ""; asc = true }

abbrev wire : Wire
wire = record {
  marshal = λ t. err (plain "not here");
  unmarshal = λ b. err (plain "not here");
  base64_encode = λ b. "";
  base64_decode = λ s. err (plain "not here");
}

abbrev of_service : Option String → Option Bool → Filter
of_service service manual = record {
  cloud_service_id = service;
  catalog_id = none;
  control_id = none;
  sub_controls = none;
  parents_only = none;
  valid_manual_only = manual;
}

abbrev request : Option Filter → ListRequest
request filter = record { filter = filter; latest_by_control_id = none; page = page }

abbrev no_rules {ℓ} : {A : Type ℓ} → Rules A
no_rules a = none

-- A row of another service than the one asked for.
list_query-escape_example :
    satisfies
      (λ a. elim a [
        | equals name v ↦ false
        | is_bool name b ↦ false
        | in_list name vs ↦ true
        | in_numbers name ns ↦ false
        | has_prefix name v ↦ false
        | in_list_or_null name vs ↦ false
        | like_any name ps ↦ false
        | is_null name ↦ false
        | not_past name ↦ true
      ])
      (join_and (list_query (some (of_service (some "s1") (some true))) (false, "s2" ∷ [])))
    ≡ true
list_query-escape_example =
    list_query-escape _ (of_service (some "s1") (some true)) (false, "s2" ∷ []) refl refl refl

table-Answers : Answers own_service table latest row
unfolding table
table-Answers = record {
  listed = λ conds db order asc start size rows h.
      rw (sym (ok-inj h)) (keep-All (λ r. satisfies (row r) conds) db);
  latest_rows =
      λ columns conds db rows h. rw (sym (ok-inj h)) (keep-All (λ r. satisfies (row r) conds) db);
}
  where
    ok-inj : {A : Type 0} {a b : A} → ok a ≡ ok b → a ≡ b
    ok-inj h = cc

abbrev answer : ListResponse
answer = record { results = stored_result "s2" compliant ∷ []; next_page_token = "" }

list_evaluation_results-allowed_example :
    All (λ r. row r (in_list "cloud_service_id" ("s2" ∷ [])) ≡ true) answer.results
unfolding paginate_storage paginate request_token storage_pager next_page satisfies join_and
    effective_size
list_evaluation_results-allowed_example =
    list_evaluation_results-allowed own_service table latest row wire table-Answers no_rules
      (some "s2") (request none) database answer database ("s2" ∷ []) refl refl
      (unfold list_evaluation_results table in refl)

own_service-Coherent : Coherent own_service
own_service-Coherent = record { agree = λ ctx typ id. refl }

abbrev manual : CreateRequest
manual = record { result = stored_result "s2" compliant_manually }

create_evaluation_result-Stored_example :
    Stored own_service table no_rules "new"
      (some "s2")
      manual
      []
      (record manual.result { id = "new" })
      (record manual.result { id = "new" } ∷ [])
create_evaluation_result-Stored_example =
    create_evaluation_result-Stored own_service table no_rules "new" (some "s2") manual []
      (record manual.result { id = "new" }) (record manual.result { id = "new" } ∷ [])
      (unfold create_evaluation_result table in refl)
