-- ===== src/Evidence/Tests.antt =====
-- The evidence store over a small database, with one hook.
use mathlib.Core.List.{Perm}
use clouditor.Prelude.{
  String, ◌≡◌, refl, sym, ◌⊎◌, Bool, true, false, Option, none, some, List, [], ◌∷◌, keep, keep-All,
  All, ◌==◌, contains, if◌then◌else◌,
}
use clouditor.Prelude.Int.{pos}
use clouditor.Status.{Result, ok, err, panic, plain, record_not_found, unique_constraint_failed}
use clouditor.Auth.{AuthorizationStrategy}
use clouditor.Auth.Grants.{may_access}
use clouditor.Validate.{Rules}
use clouditor.Query.{Atom, equals, in_list, satisfies}
use clouditor.Storage.{Table, Conds}
use clouditor.Storage.Answers.{Answers}
use clouditor.Page.{PageRequest, Wire}
use clouditor.Stream.{Turn, serve}
use clouditor.Stream.Served.{Fair, heard, serve-Served}
use clouditor.Evidence.{
  Evidence, StoreRequest, Filter, Service, inform_hooks, store_evidence, store_evidences,
}
use clouditor.Evidence.Informed.{Runs, finished, runs, store_evidences-informed}

abbrev Db : Type 0
Db = List Evidence

abbrev column : String → Evidence → String
column name ev =
    if name == "cloud_service_id"
    then ev.cloud_service_id
    else if name == "tool_id"
    then ev.tool_id
    else ev.id

abbrev row : Evidence → Atom → Bool
row ev (equals name v) = column name ev == v
row ev (in_list name vs) = contains vs (column name ev)
row ev _ = false

abbrev matching : Conds → Db → Db
matching conds = keep (λ ev. satisfies (row ev) conds)

abbrev first : Db → Result Evidence
first [] = err record_not_found
first (ev ∷ evs) = ok ev

abbrev is_stored : String → Db → Bool
is_stored id [] = false
is_stored id (ev ∷ evs) = if ev.id == id then true else is_stored id evs

abbrev table : Table Db Evidence
table = record {
  create =
      λ ev db. if is_stored ev.id db then (err unique_constraint_failed, db) else (ok tt, ev ∷ db);
  save = λ ev conds db. (ok tt, ev ∷ db);
  update = λ ev conds db. (ok tt, ev ∷ db);
  get = λ conds db. first (matching conds db);
  list = λ conds db order asc start size. ok (matching conds db);
  count = λ conds db. ok 0;
  delete = λ conds db. (ok tt, []);
}

ok-inj : {A : Type 0} {a b : A} → ok a ≡ ok b → a ≡ b
ok-inj h = cc

first-All :
    (p : Evidence → Bool) (evs : Db) (ev : Evidence)
    → All (λ e. p e ≡ true) evs
    → first evs ≡ ok ev
    → p ev ≡ true
first-All p [] ev h e = cc
first-All p (x ∷ xs) ev h e = rw (sym (ok-inj e)) (h.0)

table-Answers : Answers table row
table-Answers = record {
  listed = λ conds db order asc start size rows h.
      rw (sym (ok-inj h)) (keep-All (λ ev. satisfies (row ev) conds) db);
  got = λ conds db ev h.
      first-All (λ e. satisfies (row e) conds) (matching conds db) ev
        (keep-All (λ e. satisfies (row e) conds) db) h;
}

abbrev own : Option String → Bool × List String
own none = (false, [])
own (some id) = (false, id ∷ [])

-- Callers that name the service they may access.
abbrev own_service : AuthorizationStrategy String
own_service = record {
  check_access = λ ctx typ id. may_access (own ctx) id;
  allowed_cloud_services = own;
}

abbrev no_rules : {A : Type 0} → Rules A
no_rules a = none

abbrev evidence : String → String → Evidence
evidence id service = record { id = id; timestamp = 0; cloud_service_id = service; tool_id = "t" }

abbrev store : Db → Service Db String
store db = record { db = db; evidence_hooks = "hook" ∷ []; started = []; informed = [] }

abbrev wire : Wire
wire = record {
  marshal = λ t. err (plain "not here");
  unmarshal = λ b. err (plain "not here");
  base64_encode = λ b. "";
  base64_decode = λ s. err (plain "not here");
}

-- The second evidence is there already, and the third belongs to another service.
abbrev turns : List (Turn StoreRequest)
turns =
    (ok (record { evidence = evidence "e1" "s2" }), ok tt)
    ∷ (ok (record { evidence = evidence "e1" "s2" }), ok tt)
    ∷ (ok (record { evidence = evidence "e2" "s1" }), ok tt)
    ∷ (ok (record { evidence = evidence "e3" "s2" }), ok tt)
    ∷ []

abbrev served : Service Db String
served = (store_evidences own_service table no_rules (some "s2") turns (store [])).1.1

-- The goroutine of the second evidence runs first.
abbrev informed : Service Db String
informed = record served {
  started = [];
  informed = ("hook", evidence "e3" "s2") ∷ ("hook", evidence "e1" "s2") ∷ [];
}

all_run : Runs served informed
unfolding store_evidences serve store_evidence inform_hooks
all_run =
    runs (evidence "e3" "s2") (evidence "e1" "s2" ∷ []) [] refl
      (runs (evidence "e1" "s2") [] [] refl (finished refl))

store_evidences-informed_example :
    ((store_evidences own_service table no_rules (some "s2") turns (store [])).0 ≡ panic)
    ⊎ Perm informed.informed (("hook", evidence "e1" "s2") ∷ ("hook", evidence "e3" "s2") ∷ [])
unfolding store_evidences serve store_evidence
store_evidences-informed_example =
    store_evidences-informed own_service table no_rules (some "s2") turns (store []) informed refl
      all_run

serve-Served_example :
    Fair
      (store_evidence own_service table no_rules (some "s2"))
      (heard turns)
      (store [])
      (serve (store_evidence own_service table no_rules (some "s2")) turns (store []))
serve-Served_example =
    serve-Served (store_evidence own_service table no_rules (some "s2")) turns (store [])

abbrev tool_filter : Option Filter
tool_filter = some (record { cloud_service_id = ""; tool_id = "t" })

abbrev two : Db
two = evidence "e1" "s1" ∷ evidence "e2" "s2" ∷ []

abbrev page : PageRequest
page = record { page_token = ""; page_size = pos 0; order_by = ""; asc = true }
