-- ===== src/Discovery/Tests.antt =====
-- A run of a discoverer, and listings over a small database.
use clouditor.Prelude.{
  ℕ, String, ◌≡◌, ◌≢◌, refl, sym, Bool, true, false, Option, none, some, List, [], ◌∷◌, length,
  keep, keep-All, All, ◌==◌, contains, if◌then◌else◌,
}
use clouditor.Prelude.Int.{pos}
use clouditor.Status.{Result, ok, err, panic, plain, record_not_found}
use clouditor.Auth.{AuthorizationStrategy}
use clouditor.Auth.Grants.{may_access}
use clouditor.Query.{Atom, equals, in_list, satisfies, join_and, allowed_clauses}
use clouditor.Storage.{Table, Conds}
use clouditor.Storage.Answers.{Answers}
use clouditor.Page.{
  PageRequest, Wire, paginate, paginate_storage, request_token, storage_pager, next_page,
  effective_size, default_pagination_opts,
}
use clouditor.Discovery.Resources.{Messages, Resource, text}
use clouditor.Discovery.{Service, evidence_of, start_discovery}
use clouditor.Discovery.Sent.{Sent, evidences_of, start_discovery-Sent}
use clouditor.Discovery.Handlers.{GraphEdge, list_graph_edges}
use clouditor.Discovery.Handlers.Access.{Shown, list_graph_edges-Allowed}

abbrev Db : Type 0
Db = List (Resource String)

abbrev row : Resource String → Atom → Bool
row r (equals name v) = (if name == "id" then r.id else r.cloud_service_id) == v
row r (in_list name vs) = contains vs r.cloud_service_id
row r _ = false

abbrev matching : Conds → Db → Db
matching conds = keep (λ r. satisfies (row r) conds)

abbrev first : Db → Result (Resource String)
first [] = err record_not_found
first (r ∷ rs) = ok r

-- A database that cannot save.
abbrev table : Table Db (Resource String)
table = record {
  create = λ r db. (ok tt, r ∷ db);
  save = λ r conds db. (err (plain "locked"), db);
  update = λ r conds db. (ok tt, r ∷ db);
  get = λ conds db. first (matching conds db);
  list = λ conds db order asc start size. ok (matching conds db);
  count = λ conds db. ok (length (matching conds db));
  delete = λ conds db. (ok tt, []);
}

table-safe : (r : Resource String) (conds : Conds) (db : Db) → (table.save r conds db).0 ≢ panic
table-safe r conds db h = cc

abbrev packed : Bool → Result String
packed true = err (plain "not a message")
packed false = ok "any"

abbrev messages : Messages String String String
messages = record {
  id = λ r. r;
  raw = λ r. "{}";
  resource_type_names = λ r. some ("ObjectStorage" ∷ "Storage" ∷ []);
  fields = λ r. ("parent_id", text "account") ∷ ("name", text "bucket") ∷ [];
  pack = λ r. packed (r == "broken");
  unmarshal_new = λ a. ok a;
  as_resource = λ m. some m;
}

packed-safe : (b : Bool) → packed b ≢ panic
packed-safe true h = cc
packed-safe false h = cc

abbrev service : Service Db String String String String
service = record {
  db = [];
  assessment_streams = [];
  assessment_target = "localhost:9090";
  jobs = "";
  providers = [];
  discoverers = [];
  discovery_interval = 300;
  events = [];
  cs_id = "s1";
  evidences_sent = [];
}

abbrev stamp : ℕ → String × ℕ
stamp i = ("evidence", i)

-- The first resource cannot be packed, and the second cannot be stored.
start_discovery-Sent_example :
    Sent (evidence_of messages "bucket" "s1" ("evidence", 1) "any" ∷ []) service (
      start_discovery messages table
        (ok "stream")
        stamp
        (record { name = "AWS Storage"; list = ok ("broken" ∷ "bucket" ∷ []) })
        service)
unfolding evidences_of
start_discovery-Sent_example =
    start_discovery-Sent "stream" messages table table-safe (λ r. packed-safe (r == "broken")) stamp
      "AWS Storage" ("broken" ∷ "bucket" ∷ []) service

ok-inj : {A : Type 0} {a b : A} → ok a ≡ ok b → a ≡ b
ok-inj h = cc

first-All :
    (p : Resource String → Bool) (rs : Db) (r : Resource String)
    → All (λ e. p e ≡ true) rs
    → first rs ≡ ok r
    → p r ≡ true
first-All p [] r h e = cc
first-All p (x ∷ xs) r h e = rw (sym (ok-inj e)) (h.0)

table-Answers : Answers table row
table-Answers = record {
  listed = λ conds db order asc start size rows h.
      rw (sym (ok-inj h)) (keep-All (λ r. satisfies (row r) conds) db);
  got = λ conds db r h.
      first-All (λ e. satisfies (row e) conds) (matching conds db) r
        (keep-All (λ e. satisfies (row e) conds) db) h;
}

abbrev own : Option String → Bool × List String
own none = (false, [])
own (some id) = (false, id ∷ [])

abbrev own_service : AuthorizationStrategy String
own_service = record {
  check_access = λ ctx typ id. may_access (own ctx) id;
  allowed_cloud_services = own;
}

abbrev wire : Wire
wire = record {
  marshal = λ t. err (plain "not here");
  unmarshal = λ b. err (plain "not here");
  base64_encode = λ b. "";
  base64_decode = λ s. err (plain "not here");
}

abbrev resource : String → String → Resource String
resource id service_id = record {
  id = id;
  cloud_service_id = service_id;
  resource_type = "Storage";
  properties = "any";
}

abbrev two : Db
two = resource "r1" "s1" ∷ resource "r2" "s2" ∷ []

abbrev page : PageRequest
page = record { page_token = ""; page_size = pos 0; order_by = ""; asc = true }

abbrev account_edge : GraphEdge
account_edge = record { id = "r2-account"; source = "r2"; target = "account"; type = "parent" }

list_graph_edges-Allowed_example :
    Shown
      (λ r. row r (in_list "cloud_service_id" ("s2" ∷ [])) ≡ true)
      (paginate_storage wire page
        (table.list
          (join_and (allowed_clauses (own_service.allowed_cloud_services (some "s2"))))
          two)
        default_pagination_opts)
      (account_edge ∷ [])
unfolding paginate_storage paginate request_token storage_pager next_page satisfies join_and
    effective_size
list_graph_edges-Allowed_example =
    list_graph_edges-Allowed table own_service (some "s2") row table-Answers messages wire
      (λ m. none) page two two ("s2" ∷ []) (account_edge ∷ []) "" refl
      (unfold list_graph_edges in refl)
