-- ===== src/Orchestrator/CloudService/Tests.antt =====
-- Cloud services over a list.
use clouditor.Prelude.{
  ℕ, suc, String, ◌≡◌, sym, ap, Bool, false, Option, none, some, List, [], ◌∷◌, length,
}
use clouditor.Status.{Result, ok, err, record_not_found}
use clouditor.Auth.{AuthorizationStrategy}
use clouditor.Auth.Grants.{may_access}
use clouditor.Validate.{Rules}
use clouditor.Storage.{Table}
use clouditor.Orchestrator.CloudService.{CloudService, Service}

abbrev Db : Type 0
Db = List CloudService

abbrev first : Db → Result CloudService
first [] = err record_not_found
first (c ∷ cs) = ok c

abbrev table : Table Db CloudService
table = record {
  create = λ r db. (ok tt, r ∷ db);
  save = λ r conds db. (ok tt, r ∷ []);
  update = λ r conds db. (ok tt, r ∷ db);
  get = λ conds db. first db;
  list = λ conds db order asc start size. ok db;
  count = λ conds db. ok (length db);
  delete = λ conds db. (ok tt, []);
}

table-counts :
    (r : CloudService) (db db' : Db)
    → table.create r db ≡ (ok tt, db')
    → (n : ℕ) × (table.count [] db' ≡ ok (suc n))
table-counts r db db' h = (length db, ap (λ p. ok (length p.1)) (sym h))

abbrev own : Option String → Bool × List String
own none = (false, [])
own (some id) = (false, id ∷ [])

abbrev own_service : AuthorizationStrategy String
own_service = record {
  check_access = λ ctx typ id. may_access (own ctx) id;
  allowed_cloud_services = own;
}

abbrev no_rules : {A : Type 0} → Rules A
no_rules a = none

abbrev cloud_service : String → ℕ → CloudService
cloud_service id time = record {
  id = id;
  name = "name";
  description = "";
  catalogs_in_scope = [];
  created_at = 0;
  updated_at = time;
  metadata = none;
}

abbrev store : Db → Service Db String
store db = record { db = db; cloud_service_hooks = "hook" ∷ []; informed = [] }

abbrev updated : Service Db String
updated = record {
  db = cloud_service "s1" 5 ∷ [];
  cloud_service_hooks = "hook" ∷ [];
  informed = ("hook", some (cloud_service "s1" 5)) ∷ [];
}
