-- ===== src/Orchestrator/Certificates/Tests.antt =====
-- Certificates over a small database.
use clouditor.Prelude.{
  String, refl, Bool, false, Option, none, some, List, [], ◌∷◌, length, keep, ◌==◌, contains,
}
use clouditor.Status.{Result, ok, err, record_not_found}
use clouditor.Auth.{AuthorizationStrategy}
use clouditor.Auth.Grants.{may_access}
use clouditor.Query.{Atom, equals, in_list, satisfies}
use clouditor.Storage.{Table, Conds}
use clouditor.Orchestrator.Certificates.{Certificate, update_certificate}
use clouditor.Orchestrator.Certificates.Guards.{Updated, update_certificate-Updated}

abbrev Db : Type 0
Db = List Certificate

abbrev row : Certificate → Atom → Bool
row c (equals name v) = c.id == v
row c (in_list name vs) = contains vs c.cloud_service_id
row c _ = false

abbrev matching : Conds → Db → Db
matching conds = keep (λ c. satisfies (row c) conds)

abbrev first : Db → Result Certificate
first [] = err record_not_found
first (c ∷ cs) = ok c

abbrev table : Table Db Certificate
table = record {
  create = λ r db. (ok tt, r ∷ db);
  save = λ r conds db. (ok tt, r ∷ []);
  update = λ r conds db. (ok tt, r ∷ db);
  get = λ conds db. first (matching conds db);
  list = λ conds db order asc start size. ok (matching conds db);
  count = λ conds db. ok (length (matching conds db));
  delete = λ conds db. (ok tt, []);
}

abbrev own : Option String → Bool × List String
own none = (false, [])
own (some id) = (false, id ∷ [])

abbrev own_service : AuthorizationStrategy String
own_service = record {
  check_access = λ ctx typ id. may_access (own ctx) id;
  allowed_cloud_services = own;
}

abbrev certificate : String → Certificate
certificate service_id = record {
  id = "c";
  name = "name";
  cloud_service_id = service_id;
  issue_date = "";
  expiration_date = "";
  standard = "EUCS";
  assurance_level = "basic";
  cab = "";
  description = "";
  states = [];
}

-- The stored certificate is one of the service s2, which the caller may not access.
update_certificate-Updated_example :
    Updated table own_service
      (some "s1")
      (λ m. none)
      (record { certificate = certificate "s1" })
      (certificate "s2" ∷ [])
      (certificate "s1" ∷ [])
      (certificate "s1")
unfolding satisfies
update_certificate-Updated_example =
    update_certificate-Updated table own_service (some "s1") (λ m. none)
      (record { certificate = certificate "s1" }) (certificate "s2" ∷ []) (certificate "s1" ∷ [])
      (certificate "s1") (unfold update_certificate in refl)
