-- ===== src/Storage/Gorm/Tests.antt =====
-- gorm's DB over a list of IDs.
use clouditor.Prelude.{String, ◌≡◌, refl, true, false, none, some, List, [], ◌∷◌, arith}
use clouditor.Prelude.Int.{ℤ, negsuc}
use clouditor.Status.{Error, ok, err, plain, eof, status, not_found, internal, is_record_not_found}
use clouditor.Auth.{AuthorizationStrategy}
use clouditor.Auth.Grants.{may_access}
use clouditor.Policies.{has_prefix}
use clouditor.Policies.Eval.{text_contains}
use clouditor.Storage.{Conds}
use clouditor.Page.{
  PageRequest, Wire, paginate_storage, default_pagination_opts, paginate, request_token,
  storage_pager, effective_size, next_page, encode,
}
use clouditor.Page.Size.{Positive}
use clouditor.Storage.Gorm.{Driver, gorm_table, list, limit_of, associations, order_stmt}
use clouditor.Storage.Gorm.Unlimited.{paginate_storage-gorm_table}
use clouditor.Storage.Gorm.Errors.{
  remove_catalog-gorm_table, create_target_of_evaluation-gorm_table,
}
use clouditor.Orchestrator.Catalogs.{Catalog, remove_catalog}
use clouditor.Orchestrator.Toe.{TargetOfEvaluation, Service, create_target_of_evaluation}

-- Every row has its primary key already, and no row matches a condition.
abbrev full : {R : Type 0} → Driver (List String) R
full = record {
  create = λ r db. (err (plain "constraint failed: UNIQUE constraint failed: id"), db);
  first = λ preload conds db. err eof;
  find = λ preload order limit offset conds db. ok [];
  count = λ conds db. ok 0;
  save = λ conds r db. (ok tt, db);
  updates = λ conds r db. (ok 0, db);
  delete = λ conds db. (ok 0, db);
  message = λ e. elim e [ plain text ↦ text | _ ↦ "" ];
  is_not_found = λ e. false;
}

full-foreign :
    (conds : Conds) (db : List String) (e : Error)
    → ((full {R = Catalog String}).delete conds db).0 ≡ err e
    → is_record_not_found e ≡ false
full-foreign conds db e h = absurd (cc)

remove_catalog-gorm_table_example :
    remove_catalog
      (gorm_table (full {R = Catalog String}))
      (λ m. none)
      (some (record { catalog_id = "c" }))
      []
    ≡ (err (status not_found "catalog not found"), [])
remove_catalog-gorm_table_example =
    remove_catalog-gorm_table (full {R = Catalog String}) full-foreign (λ m. none)
      (record { catalog_id = "c" }) [] refl

abbrev all_services : AuthorizationStrategy String
all_services = record {
  check_access = λ ctx typ id. may_access (true, []) id;
  allowed_cloud_services = λ ctx. (true, []);
}

abbrev toe : TargetOfEvaluation
toe = record { cloud_service_id = "s"; catalog_id = "c"; assurance_level = none }

abbrev service : Service (List String) String
service = record { db = "s-c" ∷ []; toe_hooks = "hook" ∷ []; informed = [] }

create_target_of_evaluation-gorm_table_example :
    create_target_of_evaluation
      (gorm_table full)
      all_services
      (some "c")
      (λ m. none)
      (some (record { target_of_evaluation = toe }))
      service
    ≡ (err (status internal "database error"), service)
unfolding text_contains has_prefix
create_target_of_evaluation-gorm_table_example =
    create_target_of_evaluation-gorm_table full all_services (some "c") (λ m. none)
      (record { target_of_evaluation = toe }) service
      (plain "constraint failed: UNIQUE constraint failed: id") refl refl refl refl

abbrev opts-Positive : Positive default_pagination_opts
opts-Positive = record {
  default_size = 50;
  max_size = 1500;
  is_default = refl;
  is_max = refl;
  default_pos = omega arith;
  max_pos = omega arith;
}

-- gorm's DB without a limit gives every row.
abbrev rows_of : Driver (List String) String
rows_of = record full {
  find = λ preload order limit offset conds db. elim limit [ none ↦ ok db | some n ↦ ok [] ];
}

-- A codec that writes every token in one way.
abbrev wire : Wire
wire = record {
  marshal = λ t. ok [];
  unmarshal = λ b. err eof;
  base64_encode = λ b. "next";
  base64_decode = λ s. err eof;
}

abbrev unlimited : PageRequest
unlimited = record { page_token = ""; page_size = negsuc 0; order_by = "id"; asc = true }

paginate_storage-gorm_table_example :
    (start : ℤ) × (rows_of.find associations (order_stmt "id" true) none start [] ("a" ∷ "b" ∷ [])
      ≡ ok ("a" ∷ "b" ∷ []))
unfolding gorm_table paginate_storage paginate request_token storage_pager effective_size next_page
    encode list limit_of
paginate_storage-gorm_table_example =
    paginate_storage-gorm_table rows_of wire unlimited [] ("a" ∷ "b" ∷ []) default_pagination_opts
      opts-Positive ("a" ∷ "b" ∷ []) "next" refl refl
