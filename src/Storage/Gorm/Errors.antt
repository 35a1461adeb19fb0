-- ===== src/Storage/Gorm/Errors.antt =====
-- What the handlers answer to the errors of the storage of persistence/gorm/gorm.go.
use clouditor.Prelude.{
  ℕ, ◌≡◌, inl, inr, true, false, Option, none, some, [], ◌∷◌, ◌==ℕ◌, if◌then◌else◌, arith,
}
use clouditor.Status.{
  Error, Result, ok, err, panic, status, not_found, internal, is_record_not_found,
  is_constraint_failed,
}
use clouditor.Exec.Inversion.{Result-cases}
use clouditor.Auth.{AuthorizationStrategy, access_create}
use clouditor.Validate.{Rules}
use clouditor.Query.{equals, atom}
use clouditor.Policies.Eval.{text_contains}
use clouditor.Storage.{Conds}
use clouditor.Storage.Gorm.{Driver, gorm_table}
use clouditor.Orchestrator.Catalogs.{Catalog, CatalogIdRequest, remove_catalog}
use clouditor.Orchestrator.Toe.{
  TargetOfEvaluation, ToeRequest, Service, create_target_of_evaluation,
}

module _ {D R : Type 0} (driver : Driver D (Catalog R)) where
  -- What RemoveCatalog answers to what gorm's Delete gives.
  abbrev pub removal : Result ℕ → Result (Unit {0})
  removal (ok n) = if n ==ℕ 0 then err (status not_found "catalog not found") else ok tt
  removal (err e) = err (status internal "database error")
  removal panic = panic

  -- RemoveCatalog over gorm answers NotFound exactly if no row is affected, and an error of gorm by an
  -- internal one, if no error of gorm is the storage's own one for a missing record.
  pub remove_catalog-gorm_table :
      (foreign : (conds : Conds) (db : D) (e : Error)
        → (driver.delete conds db).0 ≡ err e
        → is_record_not_found e ≡ false)
      (rules : Rules CatalogIdRequest) (req : CatalogIdRequest) (db : D)
      → rules req ≡ none
      → remove_catalog (gorm_table driver) rules (some req) db ≡ (
        removal (driver.delete (atom (equals "Id" req.catalog_id) ∷ []) db).0,
        (driver.delete (atom (equals "Id" req.catalog_id) ∷ []) db).1,
      )
  unfolding remove_catalog gorm_table is_record_not_found
  remove_catalog-gorm_table foreign rules req db valid =
      elim (Result-cases (driver.delete (atom (equals "Id" req.catalog_id) ∷ []) db).0) [
        | inl (n, e) ↦ ground arith
        | inr (inl (e, h)) ↦
            let f = foreign (atom (equals "Id" req.catalog_id) ∷ []) db e h in ground arith
        | inr (inr h) ↦ ground arith
      ]

module _ {D H Ctx : Type 0} (driver : Driver D TargetOfEvaluation)
    (authz : AuthorizationStrategy Ctx) (ctx : Option Ctx) where
  -- A target of evaluation that is there already, by the text of SQLite's error, is answered by an
  -- internal error, and the hooks are not informed.
  pub create_target_of_evaluation-gorm_table :
      (rules : Rules ToeRequest) (req : ToeRequest) (s : Service D H) (e : Error)
      → rules req ≡ none
      → authz.check_access ctx access_create req.target_of_evaluation.cloud_service_id ≡ true
      → (driver.create req.target_of_evaluation s.db).0 ≡ err e
      → text_contains (driver.message e) "constraint failed: UNIQUE constraint failed" ≡ true
      → create_target_of_evaluation (gorm_table driver) authz ctx rules (some req) s ≡ (
        err (status internal "database error"),
        record s { db = (driver.create req.target_of_evaluation s.db).1 },
      )
  unfolding create_target_of_evaluation gorm_table is_constraint_failed
  create_target_of_evaluation-gorm_table rules req s e valid access duplicate unique = ground arith
