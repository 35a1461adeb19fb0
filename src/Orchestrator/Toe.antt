-- ===== src/Orchestrator/Toe.antt =====
-- Targets of evaluation: service/orchestrator/toe.go. A hook is a name; informing it is written down,
-- at once, where the code starts a goroutine for it.
use clouditor.Prelude.{String, Option, none, List, [], ◌∷◌, ◌++◌, map, ◌==◌, if◌then◌else◌}
use clouditor.Status.{
  Error, status, not_found, internal, invalid_argument, err_permission_denied, is_record_not_found,
  is_constraint_failed,
}
use clouditor.Exec.{Exec, pure, lift, gets, modify, require, map_err, ◌>>=◌, ◌>>◌}
use clouditor.Auth.{AuthorizationStrategy, access_create, access_read, access_update, access_delete}
use clouditor.Validate.{Rules, validate}
use clouditor.Query.{equals, atom, and}
use clouditor.Storage.{Table, Conds}
use clouditor.Page.{PageRequest, Wire, paginate_storage, default_pagination_opts}

pub record TargetOfEvaluation : Type 0 where
  pub cloud_service_id : String
  pub catalog_id : String
  pub assurance_level : Option String

-- CreateTargetOfEvaluationRequest and UpdateTargetOfEvaluationRequest
pub record ToeRequest : Type 0 where
  pub target_of_evaluation : TargetOfEvaluation

-- GetTargetOfEvaluationRequest and RemoveTargetOfEvaluationRequest
pub record ToeKeyRequest : Type 0 where
  pub cloud_service_id : String
  pub catalog_id : String

pub record ListToeRequest : Type 0 where
  pub cloud_service_id : String
  pub catalog_id : String
  pub page : PageRequest

pub data ChangeType : Type 0 where
  toe_created toe_updated toe_removed : ChangeType

pub record ToeChangeEvent : Type 0 where
  pub type : ChangeType
  pub target_of_evaluation : TargetOfEvaluation

pub record Service (D H : Type 0) : Type 0 where
  pub db : D
  pub toe_hooks : List H
  -- the calls of hooks so far
  pub informed : List (H × ToeChangeEvent)

-- "cloud_service_id = ? AND catalog_id = ?"
abbrev pub toe_conds : String → String → Conds
toe_conds cloud_service_id catalog_id =
    atom (equals "cloud_service_id" cloud_service_id)
    ∷ and
    ∷ atom (equals "catalog_id" catalog_id)
    ∷ []

-- Either the service or the catalog, if one of them is set.
abbrev pub list_conds : ListToeRequest → Conds
list_conds req =
    if req.cloud_service_id == ""
    then (if req.catalog_id == "" then [] else atom (equals "catalog_id" req.catalog_id) ∷ [])
    else atom (equals "cloud_service_id" req.cloud_service_id) ∷ []

unfoldable pub create_error : Error → Error
create_error e =
    if is_constraint_failed e
    then status invalid_argument "invalid catalog or cloud service"
    else status internal "database error"

unfoldable pub toe_error : Error → Error
toe_error e =
    if is_record_not_found e
    then status not_found "ToE not found"
    else status internal "database error"

unfoldable pub update_error : Error → Error
unfolding toe_error
update_error e = if is_constraint_failed e then status not_found "ToE not found" else toe_error e

abbrev pub calls : {H : Type 0} → List H → ToeChangeEvent → List (H × ToeChangeEvent)
calls hooks event = map (λ h. (h, event)) hooks

unfoldable pub inform_toe_hooks :
    {D H : Type 0} → ChangeType → TargetOfEvaluation → Exec (Service D H) (Unit {0})
inform_toe_hooks type toe = modify (λ s. record s {
  informed = s.informed ++ calls s.toe_hooks (record { type = type; target_of_evaluation = toe });
})

unfoldable pub register_toe_hook : {D H : Type 0} → H → Exec (Service D H) (Unit {0})
register_toe_hook hook = modify (λ s. record s { toe_hooks = s.toe_hooks ++ hook ∷ [] })

module _ {D H Ctx : Type 0} (table : Table D TargetOfEvaluation) (authz : AuthorizationStrategy Ctx)
    (ctx : Option Ctx) where
  abbrev on_db : Exec D (Unit {0}) → Exec (Service D H) (Unit {0})
  on_db call s = let (outcome, db) = call s.db in (outcome, record s { db = db })

  unfoldable pub create_target_of_evaluation :
      Rules ToeRequest → Option ToeRequest → Exec (Service D H) TargetOfEvaluation
  unfolding validate create_error inform_toe_hooks
  create_target_of_evaluation rules request = do
    req ← lift (validate rules request)
    let toe = req.target_of_evaluation
    require (authz.check_access ctx access_create toe.cloud_service_id) err_permission_denied
    map_err create_error (on_db (table.create toe))
    inform_toe_hooks toe_created toe
    pure toe

  unfoldable pub get_target_of_evaluation :
      Rules ToeKeyRequest → Option ToeKeyRequest → Exec (Service D H) TargetOfEvaluation
  unfolding validate toe_error
  get_target_of_evaluation rules request = do
    req ← lift (validate rules request)
    require (authz.check_access ctx access_read req.cloud_service_id) err_permission_denied
    db ← gets (λ s. s.db)
    map_err toe_error (lift (table.get (toe_conds req.cloud_service_id req.catalog_id) db))

  unfoldable pub list_targets_of_evaluation :
      Wire
      → Rules ListToeRequest
      → Option ListToeRequest
      → Exec (Service D H) (List TargetOfEvaluation × String)
  unfolding validate
  list_targets_of_evaluation w rules request = do
    req ← lift (validate rules request)
    require (authz.check_access ctx access_read req.cloud_service_id) err_permission_denied
    db ← gets (λ s. s.db)
    map_err (λ e. status internal "could not paginate results")
        (lift
          (paginate_storage w req.page (table.list (list_conds req) db) default_pagination_opts))

  unfoldable pub update_target_of_evaluation :
      Rules ToeRequest → Option ToeRequest → Exec (Service D H) TargetOfEvaluation
  unfolding validate update_error inform_toe_hooks
  update_target_of_evaluation rules request = do
    req ← lift (validate rules request)
    let toe = req.target_of_evaluation
    require (authz.check_access ctx access_update toe.cloud_service_id) err_permission_denied
    map_err update_error (on_db (table.update toe (toe_conds toe.cloud_service_id toe.catalog_id)))
    inform_toe_hooks toe_updated toe
    pure toe

  unfoldable pub remove_target_of_evaluation :
      Rules ToeKeyRequest → Option ToeKeyRequest → Exec (Service D H) (Unit {0})
  unfolding validate toe_error inform_toe_hooks
  remove_target_of_evaluation rules request = do
    req ← lift (validate rules request)
    require (authz.check_access ctx access_delete req.cloud_service_id) err_permission_denied
    map_err toe_error (on_db (table.delete (toe_conds req.cloud_service_id req.catalog_id)))
    inform_toe_hooks toe_removed (record {
      cloud_service_id = req.cloud_service_id;
      catalog_id = req.catalog_id;
      assurance_level = none;
    })
    pure tt
