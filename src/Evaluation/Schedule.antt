-- ===== src/Evaluation/Schedule.antt =====
-- StartEvaluation, StopEvaluation and addJobToScheduler of service/evaluation/evaluation.go. The
-- scheduler of gocron is the parameter `Scheduler`, and the orchestrator's client is `Client`; a
-- client that returns no error returns a message.
pub mod Jobs
pub mod Stop
mod Tests
use clouditor.Prelude.{
  ℕ, String, Bool, true, false, Option, none, some, List, [], ◌∷◌, if◌then◌else◌, ◌==ℕ◌,
}
use clouditor.Prelude.Int.{ℤ, pos, negsuc}
use clouditor.Status.{
  Error, Result, ok, err, panic, plain, status, internal, already_exists, failed_precondition,
  err_permission_denied,
}
use clouditor.Exec.{Exec, pure, raise, lift, gets, modify, require, map_err, ◌>>=◌, ◌>>◌}
use clouditor.Auth.{AuthorizationStrategy, access_create}
use clouditor.Validate.{Rules, validate}
use clouditor.Page.{is_zero}
use clouditor.Evaluation.Model.{Control, TargetOfEvaluation, Catalog}
use clouditor.Evaluation.Controls.{CatalogControls, cache_controls}

pub record StartRequest : Type 0 where
  pub cloud_service_id : String
  pub catalog_id : String
  -- the getter's value, 0 if it is not set
  pub interval : ℤ

pub record StopRequest : Type 0 where
  pub cloud_service_id : String
  pub catalog_id : String

-- A call of evaluateCatalog every so many minutes.
pub record Job : Type 0 where
  pub every : ℤ
  pub toe : TargetOfEvaluation
  pub catalog : Catalog

-- gocron's scheduler over the state J of its jobs.
pub record Scheduler (J : Type 0) : Type 0 where
  pub start_async : J → J
  pub find_jobs_by_tag : List String → J → Result (List Job)
  pub remove_by_tags : List String → Exec J (Unit {0})
  pub add : List String → Job → Exec J (Unit {0})
  -- errors.Is(err, gocron.ErrJobNotFoundWithTag)
  pub is_job_not_found : Error → Bool

-- The calls of the orchestrator: all pages of ListControls, GetTargetOfEvaluation, GetCatalog.
pub record Client : Type 0 where
  pub list_controls : String → Result (List Control)
  pub get_target_of_evaluation : String → String → Result TargetOfEvaluation
  pub get_catalog : String → Result Catalog

-- The fields of Service that the two handlers change.
pub record Service (J : Type 0) : Type 0 where
  pub catalog_controls : CatalogControls
  pub jobs : J

abbrev pub default_interval : ℤ
default_interval = pos 5

unfoldable pub interval_of : StartRequest → ℤ
interval_of req = if is_zero req.interval then default_interval else req.interval

abbrev pub unschedulable : Error
unschedulable = status internal "evaluation cannot be scheduled"

module _ {J : Type 0} (scheduler : Scheduler J) where
  -- A call of the scheduler.
  abbrev pub on_jobs : Exec J (Unit {0}) → Exec (Service J) (Unit {0})
  on_jobs call s = let (r, js) = call s.jobs in (r, record s { jobs = js })

  -- `none` is a nil target.
  unfoldable pub add_job_to_scheduler :
      Option TargetOfEvaluation → Catalog → ℤ → Exec (Service J) (Unit {0})
  add_job_to_scheduler none catalog interval = raise unschedulable
  add_job_to_scheduler (some toe) catalog interval =
      if is_zero interval
      then raise unschedulable
      else map_err (λ e. status internal "cannot be scheduled")
          (on_jobs (
            scheduler.add (toe.cloud_service_id ∷ toe.catalog_id ∷ [])
              (record { every = interval; toe = toe; catalog = catalog })))

  -- Whether a job exists already, by what FindJobsByTag gives.
  unfoldable pub no_job : Result (List Job) → Result (Unit {0})
  no_job (ok []) = ok tt
  no_job (ok (job ∷ jobs)) = err (status already_exists "already started")
  no_job (err e) =
      if scheduler.is_job_not_found e
      then ok tt
      else err (status internal "error while retrieving existing scheduler job")
  no_job panic = panic

  -- The error of RemoveByTags, as the caller sees it.
  unfoldable pub remove_error : Error → Error
  remove_error e =
      if scheduler.is_job_not_found e
      then status failed_precondition "not running"
      else status internal "error while removing jobs"

  module _ {Ctx : Type 0} (authz : AuthorizationStrategy Ctx) where
    unfoldable pub start_evaluation :
        Client → Rules StartRequest → Option Ctx → Option StartRequest → Exec (Service J) Bool
    unfolding validate interval_of no_job add_job_to_scheduler
    start_evaluation client rules ctx request = do
      req ← lift (validate rules request)
      require (authz.check_access ctx access_create req.cloud_service_id) err_permission_denied
      modify (λ s. record s { jobs = scheduler.start_async s.jobs })
      cache ← gets (λ s. s.catalog_controls)
      cached ←
          map_err (λ e. status internal "could not cache controls")
            (lift (cache_controls client.list_controls req.catalog_id cache))
      modify (λ s. record s { catalog_controls = cached })
      toe ←
          map_err (λ e. status internal "could not get target of evaluation")
            (lift (client.get_target_of_evaluation req.cloud_service_id req.catalog_id))
      catalog ←
          map_err (λ e. status internal "could not get catalog")
            (lift (client.get_catalog req.catalog_id))
      jobs ← gets (λ s. s.jobs)
      lift (no_job (scheduler.find_jobs_by_tag (req.cloud_service_id ∷ req.catalog_id ∷ []) jobs))
      add_job_to_scheduler (some toe) catalog (interval_of req)
      pure true

    unfoldable pub stop_evaluation :
        Rules StopRequest → Option Ctx → Option StopRequest → Exec (Service J) (Unit {0})
    unfolding validate remove_error
    stop_evaluation rules ctx request = do
      req ← lift (validate rules request)
      require (authz.check_access ctx access_create req.cloud_service_id) err_permission_denied
      map_err remove_error
          (on_jobs (scheduler.remove_by_tags (req.cloud_service_id ∷ req.catalog_id ∷ [])))
