-- ===== src/Evaluation/Schedule/Stop.antt =====
-- Which jobs there are after an evaluation has been stopped.
use clouditor.Prelude.{◌≡◌, true, false, Option, none, some, [], ◌∷◌, arith}
use clouditor.Status.{ok, err, status, failed_precondition}
use clouditor.Auth.{AuthorizationStrategy, access_create}
use clouditor.Validate.{Rules}
use clouditor.Evaluation.Schedule.{StopRequest, Scheduler, Service, stop_evaluation}
use clouditor.Evaluation.Schedule.Jobs.{Tagged}

module _ {J Ctx : Type 0} (scheduler : Scheduler J) (authz : AuthorizationStrategy Ctx) where
  stop_evaluation-removed :
      (rules : Rules StopRequest) (ctx : Option Ctx) (req : StopRequest) (s t : Service J)
      → stop_evaluation scheduler authz rules ctx (some req) s ≡ (ok tt, t)
      → scheduler.remove_by_tags (req.cloud_service_id ∷ req.catalog_id ∷ []) s.jobs
        ≡ (ok tt, t.jobs)
  unfolding stop_evaluation
  stop_evaluation-removed rules ctx req s t h = ground arith

  module _ (tagged : Tagged scheduler) where
    stop_evaluation-missed :
        (rules : Rules StopRequest) (ctx : Option Ctx) (req : StopRequest) (s : Service J)
        → rules req ≡ none
        → authz.check_access ctx access_create req.cloud_service_id ≡ true
        → tagged.has (req.cloud_service_id ∷ req.catalog_id ∷ []) s.jobs ≡ false
        → stop_evaluation scheduler authz rules ctx (some req) s
          ≡ (err (status failed_precondition "not running"), s)
    unfolding stop_evaluation
    stop_evaluation-missed rules ctx req s valid access absent =
        let (e, missed, not_found) =
          tagged.misses (req.cloud_service_id ∷ req.catalog_id ∷ []) s.jobs absent in
        ground arith

    -- After an evaluation has been stopped no job has the tags of its service and catalog, and a
    -- further valid request of a caller with access to stop it fails with FailedPrecondition and
    -- changes nothing, if the scheduler removes jobs by their tags.
    pub stop_evaluation-stop_evaluation :
        (rules : Rules StopRequest) (ctx ctx' : Option Ctx) (req : StopRequest) (s t : Service J)
        → stop_evaluation scheduler authz rules ctx (some req) s ≡ (ok tt, t)
        → rules req ≡ none
        → authz.check_access ctx' access_create req.cloud_service_id ≡ true
        → (tagged.has (req.cloud_service_id ∷ req.catalog_id ∷ []) t.jobs ≡ false)
          × (stop_evaluation scheduler authz rules ctx' (some req) t
              ≡ (err (status failed_precondition "not running"), t))
    stop_evaluation-stop_evaluation rules ctx ctx' req s t done valid access =
        let absent =
          tagged.removes (req.cloud_service_id ∷ req.catalog_id ∷ []) s.jobs t.jobs
            (stop_evaluation-removed rules ctx req s t done) in
        (absent, stop_evaluation-missed rules ctx' req t valid access absent)
