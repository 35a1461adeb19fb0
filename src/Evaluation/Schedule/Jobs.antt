-- ===== src/Evaluation/Schedule/Jobs.antt =====
-- Which jobs there are after an evaluation has been started or stopped.
use mathlib.Core.Path.{subst₂}
use clouditor.Prelude.{
  String, ◌≡◌, refl, ◌∙◌, Bool, true, false, Option, none, some, List, [], ◌∷◌, arith,
}
use clouditor.Prelude.Int.{ℤ}
use clouditor.Status.{Error, Result, ok, err, panic, status, already_exists}
use clouditor.Exec.{Exec, lift, pure, ◌>>◌}
use clouditor.Auth.{AuthorizationStrategy, access_create}
use clouditor.Validate.{Rules}
use clouditor.Evaluation.Model.{Control, TargetOfEvaluation, Catalog}
use clouditor.Evaluation.Controls.{CatalogControls, cache_controls, store_controls}
use clouditor.Evaluation.Schedule.{
  StartRequest, Job, Scheduler, Client, Service, interval_of, no_job, add_job_to_scheduler,
  start_evaluation,
}

-- What gocron documents of tags: a job is found and removed by the tags that it was added with.
pub record Tagged {J : Type 0} (scheduler : Scheduler J) : Type 0 where
  pub has : List String → J → Bool
  pub starts : (tags : List String) (js : J) → has tags (scheduler.start_async js) ≡ has tags js
  pub finds :
      (tags : List String) (js : J)
      → has tags js ≡ true
      → (job : Job) × (jobs : List Job) × (scheduler.find_jobs_by_tag tags js ≡ ok (job ∷ jobs))
  pub adds :
      (tags : List String) (job : Job) (js js' : J)
      → scheduler.add tags job js ≡ (ok tt, js')
      → has tags js' ≡ true
  pub removes :
      (tags : List String) (js js' : J)
      → scheduler.remove_by_tags tags js ≡ (ok tt, js')
      → has tags js' ≡ false
  pub misses :
      (tags : List String) (js : J)
      → has tags js ≡ false
      → (e : Error) × (scheduler.remove_by_tags tags js ≡ (err e, js))
        × (scheduler.is_job_not_found e ≡ true)

abbrev is_ok : {A : Type 0} → Result A → Bool
is_ok (ok a) = true
is_ok _ = false

is_ok_value : {A : Type 0} (r : Result A) → is_ok r ≡ true → (a : A) × (r ≡ ok a)
is_ok_value (ok a) h = (a, refl)
is_ok_value (err e) h = cc
is_ok_value panic h = cc

refuse :
    {S A : Type 0} {r : Result (Unit {0})} {e : Error} (m : Exec S A) (s : S)
    → r ≡ err e
    → (lift r >> m) s ≡ (err e, s)
refuse m s h = rw h

-- Whether the controls of a catalog can be cached does not depend on what is cached.
cache_controls_again :
    (listed : String → Result (List Control)) (catalog_id : String) (cache other : CatalogControls)
    {cached : CatalogControls}
    → cache_controls listed catalog_id cache ≡ ok cached
    → (again : CatalogControls) × (cache_controls listed catalog_id other ≡ ok again)
unfolding cache_controls store_controls
cache_controls_again listed catalog_id cache other h =
    is_ok_value (cache_controls listed catalog_id other) (ground arith)

module _ {J Ctx : Type 0} (scheduler : Scheduler J) (authz : AuthorizationStrategy Ctx)
    (client : Client) where
  -- The state in which the scheduler is asked for a job.
  abbrev prepared : CatalogControls → Service J → Service J
  prepared cached s = record { catalog_controls = cached; jobs = scheduler.start_async s.jobs }

  -- What is left of a run that has got so far.
  start_evaluation-prepared :
      (rules : Rules StartRequest) (ctx : Option Ctx) (req : StartRequest) (s : Service J)
      (cached : CatalogControls) (toe : TargetOfEvaluation) (catalog : Catalog)
      → rules req ≡ none
      → authz.check_access ctx access_create req.cloud_service_id ≡ true
      → cache_controls client.list_controls req.catalog_id s.catalog_controls ≡ ok cached
      → client.get_target_of_evaluation req.cloud_service_id req.catalog_id ≡ ok toe
      → client.get_catalog req.catalog_id ≡ ok catalog
      → start_evaluation scheduler authz client rules ctx (some req) s
        ≡ (lift (
                no_job scheduler (
                  scheduler.find_jobs_by_tag
                    (req.cloud_service_id ∷ req.catalog_id ∷ [])
                    (scheduler.start_async s.jobs)))
              >> (add_job_to_scheduler scheduler (some toe) catalog (interval_of req) >> pure true))
            (prepared cached s)
  unfolding start_evaluation
  start_evaluation-prepared rules ctx req s cached toe catalog e1 e2 e3 e4 e5 = ground arith

  module _ (rules : Rules StartRequest) (ctx : Option Ctx) (req : StartRequest) (s t : Service J)
      {b : Bool}
      (h : start_evaluation scheduler authz client rules ctx (some req) s ≡ (ok b, t)) where
    started-cached :
        (cached : CatalogControls) × (cache_controls client.list_controls req.catalog_id
            s.catalog_controls
          ≡ ok cached)
    unfolding start_evaluation
    started-cached =
        is_ok_value (cache_controls client.list_controls req.catalog_id s.catalog_controls)
          (ground arith)

    started-toe :
        (toe : TargetOfEvaluation) × (client.get_target_of_evaluation req.cloud_service_id
            req.catalog_id
          ≡ ok toe)
    unfolding start_evaluation
    started-toe =
        is_ok_value (client.get_target_of_evaluation req.cloud_service_id req.catalog_id)
          (ground arith)

    started-catalog : (catalog : Catalog) × (client.get_catalog req.catalog_id ≡ ok catalog)
    unfolding start_evaluation
    started-catalog = is_ok_value (client.get_catalog req.catalog_id) (ground arith)

    started-added :
        (cached : CatalogControls) (toe : TargetOfEvaluation) (catalog : Catalog)
        → cache_controls client.list_controls req.catalog_id s.catalog_controls ≡ ok cached
        → client.get_target_of_evaluation req.cloud_service_id req.catalog_id ≡ ok toe
        → client.get_catalog req.catalog_id ≡ ok catalog
        → add_job_to_scheduler scheduler
            (some toe)
            catalog
            (interval_of req)
            (record { catalog_controls = cached; jobs = scheduler.start_async s.jobs })
          ≡ (ok tt, t)
    unfolding start_evaluation
    started-added cached toe catalog e1 e2 e3 = ground arith

  add_job_to_scheduler-added :
      (toe : TargetOfEvaluation) (catalog : Catalog) (interval : ℤ) (s t : Service J)
      → add_job_to_scheduler scheduler (some toe) catalog interval s ≡ (ok tt, t)
      → scheduler.add
          (toe.cloud_service_id ∷ toe.catalog_id ∷ [])
          (record { every = interval; toe = toe; catalog = catalog })
          s.jobs
        ≡ (ok tt, t.jobs)
  unfolding add_job_to_scheduler
  add_job_to_scheduler-added toe catalog interval s t h = ground arith

  module _ (tagged : Tagged scheduler) where
    no_job-found :
        (tags : List String) (js : J)
        → tagged.has tags js ≡ true
        → no_job scheduler (scheduler.find_jobs_by_tag tags js)
          ≡ err (status already_exists "already started")
    unfolding no_job
    no_job-found tags js h = let (job, jobs, found) = tagged.finds tags js h in rw found

    -- No two jobs for one service and catalog: once an evaluation has been started, a further valid
    -- request of a caller with access for the same service and catalog gets an error and adds no
    -- job, if the orchestrator's target of evaluation is that of the request and the scheduler finds
    -- jobs by their tags.
    pub start_evaluation-start_evaluation :
        (rules : Rules StartRequest) (ctx ctx' : Option Ctx) (req again : StartRequest)
        (s t : Service J) {b : Bool}
        → start_evaluation scheduler authz client rules ctx (some req) s ≡ (ok b, t)
        → ((toe : TargetOfEvaluation)
            → client.get_target_of_evaluation req.cloud_service_id req.catalog_id ≡ ok toe
            → (toe.cloud_service_id ≡ req.cloud_service_id) × (toe.catalog_id ≡ req.catalog_id))
        → again.cloud_service_id ≡ req.cloud_service_id
        → again.catalog_id ≡ req.catalog_id
        → rules again ≡ none
        → authz.check_access ctx' access_create again.cloud_service_id ≡ true
        → (u : Service J) × (start_evaluation scheduler authz client rules ctx' (some again) t
            ≡ (err (status already_exists "already started"), u))
          × (u.jobs ≡ scheduler.start_async t.jobs)
    start_evaluation-start_evaluation rules ctx ctx' req again s t done same service catalog valid
          access =
        let (cached, e1) = started-cached rules ctx req s t done in
        let (toe, e2) = started-toe rules ctx req s t done in
        let (found, e3) = started-catalog rules ctx req s t done in
        let (cached', e1') =
          cache_controls_again client.list_controls req.catalog_id s.catalog_controls
            t.catalog_controls e1 in
        let added =
          add_job_to_scheduler-added toe found (interval_of req) (prepared cached s) t
            (started-added rules ctx req s t done cached toe found e1 e2 e3) in
        let present : tagged.has (req.cloud_service_id ∷ req.catalog_id ∷ [])
              (scheduler.start_async t.jobs)
            ≡ true =
          tagged.starts (req.cloud_service_id ∷ req.catalog_id ∷ []) t.jobs
          ∙ subst₂ (λ a b. tagged.has (a ∷ b ∷ []) t.jobs ≡ true) (same toe e2).0 (same toe e2).1
              (tagged.adds (toe.cloud_service_id ∷ toe.catalog_id ∷ []) _ _ t.jobs added) in
        (
          prepared cached' t,
          start_evaluation-prepared rules ctx' again t cached' toe found valid access
                (rw catalog e1') (rw (service, catalog) e2) (rw catalog e3)
              ∙ refuse
                  (add_job_to_scheduler scheduler (some toe) found (interval_of again) >> pure true)
                  (prepared cached' t)
                  (rw (service, catalog)
                    (no_job-found (req.cloud_service_id ∷ req.catalog_id ∷ [])
                      (scheduler.start_async t.jobs) present)),
          refl,
        )
