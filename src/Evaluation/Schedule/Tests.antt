-- ===== src/Evaluation/Schedule/Tests.antt =====
-- Starting and stopping over a scheduler that keeps the tags of its jobs in a list.
use mathlib.Core.Path.{subst}
use clouditor.Prelude.{
  String, ◌≡◌, refl, sym, ap, Bool, true, false, ◌||◌, ◌&&◌, not, Bool-cases, inl, inr, none, some,
  List, [], ◌∷◌, keep, ◌==◌, str_eq_refl, if◌then◌else◌,
}
use clouditor.Prelude.Int.{pos}
use clouditor.Status.{Error, Result, ok, err, eof, status, already_exists, failed_precondition}
use clouditor.Auth.{strategy_allow_all}
use clouditor.Validate.{Rules}
use clouditor.Evaluation.Model.{control, nil, TargetOfEvaluation}
use clouditor.Evaluation.Controls.{cache_controls}
use clouditor.Evaluation.Schedule.{
  StartRequest, StopRequest, Job, Scheduler, Client, Service, start_evaluation, stop_evaluation,
}
use clouditor.Evaluation.Schedule.Jobs.{Tagged, start_evaluation-start_evaluation}
use clouditor.Evaluation.Schedule.Stop.{stop_evaluation-stop_evaluation}

abbrev Tags : Type 0
Tags = List String

abbrev same_tags : Tags → Tags → Bool
same_tags [] [] = true
same_tags (a ∷ as') (b ∷ bs) = a == b && same_tags as' bs
same_tags _ _ = false

same_tags_refl : (a : Tags) → same_tags a a ≡ true
same_tags_refl [] = refl
same_tags_refl (a ∷ as') = rw (str_eq_refl a, same_tags_refl as')

abbrev present : Tags → List (Tags × Job) → Bool
present t [] = false
present t ((u, job) ∷ rest) = same_tags u t || present t rest

abbrev without : Tags → List (Tags × Job) → List (Tags × Job)
without t = keep (λ j. not (same_tags j.0 t))

abbrev found : Tags → List (Tags × Job) → List Job
found t [] = []
found t ((u, job) ∷ rest) =
    let others = found t rest in if same_tags u t then job ∷ others else others

abbrev scheduler : Scheduler (List (Tags × Job))
scheduler = record {
  start_async = λ js. js;
  find_jobs_by_tag = λ t js. ok (found t js);
  remove_by_tags = λ t js. if present t js then (ok tt, without t js) else (err eof, js);
  add = λ t job js. (ok tt, (t, job) ∷ js);
  is_job_not_found = λ e. true;
}

present-without : (t : Tags) (js : List (Tags × Job)) → present t (without t js) ≡ false
present-without t [] = refl
present-without t ((u, job) ∷ rest) = elim (Bool-cases (same_tags u t)) [
  | inl e ↦ rw e (present-without t rest)
  | inr e ↦ rw e (rw e (present-without t rest))
]

present-found :
    (t : Tags) (js : List (Tags × Job))
    → present t js ≡ true
    → (job : Job) × (jobs : List Job) × (ok (found t js) ≡ ok (job ∷ jobs))
present-found t [] h = absurd (cc)
present-found t ((u, job) ∷ rest) h = elim (Bool-cases (same_tags u t)) [
  | inl e ↦ (job, found t rest, rw e refl)
  | inr e ↦ let (a, b, c) = present-found t rest (rw e at h) in (a, b, rw e c)
]

removed :
    (t : Tags) (js js' : List (Tags × Job))
    → scheduler.remove_by_tags t js ≡ (ok tt, js')
    → present t js' ≡ false
removed t js js' h = elim (Bool-cases (present t js)) [
  | inl e ↦ subst (λ xs. present t xs ≡ false) (ap (λ p. p.1) (rw e at h)) (present-without t js)
  | inr e ↦ absurd (refused (rw e at h))
]
  where
    refused :
        {S : Type 0} {s s' : S} {e : Error}
        → ◌≡◌ {A = Result (Unit {0}) × S} (err e, s) (ok tt, s')
        → ⊥
    refused h = cc

scheduler-Tagged : Tagged scheduler
scheduler-Tagged = record {
  has = present;
  starts = λ t js. refl;
  finds = present-found;
  adds =
      λ t job js js' h. subst (λ xs. present t xs ≡ true) (ap (λ p. p.1) h) (rw (same_tags_refl t));
  removes = λ t js js' h. removed t js js' h;
  misses = λ t js h. (eof, rw h refl, refl);
}

abbrev client : Client
client = record {
  list_controls = λ id. ok (
      control
        (record {
          id = "AC-1";
          category_name = "AC";
          category_catalog_id = "C";
          parent_control_id = none;
          assurance_level = none;
          metrics = [];
        })
        nil
      ∷ []);
  get_target_of_evaluation = λ service catalog.
      ok (record { cloud_service_id = service; catalog_id = catalog; assurance_level = none });
  get_catalog = λ id. ok (record { id = id; assurance_levels = [] });
}

abbrev start : StartRequest
start = record { cloud_service_id = "s1"; catalog_id = "C"; interval = pos 0 }

abbrev stop : StopRequest
stop = record { cloud_service_id = "s1"; catalog_id = "C" }

abbrev no_rules : {A : Type 0} → Rules A
no_rules a = none

abbrev idle : Service (List (Tags × Job))
idle = record { catalog_controls = []; jobs = [] }

abbrev started : Service (List (Tags × Job))
started =
    (start_evaluation scheduler (strategy_allow_all {Ctx = String}) client no_rules none
      (some start) idle).1

abbrev answered_service : Result TargetOfEvaluation → String
answered_service (ok toe) = toe.cloud_service_id
answered_service _ = ""

abbrev answered_catalog : Result TargetOfEvaluation → String
answered_catalog (ok toe) = toe.catalog_id
answered_catalog _ = ""

start_evaluation-start_evaluation_example :
    (u : Service (List (Tags × Job))) × (start_evaluation scheduler
        (strategy_allow_all {Ctx = String})
        client
        no_rules
        none
        (some start)
        started
      ≡ (err (status already_exists "already started"), u))
    × (u.jobs ≡ started.jobs)
unfolding cache_controls
start_evaluation-start_evaluation_example =
    start_evaluation-start_evaluation scheduler (strategy_allow_all {Ctx = String}) client
      scheduler-Tagged no_rules none none start start idle started {b = true}
      (unfold start_evaluation in refl)
      (λ toe e. (ap (λ r. answered_service r) (sym e), ap (λ r. answered_catalog r) (sym e))) refl
      refl refl refl

stop_evaluation-stop_evaluation_example :
    (present ("s1" ∷ "C" ∷ []) [] ≡ false)
    × (stop_evaluation scheduler (strategy_allow_all {Ctx = String}) no_rules none (some stop) idle
        ≡ (err (status failed_precondition "not running"), idle))
unfolding scheduler-Tagged
stop_evaluation-stop_evaluation_example =
    stop_evaluation-stop_evaluation scheduler (strategy_allow_all {Ctx = String}) scheduler-Tagged
      no_rules none none stop
      (record { catalog_controls = []; jobs = ("s1" ∷ "C" ∷ [], a_job) ∷ [] }) idle
      (unfold stop_evaluation in refl) refl refl
  where
    a_job : Job
    a_job = record {
      every = pos 5;
      toe = record { cloud_service_id = "s1"; catalog_id = "C"; assurance_level = none };
      catalog = record { id = "C"; assurance_levels = [] };
    }
