-- ===== src/Evaluation/Run.antt =====
-- evaluateSubcontrol, evaluateControl and evaluateCatalog of service/evaluation/evaluation.go.
-- The goroutines of an errgroup are run one after the other, in the order in which they are started:
-- each one runs to its end whatever the others return, and the group gives the first error. The
-- results do not depend on that order, since each goroutine writes its own place of the slice.
mod Tests
pub mod Group
pub mod Steps
use clouditor.Prelude.{
  ℕ, zero, suc, String, ◌≡◌, Bool, true, false, not, ◌&&◌, Option, none, some, List, [], ◌∷◌, ◌++◌,
  map, keep, ◌==◌, if◌then◌else◌, contains,
}
use clouditor.Prelude.Maps.{Map, lookup, values}
use clouditor.Status.{Error, Result, ok, err, panic}
use clouditor.Exec.{Exec, pure, raise, lift, gets, ◌>>=◌, ◌>>◌}
use clouditor.Storage.{Table}
use clouditor.Evaluation.Model.{
  EvaluationStatus, EvaluationResult, AssessmentResult, Metric, Control, ControlFields, fields,
  controls, TargetOfEvaluation, Catalog,
}
use clouditor.Evaluation.Relevance.{is_relevant_for}
use clouditor.Evaluation.Status.{subcontrol_findings, control_findings}
use clouditor.Evaluation.Controls.{
  CatalogControls, inner, get_all_metrics_from_control, get_metric_ids,
}

-- The database, and how many IDs and times have been drawn.
pub record World (D : Type 0) : Type 0 where
  pub db : D
  pub drawn : ℕ

-- uuid.NewString and timestamppb.Now, by the number of the call.
pub record Supply : Type 0 where
  pub uuid : ℕ → String
  pub now : ℕ → ℕ

-- errgroup.Group.Wait over the results of all goroutines.
abbrev pub both : {A : Type 0} → Result A → Result (List A) → Result (List A)
both panic rs = panic
both (err e) rs = err e
both (ok a) (ok as') = ok (a ∷ as')
both (ok a) (err e) = err e
both (ok a) panic = panic

unfoldable pub run_all : {A B S : Type 0} → (A → Exec S B) → List A → Exec S (List B)
run_all f [] s = (ok [], s)
run_all f (x ∷ xs) s = let (r, s1) = f x s in let (rs, s2) = run_all f xs s1 in (both r rs, s2)

-- ListAllPaginated returns no rows beside an error, and evaluateSubcontrol goes on without them.
abbrev pub or_empty : Result (List AssessmentResult) → List AssessmentResult
or_empty (ok rs) = rs
or_empty _ = []

-- The assessment results that count for a sub-control: the latest by resource, of its metrics.
unfoldable pub assessments_for :
    (String → List String → Result (List AssessmentResult))
    → String
    → List Metric
    → List AssessmentResult
assessments_for latest cloud_service_id [] = []
assessments_for latest cloud_service_id (m ∷ ms) =
    or_empty (latest cloud_service_id (get_metric_ids (m ∷ ms)))

-- The IDs of the controls that have a manual result.
abbrev pub control_ids : List EvaluationResult → List String
control_ids = map (λ r. r.control_id)

unfoldable pub is_sub : Option String → String → Bool
is_sub none id = false
is_sub (some parent) id = parent == id

abbrev pub has_parent : Option String → Bool
has_parent none = false
has_parent (some parent) = true

-- `manual[id]`: the manual results of the sub-controls of a control.
unfoldable pub manual_for : List EvaluationResult → String → List EvaluationResult
unfolding is_sub
manual_for results id = keep (λ r. is_sub r.parent_control_id id) results

-- The controls that have a manual result of their own.
unfoldable pub ignored_controls : List EvaluationResult → List String
ignored_controls results = control_ids (keep (λ r. not (has_parent r.parent_control_id)) results)

-- The sub-controls that are evaluated automatically.
unfoldable pub relevant_subcontrols :
    TargetOfEvaluation → Catalog → List EvaluationResult → Control → List Control
relevant_subcontrols toe catalog manual c =
    keep
      (λ sub.
        not (contains (control_ids manual) (fields sub).id) && is_relevant_for sub toe catalog)
      (controls c)

-- The parent controls that are evaluated automatically.
unfoldable pub relevant_controls :
    TargetOfEvaluation → Catalog → List EvaluationResult → List Control → List Control
unfolding ignored_controls
relevant_controls toe catalog results cs =
    keep
      (λ c.
        not (has_parent (fields c).parent_control_id)
        && (not (contains (ignored_controls results) (fields c).id)
            && is_relevant_for c toe catalog))
      cs

-- The result of a sub-control, from its assessment results.
unfoldable pub subcontrol_result :
    TargetOfEvaluation → Control → List AssessmentResult → String × ℕ → EvaluationResult
subcontrol_result toe c assessments stamp = record {
  id = stamp.0;
  timestamp = stamp.1;
  control_category_name = (fields c).category_name;
  control_id = (fields c).id;
  parent_control_id = (fields c).parent_control_id;
  cloud_service_id = toe.cloud_service_id;
  control_catalog_id = toe.catalog_id;
  status = (subcontrol_findings assessments).0;
  failing_assessment_result_ids = (subcontrol_findings assessments).1;
  valid_until = none;
}

-- The result of a control, from those of its sub-controls.
unfoldable pub control_result :
    TargetOfEvaluation → Control → List EvaluationResult → String × ℕ → EvaluationResult
control_result toe c results stamp = record {
  id = stamp.0;
  timestamp = stamp.1;
  control_category_name = (fields c).category_name;
  control_id = (fields c).id;
  parent_control_id = none;
  cloud_service_id = toe.cloud_service_id;
  control_catalog_id = toe.catalog_id;
  status = (control_findings results).0;
  failing_assessment_result_ids = (control_findings results).1;
  valid_until = none;
}

module _ {D : Type 0} (table : Table D EvaluationResult) (supply : Supply) (cache : CatalogControls)
    (latest : String → List String → Result (List AssessmentResult)) where
  -- svc.storage.Create
  abbrev pub create : EvaluationResult → Exec (World D) (Unit {0})
  create r s = let (res, db') = table.create r s.db in (res, record s { db = db' })

  -- A new ID and the time.
  abbrev pub draw : Exec (World D) (String × ℕ)
  draw s = (ok (supply.uuid s.drawn, supply.now s.drawn), record s { drawn = suc s.drawn })

  unfoldable pub evaluate_subcontrol :
      TargetOfEvaluation → Control → Exec (World D) EvaluationResult
  unfolding assessments_for subcontrol_result
  evaluate_subcontrol toe c = do
    metrics ←
        lift
          (get_all_metrics_from_control cache toe.catalog_id (fields c).category_name (fields c).id)
    stamp ← draw
    let eval = subcontrol_result toe c (assessments_for latest toe.cloud_service_id metrics) stamp
    create eval
    pure eval

  unfoldable pub evaluate_control :
      TargetOfEvaluation → Catalog → Control → List EvaluationResult → Exec (World D) (Unit {0})
  unfolding control_result relevant_subcontrols
  evaluate_control toe catalog c manual = do
    results ← run_all (evaluate_subcontrol toe) (relevant_subcontrols toe catalog manual c)
    stamp ← draw
    create (control_result toe c (results ++ manual) stamp)

  -- `sort` is slices.SortFunc by the control's ID; `listing` is the call of ListEvaluationResults for
  -- the valid manual results, the latest by control.
  unfoldable pub evaluate_catalog :
      (List Control → List Control)
      → Exec (World D) (List EvaluationResult)
      → TargetOfEvaluation
      → Catalog
      → Exec (World D) (List (Unit {0}))
  unfolding relevant_controls manual_for
  evaluate_catalog sort listing toe catalog = do
    results ← listing
    run_all (λ c. evaluate_control toe catalog c (manual_for results (fields c).id))
        (relevant_controls toe catalog results
          (sort (values (inner (lookup toe.catalog_id cache)))))
