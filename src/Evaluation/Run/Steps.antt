-- ===== src/Evaluation/Run/Steps.antt =====
-- What evaluating a sub-control and a control stores.
use mathlib.Core.Path.{subst}
use mathlib.Core.List.{append_assoc}
use clouditor.Prelude.{ℕ, String, ◌≡◌, refl, sym, ap, ◌∙◌, true, false, List, [], ◌∷◌, ◌++◌, arith}
use clouditor.Status.{Result, ok}
use clouditor.Storage.{Table}
use clouditor.Evaluation.Model.{
  not_compliant, EvaluationResult, AssessmentResult, Metric, Control, fields, TargetOfEvaluation,
  Catalog,
}
use clouditor.Evaluation.Status.{control_findings}
use clouditor.Evaluation.Status.Subcontrol.{expected_status, all_compliant, subcontrol_findings_lem}
use clouditor.Evaluation.Status.Order.{speaks_against, control_findings-against}
use clouditor.Evaluation.Controls.{CatalogControls, get_all_metrics_from_control}
use clouditor.Evaluation.Run.{
  World, Supply, run_all, assessments_for, relevant_subcontrols, subcontrol_result, control_result,
  evaluate_subcontrol, evaluate_control,
}
use clouditor.Evaluation.Run.Group.{run_all-Step, ok-injective}

value_or_none : {A : Type 0} → Result (List A) → List A
value_or_none (ok xs) = xs
value_or_none _ = []

-- The status of a sub-control with an assessment result that is not compliant.
expected_status-bad :
    (rs : List AssessmentResult) → all_compliant rs ≡ false → expected_status rs ≡ not_compliant
expected_status-bad [] h = absurd (cc)
expected_status-bad (r ∷ rs) h = rw h

subcontrol_result-against :
    (toe : TargetOfEvaluation) (c : Control) (rs : List AssessmentResult) (stamp : String × ℕ)
    → all_compliant rs ≡ false
    → speaks_against (subcontrol_result toe c rs stamp) ≡ true
unfolding subcontrol_result
subcontrol_result-against toe c rs stamp h =
    rw (ap (λ p. p.0) (subcontrol_findings_lem rs) ∙ expected_status-bad rs h)

control_result-against :
    (toe : TargetOfEvaluation) (c : Control) (xs ys zs : List EvaluationResult)
    (r : EvaluationResult) (stamp : String × ℕ) {rs : List EvaluationResult}
    → rs ≡ xs ++ r ∷ ys
    → speaks_against r ≡ true
    → (control_result toe c (rs ++ zs) stamp).status ≡ not_compliant
unfolding control_result
control_result-against toe c xs ys zs r stamp e h =
    ap (λ l. (control_findings l).0) (ap (λ l. l ++ zs) e ∙ append_assoc xs (r ∷ ys) zs)
    ∙ control_findings-against xs (ys ++ zs) r h

module _ {D : Type 0} (table : Table D EvaluationResult) (supply : Supply) (cache : CatalogControls)
    (latest : String → List String → Result (List AssessmentResult)) where
  -- A sub-control whose evaluation returns a result has stored it: for the metrics of the control,
  -- from the latest assessment results of the service for them.
  pub record SubcontrolStored (toe : TargetOfEvaluation) (c : Control) (s : World D)
      (r : EvaluationResult) (t : World D) : Type 0 where
    pub metrics : List Metric
    pub found :
        get_all_metrics_from_control cache toe.catalog_id (fields c).category_name (fields c).id
        ≡ ok metrics
    pub result :
        r
        ≡ subcontrol_result toe c
            (assessments_for latest toe.cloud_service_id metrics)
            (supply.uuid s.drawn, supply.now s.drawn)
    pub written : table.create r s.db ≡ (ok tt, t.db)

  pub evaluate_subcontrol-Stored :
      (toe : TargetOfEvaluation) (c : Control) (s : World D) {r : EvaluationResult} {t : World D}
      → evaluate_subcontrol table supply cache latest toe c s ≡ (ok r, t)
      → SubcontrolStored toe c s r t
  unfolding evaluate_subcontrol value_or_none
  evaluate_subcontrol-Stored toe c s {r} {t} h = record {
    metrics =
        value_or_none (
          get_all_metrics_from_control cache toe.catalog_id (fields c).category_name (fields c).id);
    found = ground arith;
    result = ground arith;
    written = ground arith;
  }

  -- A control whose evaluation returns no error has stored a result of its own, made of the results
  -- that its relevant sub-controls returned, followed by the manual ones.
  pub record ControlStored (toe : TargetOfEvaluation) (catalog : Catalog) (c : Control)
      (manual : List EvaluationResult) (s t : World D) : Type 0 where
    pub results : List EvaluationResult
    pub after : World D
    pub ran :
        run_all
          (evaluate_subcontrol table supply cache latest toe)
          (relevant_subcontrols toe catalog manual c)
          s
        ≡ (ok results, after)
    pub written :
        table.create
          (control_result toe c
            (results ++ manual)
            (supply.uuid after.drawn, supply.now after.drawn))
          after.db
        ≡ (ok tt, t.db)

  pub evaluate_control-Stored :
      (toe : TargetOfEvaluation) (catalog : Catalog) (c : Control) (manual : List EvaluationResult)
      (s : World D) {t : World D}
      → evaluate_control table supply cache latest toe catalog c manual s ≡ (ok tt, t)
      → ControlStored toe catalog c manual s t
  unfolding evaluate_control value_or_none
  evaluate_control-Stored toe catalog c manual s {t} h =
      let run : Result (List EvaluationResult) × World D =
        run_all (evaluate_subcontrol table supply cache latest toe)
          (relevant_subcontrols toe catalog manual c) s in
      record {
        results = value_or_none run.0;
        after = run.1;
        ran = ground arith;
        written = ground arith;
      }

  -- A sub-control that is evaluated automatically, and of whose latest assessment results one is not
  -- compliant, makes its control's stored result not compliant, whatever the other sub-controls and
  -- the manual results say.
  pub evaluate_control-not_compliant :
      (toe : TargetOfEvaluation) (catalog : Catalog) (c : Control) (manual : List EvaluationResult)
      (s t : World D) (xs zs : List Control) (sub : Control) (metrics : List Metric)
      → evaluate_control table supply cache latest toe catalog c manual s ≡ (ok tt, t)
      → relevant_subcontrols toe catalog manual c ≡ xs ++ sub ∷ zs
      → get_all_metrics_from_control cache toe.catalog_id (fields sub).category_name (fields sub).id
        ≡ ok metrics
      → all_compliant (assessments_for latest toe.cloud_service_id metrics) ≡ false
      → (r : EvaluationResult) × (db : D) × (table.create r db ≡ (ok tt, t.db))
        × (r.control_id ≡ (fields c).id)
        × (r.cloud_service_id ≡ toe.cloud_service_id)
        × (r.status ≡ not_compliant)
  evaluate_control-not_compliant toe catalog c manual s t xs zs sub metrics done relevant found
        bad =
      let stored = evaluate_control-Stored toe catalog c manual s done in
      let step =
        run_all-Step (evaluate_subcontrol table supply cache latest toe) xs sub zs s
          (rw relevant at stored.ran) in
      let one = evaluate_subcontrol-Stored toe sub step.before step.ran in
      (
        control_result toe c (stored.results ++ manual)
            (supply.uuid stored.after.drawn, supply.now stored.after.drawn),
        stored.after.db,
        stored.written,
        unfold control_result in refl,
        unfold control_result in refl,
        control_result-against toe c step.xs' step.ys' manual step.result
            (supply.uuid stored.after.drawn, supply.now stored.after.drawn) step.split
            (subst (λ r. speaks_against r ≡ true) (sym one.result)
              (subcontrol_result-against toe sub
                (assessments_for latest toe.cloud_service_id one.metrics)
                (supply.uuid step.before.drawn, supply.now step.before.drawn)
                (subst
                  (λ ms. all_compliant (assessments_for latest toe.cloud_service_id ms) ≡ false)
                  (ok-injective (sym found ∙ one.found)) bad))),
      )
