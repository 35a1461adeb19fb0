-- ===== src/Evaluation/Run/Tests.antt =====
-- The evaluation of one control with one sub-control.
use clouditor.Prelude.{String, ◌≡◌, refl, false, Option, none, some, List, [], ◌∷◌}
use clouditor.Prelude.Maps.{lookup}
use clouditor.Status.{Result, ok, err, plain}
use clouditor.Storage.{Table}
use clouditor.Evaluation.Model.{
  not_compliant, EvaluationResult, AssessmentResult, Control, ControlFields, control, nil, cons,
  TargetOfEvaluation, Catalog,
}
use clouditor.Evaluation.Controls.{
  CatalogControls, get_control, get_all_metrics_from_control, get_metrics_from_subcontrols,
}
use clouditor.Evaluation.Relevance.{is_relevant_for}
use clouditor.Evaluation.Run.{
  World, Supply, evaluate_control, run_all, evaluate_subcontrol, relevant_subcontrols,
}
use clouditor.Evaluation.Run.Steps.{evaluate_control-not_compliant}

abbrev control_fields : String → Option String → ControlFields
control_fields id parent = record {
  id = id;
  category_name = "AC";
  category_catalog_id = "C";
  parent_control_id = parent;
  assurance_level = none;
  metrics = record { id = "m1" } ∷ [];
}

abbrev sub : Control
sub = control (control_fields "AC-1.1" (some "AC-1")) nil

abbrev parent : Control
parent = control (control_fields "AC-1" none) (cons sub nil)

abbrev target : TargetOfEvaluation
target = record { cloud_service_id = "s1"; catalog_id = "C"; assurance_level = none }

abbrev catalog : Catalog
catalog = record { id = "C"; assurance_levels = [] }

abbrev cache : CatalogControls
cache = ("C", ("AC-AC-1", parent) ∷ ("AC-AC-1.1", sub) ∷ []) ∷ []

abbrev Db : Type 0
Db = List EvaluationResult

abbrev table : Table Db EvaluationResult
table = record {
  create = λ r db. (ok tt, r ∷ db);
  save = λ r conds db. (ok tt, r ∷ db);
  update = λ r conds db. (ok tt, r ∷ db);
  get = λ conds db. err (plain "not here");
  list = λ conds db order asc start size. ok db;
  count = λ conds db. ok 0;
  delete = λ conds db. (ok tt, []);
}

abbrev supply : Supply
supply = record { uuid = λ n. "new"; now = λ n. n }

-- One assessment result that is not compliant.
abbrev latest : String → List String → Result (List AssessmentResult)
latest service metrics = ok (record { id = "a"; compliant = false } ∷ [])

abbrev before : World Db
before = record { db = []; drawn = 0 }

evaluate_control-not_compliant_example :
    (r : EvaluationResult) × (db : Db) × (table.create r db
      ≡ (ok tt, (evaluate_control table supply cache latest target catalog parent [] before).1.db))
    × (r.control_id ≡ "AC-1")
    × (r.cloud_service_id ≡ "s1")
    × (r.status ≡ not_compliant)
unfolding run_all is_relevant_for evaluate_subcontrol get_all_metrics_from_control get_control
    lookup get_metrics_from_subcontrols relevant_subcontrols
evaluate_control-not_compliant_example =
    evaluate_control-not_compliant table supply cache latest target catalog parent [] before
      (evaluate_control table supply cache latest target catalog parent [] before).1 [] [] sub
      (record { id = "m1" } ∷ []) (unfold evaluate_control in refl) refl refl refl
