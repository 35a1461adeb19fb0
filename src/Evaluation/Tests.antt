-- ===== src/Evaluation/Tests.antt =====
-- Controls, levels and results at concrete inputs.
use clouditor.Prelude.{String, ◌≡◌, refl, ◌↔◌, true, false, Option, none, some, List, [], ◌∷◌}
use clouditor.Prelude.Maps.{put}
use clouditor.Status.{Result, ok}
use clouditor.Evaluation.Model.{
  EvaluationStatus, compliant, compliant_manually, pending, EvaluationResult, Control, control, nil,
  TargetOfEvaluation, Catalog,
}
use clouditor.Evaluation.Relevance.{is_relevant_for, Relevant, is_relevant_for_iff}
use clouditor.Evaluation.Status.{control_findings}
use clouditor.Evaluation.Status.Verdict.{control_findings-verdict}
use clouditor.Evaluation.Controls.{CatalogControls, put_all, cache_controls, get_control}
use clouditor.Evaluation.Controls.Cached.{get_control-cache_controls}

abbrev access_control : Option String → Control
access_control level =
    control
      (record {
        id = "AC-1";
        category_name = "AC";
        category_catalog_id = "C";
        parent_control_id = none;
        assurance_level = level;
        metrics = record { id = "m1" } ∷ [];
      })
      nil

abbrev target : TargetOfEvaluation
target = record { cloud_service_id = "s1"; catalog_id = "C"; assurance_level = some "basic" }

abbrev catalog : Catalog
catalog = record { id = "C"; assurance_levels = "basic" ∷ "high" ∷ [] }

high_not_relevant : is_relevant_for (access_control (some "high")) target catalog ≡ false
unfolding is_relevant_for
high_not_relevant = refl

is_relevant_for_iff_example :
    (is_relevant_for (access_control (some "basic")) target catalog ≡ true)
    ↔ Relevant (access_control (some "basic")) target catalog
is_relevant_for_iff_example = is_relevant_for_iff (access_control (some "basic")) target catalog

abbrev result : EvaluationStatus → List String → EvaluationResult
result status failing = record {
  id = "r";
  timestamp = 0;
  control_category_name = "AC";
  control_id = "AC-1.1";
  parent_control_id = some "AC-1";
  cloud_service_id = "s1";
  control_catalog_id = "C";
  status = status;
  failing_assessment_result_ids = failing;
  valid_until = none;
}

control_findings-verdict_example :
    (control_findings (result pending [] ∷ result compliant_manually [] ∷ [])).0 ≡ compliant
control_findings-verdict_example =
    control_findings-verdict (result pending [] ∷ result compliant_manually [] ∷ [])

abbrev two_controls : List Control
two_controls = access_control none ∷ access_control (some "high") ∷ []

abbrev listed : String → Result (List Control)
listed id = ok two_controls

cached : CatalogControls
unfolding put_all
cached = ("C", put_all two_controls []) ∷ []

get_control-cache_controls_example :
    get_control cached "C" "AC" "AC-1" ≡ ok (access_control (some "high"))
unfolding put
get_control-cache_controls_example =
    get_control-cache_controls listed "C" [] cached (access_control none ∷ []) []
      (access_control (some "high")) refl tt (unfold cached cache_controls in refl) refl refl
