-- ===== src/Evaluation/Status.antt =====
-- The status of a sub-control from its assessment results, and of a control from the results of its
-- sub-controls: the loops of evaluateSubcontrol and evaluateControl in
-- service/evaluation/evaluation.go.
pub mod Subcontrol
pub mod Verdict
pub mod Order
use clouditor.Prelude.{String, Bool, true, false, not, ◌&&◌, List, [], ◌∷◌, ◌++◌, if◌then◌else◌}
use clouditor.Evaluation.Model.{
  EvaluationStatus, unspecified, compliant, compliant_manually, not_compliant,
  not_compliant_manually, pending, EvaluationResult, AssessmentResult,
}

-- A status and the IDs of the assessment results that speak against compliance.
abbrev pub Findings : Type 0
Findings = EvaluationStatus × List String

unfoldable pub assess : Findings → AssessmentResult → Findings
assess (status, failing) r =
    if not r.compliant then (not_compliant, failing ++ r.id ∷ []) else (status, failing)

unfoldable pub assess_all : Findings → List AssessmentResult → Findings
assess_all acc [] = acc
assess_all acc (r ∷ rs) = assess_all (assess acc r) rs

-- Pending without assessment results, otherwise compliant unless one of them says otherwise.
unfoldable pub initial_status : List AssessmentResult → EvaluationStatus
initial_status [] = pending
initial_status (r ∷ rs) = compliant

unfoldable pub subcontrol_findings : List AssessmentResult → Findings
subcontrol_findings assessments = assess_all (initial_status assessments, []) assessments

abbrev pub is_compliant : EvaluationStatus → Bool
is_compliant compliant = true
is_compliant compliant_manually = true
is_compliant _ = false

abbrev pub is_not_compliant : EvaluationStatus → Bool
is_not_compliant not_compliant = true
is_not_compliant not_compliant_manually = true
is_not_compliant _ = false

abbrev pub is_pending : EvaluationStatus → Bool
is_pending pending = true
is_pending _ = false

unfoldable pub combine : Findings → EvaluationResult → Findings
combine (status, failing) r =
    if is_compliant r.status && not (is_not_compliant status)
    then (compliant, failing)
    else if is_pending r.status && is_pending status
    then (pending, failing)
    else (not_compliant, failing ++ r.failing_assessment_result_ids)

unfoldable pub combine_all : Findings → List EvaluationResult → Findings
combine_all acc [] = acc
combine_all acc (r ∷ rs) = combine_all (combine acc r) rs

unfoldable pub control_findings : List EvaluationResult → Findings
control_findings results = combine_all (pending, []) results
