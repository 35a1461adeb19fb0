-- ===== src/Evaluation/Status/Subcontrol.antt =====
-- What the status of a sub-control says of its assessment results.
use mathlib.Core.List.{append_assoc, append-nil}
use clouditor.Prelude.{
  String, ◌≡◌, refl, sym, ap, inl, inr, Bool, true, false, not, Bool-cases, List, [], ◌∷◌, ◌++◌,
  map, keep, all, if◌then◌else◌,
}
use clouditor.Evaluation.Model.{
  EvaluationStatus, compliant, not_compliant, pending, AssessmentResult,
}
use clouditor.Evaluation.Status.{assess, assess_all, initial_status, subcontrol_findings}

abbrev pub ids : List AssessmentResult → List String
ids = map (λ r. r.id)

-- The assessment results that are not compliant, in order.
abbrev pub non_compliant : List AssessmentResult → List AssessmentResult
non_compliant = keep (λ r. not r.compliant)

abbrev pub all_compliant : List AssessmentResult → Bool
all_compliant = all (λ r. r.compliant)

if_same : (b : Bool) (s : EvaluationStatus) → (if b then s else s) ≡ s
if_same true s = refl
if_same false s = refl

assess_all-findings :
    (status : EvaluationStatus) (failing : List String) (rs : List AssessmentResult)
    → assess_all (status, failing) rs
      ≡ (if all_compliant rs then status else not_compliant, failing ++ ids (non_compliant rs))
unfolding assess_all assess
assess_all-findings status failing [] = ap (λ xs. (status, xs)) (sym (append-nil failing))
assess_all-findings status failing (r ∷ rs) = elim (Bool-cases r.compliant) [
  | inl e ↦ rw (e, assess_all-findings status failing rs) refl
  | inr e ↦
      rw (e, assess_all-findings not_compliant (failing ++ r.id ∷ []) rs)
        (λ i. (
          if_same (all_compliant rs) not_compliant i,
          append_assoc failing (r.id ∷ []) (ids (non_compliant rs)) i,
        ))
]

-- The status that a list of assessment results stands for.
abbrev pub expected_status : List AssessmentResult → EvaluationStatus
expected_status [] = pending
expected_status (r ∷ rs) = if all_compliant (r ∷ rs) then compliant else not_compliant

-- A sub-control is pending exactly without assessment results, compliant exactly if there are some
-- and all are compliant, and otherwise not compliant; the IDs that it reports are those of the
-- assessment results that are not compliant, in order.
pub subcontrol_findings_lem :
    (rs : List AssessmentResult)
    → subcontrol_findings rs ≡ (expected_status rs, ids (non_compliant rs))
unfolding subcontrol_findings initial_status
subcontrol_findings_lem [] = unfold assess_all in refl
subcontrol_findings_lem (r ∷ rs) = assess_all-findings compliant [] (r ∷ rs)
