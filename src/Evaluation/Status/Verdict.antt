-- ===== src/Evaluation/Status/Verdict.antt =====
-- What the status of a control says of the results of its sub-controls, and that it depends on
-- their order.
use clouditor.Prelude.{
  String, ◌≡◌, refl, inl, inr, Bool, true, false, Bool-cases, List, [], ◌∷◌, ◌++◌, all, arith,
  if◌then◌else◌,
}
use clouditor.Evaluation.Model.{
  EvaluationStatus, compliant, not_compliant, pending, EvaluationResult,
}
use clouditor.Evaluation.Status.{
  Findings, is_compliant, is_not_compliant, is_pending, combine, combine_all, control_findings,
}

abbrev pub all_passed : List EvaluationResult → Bool
all_passed = all (λ r. is_compliant r.status)

-- The results from the first one on that is not pending.
abbrev pub after_pending : List EvaluationResult → List EvaluationResult
after_pending [] = []
after_pending (r ∷ rs) = if is_pending r.status then after_pending rs else r ∷ rs

abbrev pub settle : List EvaluationResult → EvaluationStatus
settle [] = pending
settle (r ∷ rs) = if all_passed (r ∷ rs) then compliant else not_compliant

-- Pending if every result is; compliant if a run of pending results is followed by at least one
-- result, and from there on all are compliant; otherwise not compliant.
abbrev pub verdict : List EvaluationResult → EvaluationStatus
verdict rs = settle (after_pending rs)

-- The three states that the loop can be in, and what one result does to each.
pub combine-not_compliant :
    (failing : List String) (r : EvaluationResult)
    → combine (not_compliant, failing) r
      ≡ (not_compliant, failing ++ r.failing_assessment_result_ids)
unfolding combine
combine-not_compliant failing r = ground arith

pub combine-passed :
    (status : EvaluationStatus) (failing : List String) (r : EvaluationResult)
    → is_not_compliant status ≡ false
    → is_compliant r.status ≡ true
    → combine (status, failing) r ≡ (compliant, failing)
unfolding combine
combine-passed status failing r h e = rw (e, h)

pub combine-compliant :
    (failing : List String) (r : EvaluationResult)
    → is_compliant r.status ≡ false
    → combine (compliant, failing) r ≡ (not_compliant, failing ++ r.failing_assessment_result_ids)
unfolding combine
combine-compliant failing r e = ground arith

pub combine-pending :
    (failing : List String) (r : EvaluationResult)
    → is_pending r.status ≡ true
    → combine (pending, failing) r ≡ (pending, failing)
unfolding combine
combine-pending failing r e = ground arith

pub combine-other :
    (failing : List String) (r : EvaluationResult)
    → is_pending r.status ≡ false
    → is_compliant r.status ≡ false
    → combine (pending, failing) r ≡ (not_compliant, failing ++ r.failing_assessment_result_ids)
unfolding combine
combine-other failing r e k = ground arith

pub combine_all-cons :
    (acc : Findings) (r : EvaluationResult) (rs : List EvaluationResult)
    → combine_all acc (r ∷ rs) ≡ combine_all (combine acc r) rs
unfolding combine_all
combine_all-cons acc r rs = refl

combine_all-not_compliant :
    (failing : List String) (rs : List EvaluationResult)
    → (combine_all (not_compliant, failing) rs).0 ≡ not_compliant
combine_all-not_compliant failing [] = unfold combine_all in refl
combine_all-not_compliant failing (r ∷ rs) =
    rw (combine_all-cons, combine-not_compliant failing r)
      (combine_all-not_compliant (failing ++ r.failing_assessment_result_ids) rs)

combine_all-compliant :
    (failing : List String) (rs : List EvaluationResult)
    → (combine_all (compliant, failing) rs).0 ≡ (if all_passed rs then compliant else not_compliant)
combine_all-compliant failing [] = unfold combine_all in refl
combine_all-compliant failing (r ∷ rs) = elim (Bool-cases (is_compliant r.status)) [
  | inl e ↦
      rw (combine_all-cons, combine-passed compliant failing r refl e, e)
        (combine_all-compliant failing rs)
  | inr e ↦
      rw (combine_all-cons, combine-compliant failing r e, e)
        (combine_all-not_compliant (failing ++ r.failing_assessment_result_ids) rs)
]

combine_all-pending :
    (failing : List String) (rs : List EvaluationResult)
    → (combine_all (pending, failing) rs).0 ≡ verdict rs
combine_all-pending failing [] = unfold combine_all in refl
combine_all-pending failing (r ∷ rs) = elim (Bool-cases (is_pending r.status)) [
  | inl p ↦ rw (combine_all-cons, combine-pending failing r p, p) (combine_all-pending failing rs)
  | inr q ↦ elim (Bool-cases (is_compliant r.status)) [
    | inl e ↦
        rw (combine_all-cons, combine-passed pending failing r refl e, q, e)
          (combine_all-compliant failing rs)
    | inr e ↦
        rw (combine_all-cons, combine-other failing r q e, q, e)
          (combine_all-not_compliant (failing ++ r.failing_assessment_result_ids) rs)
  ]
]

-- The status of a control: pending exactly if all its results are, compliant exactly if a run of
-- pending results is followed by at least one result and every result from there on is compliant,
-- set automatically or manually; and not compliant in every other case.
pub control_findings-verdict : (rs : List EvaluationResult) → (control_findings rs).0 ≡ verdict rs
unfolding control_findings
control_findings-verdict rs = combine_all-pending [] rs
