-- ===== src/Evaluation/Status/Order.antt =====
-- How the order of the sub-controls' results bears on the status of their control.
use mathlib.Core.List.{append_assoc, append-nil}
use mathlib.Core.Bool.{false≢true}
use clouditor.Prelude.{
  String, ◌≡◌, refl, sym, ap, ◌∙◌, Bool, true, false, Bool-cases, inl, inr, List, [], ◌∷◌, ◌++◌,
  all, All, arith, if◌then◌else◌,
}
use clouditor.Evaluation.Model.{
  EvaluationStatus, compliant, not_compliant, pending, EvaluationResult,
}
use clouditor.Evaluation.Status.{is_compliant, is_pending, combine, combine_all, control_findings}
use clouditor.Evaluation.Status.Verdict.{
  all_passed, after_pending, settle, verdict, control_findings-verdict, combine_all-cons,
}

-- A result that counts against its control wherever it stands.
abbrev pub speaks_against : EvaluationResult → Bool
speaks_against r =
    if is_compliant r.status then false else if is_pending r.status then false else true

abbrev pub all_pending : List EvaluationResult → Bool
all_pending = all (λ r. is_pending r.status)

pending-not-compliant :
    (r : EvaluationResult) → is_pending r.status ≡ true → is_compliant r.status ≡ false
pending-not-compliant r e = ground arith

compliant-not-pending :
    (r : EvaluationResult) → is_compliant r.status ≡ true → is_pending r.status ≡ false
compliant-not-pending r e = ground arith

all_passed-against :
    (xs ys : List EvaluationResult) (r : EvaluationResult)
    → speaks_against r ≡ true
    → all_passed (xs ++ r ∷ ys) ≡ false
all_passed-against [] ys r h = ground arith
all_passed-against (x ∷ xs) ys r h = ground (arith, all_passed-against xs ys r h)

against-not-pending : (r : EvaluationResult) → speaks_against r ≡ true → is_pending r.status ≡ false
against-not-pending r h = ground arith

verdict-against :
    (xs ys : List EvaluationResult) (r : EvaluationResult)
    → speaks_against r ≡ true
    → verdict (xs ++ r ∷ ys) ≡ not_compliant
verdict-against [] ys r h = rw (against-not-pending r h) (rw (all_passed-against [] ys r h))
verdict-against (x ∷ xs) ys r h = elim (Bool-cases (is_pending x.status)) [
  | inl p ↦ rw p (verdict-against xs ys r h)
  | inr q ↦ rw q (rw (all_passed-against (x ∷ xs) ys r h))
]

-- One result that is neither compliant nor pending makes its control not compliant, wherever it
-- stands among the results.
pub control_findings-against :
    (xs ys : List EvaluationResult) (r : EvaluationResult)
    → speaks_against r ≡ true
    → (control_findings (xs ++ r ∷ ys)).0 ≡ not_compliant
control_findings-against xs ys r h =
    control_findings-verdict (xs ++ r ∷ ys) ∙ verdict-against xs ys r h

after_pending-append :
    (ps cs : List EvaluationResult)
    → all_pending ps ≡ true
    → after_pending (ps ++ cs) ≡ after_pending cs
after_pending-append [] cs h = refl
after_pending-append (p ∷ ps) cs h = elim (Bool-cases (is_pending p.status)) [
  | inl e ↦ rw e (after_pending-append ps cs (rw e at h))
  | inr e ↦ absurd (false≢true (rw e at h))
]

verdict-passed :
    (c : EvaluationResult) (cs : List EvaluationResult)
    → all_passed (c ∷ cs) ≡ true
    → verdict (c ∷ cs) ≡ compliant
verdict-passed c cs h = elim (Bool-cases (is_compliant c.status)) [
  | inl e ↦ rw (compliant-not-pending c e) (rw h)
  | inr e ↦ absurd (false≢true (rw e at h))
]

first-passed :
    (c : EvaluationResult) (cs : List EvaluationResult)
    → all_passed (c ∷ cs) ≡ true
    → is_compliant c.status ≡ true
first-passed c cs h = ground arith

all_passed-pending :
    (cs ps : List EvaluationResult) (p : EvaluationResult)
    → is_pending p.status ≡ true
    → all_passed (cs ++ p ∷ ps) ≡ false
all_passed-pending [] ps p h = rw (pending-not-compliant p h)
all_passed-pending (c ∷ cs) ps p h = ground (arith, all_passed-pending cs ps p h)

first-pending :
    (p : EvaluationResult) (ps : List EvaluationResult)
    → all_pending (p ∷ ps) ≡ true
    → is_pending p.status ≡ true
first-pending p ps h = ground arith

-- With results that are pending and results that are compliant, at least one of each and none of
-- another kind, the control is compliant if the pending ones come first, and not compliant if the
-- compliant ones do.
pub control_findings_order :
    (p c : EvaluationResult) (ps cs : List EvaluationResult)
    → all_pending (p ∷ ps) ≡ true
    → all_passed (c ∷ cs) ≡ true
    → ((control_findings ((p ∷ ps) ++ c ∷ cs)).0 ≡ compliant)
      × ((control_findings ((c ∷ cs) ++ p ∷ ps)).0 ≡ not_compliant)
control_findings_order p c ps cs hp hc = (
  control_findings-verdict ((p ∷ ps) ++ c ∷ cs)
      ∙ ap settle (after_pending-append (p ∷ ps) (c ∷ cs) hp)
      ∙ verdict-passed c cs hc,
  control_findings-verdict ((c ∷ cs) ++ p ∷ ps)
      ∙ rw (compliant-not-pending c (first-passed c cs hc))
          (rw (all_passed-pending (c ∷ cs) ps p (first-pending p ps hp))),
)

-- A result that does not count against its control reports no failing assessment results.
abbrev pub Clean : EvaluationResult → Type 0
Clean r = speaks_against r ≡ false → r.failing_assessment_result_ids ≡ []

abbrev pub reported : List EvaluationResult → List String
reported [] = []
reported (r ∷ rs) = r.failing_assessment_result_ids ++ reported rs

against-not-compliant :
    (r : EvaluationResult) → speaks_against r ≡ true → is_compliant r.status ≡ false
against-not-compliant r h = ground arith

combine-reported :
    (status : EvaluationStatus) (failing : List String) (r : EvaluationResult)
    → Clean r
    → (combine (status, failing) r).1 ≡ failing ++ r.failing_assessment_result_ids
unfolding combine
combine-reported status failing r h = elim (Bool-cases (speaks_against r)) [
  | inl e ↦ rw (against-not-compliant r e, against-not-pending r e)
  | inr e ↦ ground (arith, h e, append-nil failing)
]

combine_all-reported :
    (status : EvaluationStatus) (failing : List String) (rs : List EvaluationResult)
    → All Clean rs
    → (combine_all (status, failing) rs).1 ≡ failing ++ reported rs
combine_all-reported status failing [] h = unfold combine_all in sym (append-nil failing)
combine_all-reported status failing (r ∷ rs) (h, hs) =
    ap (λ acc. acc.1) (combine_all-cons (status, failing) r rs)
    ∙ combine_all-reported (combine (status, failing) r).0 (combine (status, failing) r).1 rs hs
    ∙ ap (λ xs. xs ++ reported rs) (combine-reported status failing r h)
    ∙ append_assoc failing r.failing_assessment_result_ids (reported rs)

-- If the compliant and the pending results report no failing assessment results, a control reports
-- those of all its sub-controls, in the order of the results.
pub control_findings-reported :
    (rs : List EvaluationResult) → All Clean rs → (control_findings rs).1 ≡ reported rs
unfolding control_findings
control_findings-reported rs h = combine_all-reported pending [] rs h
