-- ===== src/Evaluation/Model.antt =====
-- The messages that the evaluation reads and writes (api/evaluation/evaluation.proto,
-- api/orchestrator/orchestrator.proto, api/assessment), with the fields that the service uses.
use clouditor.Prelude.{ℕ, String, Bool, Option, List, [], ◌∷◌}

pub data EvaluationStatus : Type 0 where
  unspecified compliant compliant_manually not_compliant not_compliant_manually pending :
      EvaluationStatus

pub record EvaluationResult : Type 0 where
  pub id : String
  pub timestamp : ℕ
  pub control_category_name : String
  pub control_id : String
  pub parent_control_id : Option String
  pub cloud_service_id : String
  pub control_catalog_id : String
  pub status : EvaluationStatus
  pub failing_assessment_result_ids : List String
  pub valid_until : Option ℕ

pub record Metric : Type 0 where
  pub id : String

pub record AssessmentResult : Type 0 where
  pub id : String
  pub compliant : Bool

-- The fields of a control beside its sub-controls.
pub record ControlFields : Type 0 where
  pub id : String
  pub category_name : String
  pub category_catalog_id : String
  pub parent_control_id : Option String
  pub assurance_level : Option String
  pub metrics : List Metric

mutual
  pub data Control : Type 0 where
    control : ControlFields → Controls → Control

  pub data Controls : Type 0 where
    nil : Controls
    cons : Control → Controls → Controls

abbrev pub fields : Control → ControlFields
fields (control f subs) = f

abbrev pub to_list : Controls → List Control
to_list nil = []
to_list (cons c cs) = c ∷ to_list cs

abbrev pub controls : Control → List Control
controls (control f subs) = to_list subs

pub record TargetOfEvaluation : Type 0 where
  pub cloud_service_id : String
  pub catalog_id : String
  pub assurance_level : Option String

pub record Catalog : Type 0 where
  pub id : String
  pub assurance_levels : List String
