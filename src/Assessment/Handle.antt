-- ===== src/Assessment/Handle.antt =====
-- AssessEvidence, AssessEvidences and handleEvidence of service/assessment/assessment.go.
pub mod Adds
pub mod Allowed
pub mod Handled
pub mod Stored
mod Tests
use clouditor.Prelude.{ℕ, suc, String, Bool, true, false, Option, none, some, List, [], ◌∷◌, ◌++◌}
use clouditor.Status.{Error, Result, ok, err, panic, status, internal, err_permission_denied}
use clouditor.Exec.{Exec, pure, gets, lift, raise, attempt, modify, require, ◌>>=◌, ◌>>◌}
use clouditor.Auth.{AuthorizationStrategy, access_update}
use clouditor.Validate.{Rules, validate}
use clouditor.Stream.{Turn, Outcome, serve}
use clouditor.Channels.{InitFunc}
use clouditor.Policies.Names.{Unicode}
use clouditor.Policies.Query.{EvalResult, Engine, MetricsSource}
use clouditor.Policies.Eval.{RegoEval, eval}
use clouditor.Assessment.Assess.{
  Evidence, AssessEvidenceRequest, AssessmentResult, assessment_tool_id, Service, Resources,
  inform_hooks, or_fail, orchestrator_stream, on_pe, send_evidence,
}

-- What the service works with: the evaluation's engine and its source of metrics, package ontology,
-- the rules of the resources' messages and the initializers of the streams.
pub record Environment (A M R Tx Q Input Conf Impl C : Type 0) : Type 0 where
  pub unicode : Unicode
  pub engine : Engine Tx Q Input Conf Impl
  pub hash : Conf → String
  pub eval_pkg : String
  pub src : MetricsSource Conf Impl
  pub resources : Resources A M R Input
  pub rules : Rules M
  pub init_evidence_store_stream : InitFunc C
  pub init_orchestrator_stream : InitFunc C

module _ {A M R Tx Q Input Conf Impl C : Type 0}
    (env : Environment A M R Tx Q Input Conf Impl C) where
  unfoldable pub unmarshal : A → Result M
  unmarshal any = elim (env.resources.unmarshal_new any) [
    | ok m ↦ ok m
    | err e ↦ err (status internal "could not unmarshal resource proto message")
    | panic ↦ panic
  ]

  unfoldable pub ontology_resource : M → Result R
  ontology_resource m = elim (env.resources.as_resource m) [
    | some resource ↦ ok resource
    | none ↦ err (status internal "invalid embedded resource")
  ]

  unfoldable pub result_of : Evidence A → R → String × ℕ → EvalResult Conf → AssessmentResult Conf
  result_of ev resource stamp evaluation = record {
    id = stamp.0;
    timestamp = stamp.1;
    cloud_service_id = ev.cloud_service_id;
    metric_id = evaluation.metric_id;
    metric_configuration = evaluation.config;
    compliant = evaluation.compliant;
    evidence_id = ev.id;
    resource_id = env.resources.id resource;
    resource_types = env.resources.resource_types resource;
    non_compliance_comments = "No comments so far";
    tool_id = some assessment_tool_id;
  }

  abbrev pub evaluate : Evidence A → R → Exec (RegoEval Q) (List (EvalResult Conf))
  evaluate ev resource =
      eval env.unicode env.engine env.hash env.eval_pkg env.src ev.tool_id ev.cloud_service_id
        (env.resources.resource_map resource) (env.resources.resource_types resource)

  module _ {H : Type 0} where
    -- The resource in an evidence, validated.
    unfoldable pub resource_of : Evidence A → Exec (Service A Q Conf C H) R
    unfolding unmarshal validate ontology_resource
    resource_of ev = do
      m ← lift (unmarshal ev.resource)
      valid ← lift (validate env.rules (some m))
      lift (ontology_resource valid)

    unfoldable pub send_result : AssessmentResult Conf → Exec (Service A Q Conf C H) (Unit {0})
    unfolding inform_hooks
    send_result result = do
      inform_hooks (some result) none
      modify (λ s. record s { results_sent = s.results_sent ++ result ∷ [] })

    -- The loop over the evaluations. `stamp i` is the new ID and the time of its i-th turn.
    unfoldable pub send_results :
        (ℕ → String × ℕ)
        → ℕ
        → Evidence A
        → R
        → List (EvalResult Conf)
        → Exec (Service A Q Conf C H) (List (AssessmentResult Conf))
    unfolding result_of send_result
    send_results stamp i ev resource [] = pure []
    send_results stamp i ev resource (evaluation ∷ rest) = do
      send_result (result_of ev resource (stamp i) evaluation)
      others ← send_results stamp (suc i) ev resource rest
      pure (result_of ev resource (stamp i) evaluation ∷ others)

    unfoldable pub handle_evidence :
        (ℕ → String × ℕ) → Evidence A → Exec (Service A Q Conf C H) (List (AssessmentResult Conf))
    unfolding resource_of or_fail send_evidence send_results
    handle_evidence stamp ev = do
      resource ← resource_of ev
      outcome ← attempt (on_pe (evaluate ev resource))
      evaluations ← or_fail "could not evaluate evidence" outcome
      send_evidence env.init_evidence_store_stream ev
      connected ← attempt (orchestrator_stream env.init_orchestrator_stream)
      channel ← or_fail "could not get stream to orchestrator" connected
      send_results stamp 0 ev resource evaluations

    module _ {Ctx : Type 0} (authz : AuthorizationStrategy Ctx)
        (requests : Rules (AssessEvidenceRequest A)) (ctx : Option Ctx) where
      unfoldable pub assess_evidence :
          (ℕ → String × ℕ)
          → Option (AssessEvidenceRequest A)
          → Exec (Service A Q Conf C H) (Unit {0})
      unfolding validate handle_evidence
      assess_evidence stamp request = do
        req ← lift (validate requests request)
        require (authz.check_access ctx access_update req.evidence.cloud_service_id)
            err_permission_denied
        results ← handle_evidence stamp req.evidence
        pure tt

      -- The IDs and the times that a request needs are an argument.
      unfoldable pub assess_evidences :
          (Option (AssessEvidenceRequest A) → ℕ → String × ℕ)
          → List (Turn (AssessEvidenceRequest A))
          → Service A Q Conf C H
          → Outcome (Service A Q Conf C H)
      unfolding serve assess_evidence
      assess_evidences stamp = serve (λ request. assess_evidence (stamp request) request)
