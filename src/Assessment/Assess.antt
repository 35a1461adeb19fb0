-- ===== src/Assessment/Assess.antt =====
-- The state of service/assessment/assessment.go that an assessment changes, informHooks, and the
-- evidence store's part of handleEvidence. A hook is a name; informing it is written down, at once, where the code starts a goroutine for it,
-- and so is what is given to a channel. A stream is of a type C, a resource's message of a type M;
-- what the orchestrator answers to the evaluation is a parameter. A message of an error that is
-- printed by %v alone is left out.
use clouditor.Prelude.{ℕ, String, Bool, Option, none, some, List, [], ◌∷◌, ◌++◌, map, if◌then◌else◌}
use clouditor.Status.{Error, Result, ok, err, panic, wrapped, status, internal}
use clouditor.Exec.{Exec, pure, lift, raise, attempt, modify, ◌>>=◌, ◌>>◌}
use clouditor.Channels.{StreamChannel, InitFunc, Streams, get_stream}
use clouditor.Policies.Eval.{RegoEval}

-- An evidence; its resource is an Any of the type A.
pub record Evidence (A : Type 0) : Type 0 where
  pub id : String
  pub timestamp : ℕ
  pub cloud_service_id : String
  pub tool_id : String
  pub resource : A

pub record AssessEvidenceRequest (A : Type 0) : Type 0 where
  pub evidence : Evidence A

pub record AssessmentResult (Conf : Type 0) : Type 0 where
  pub id : String
  pub timestamp : ℕ
  pub cloud_service_id : String
  pub metric_id : String
  pub metric_configuration : Conf
  pub compliant : Bool
  pub evidence_id : String
  pub resource_id : String
  pub resource_types : List String
  pub non_compliance_comments : String
  pub tool_id : Option String

-- assessment.AssessmentToolId
abbrev pub assessment_tool_id : String
assessment_tool_id = "Clouditor Assessment"

pub record Service (A Q Conf C H : Type 0) : Type 0 where
  pub is_evidence_store_disabled : Bool
  pub evidence_store_target : String
  pub evidence_store_streams : Streams C
  pub orchestrator_target : String
  pub orchestrator_streams : Streams C
  pub result_hooks : List H
  pub pe : RegoEval Q
  -- the messages given to the two channels, and the calls of hooks, the last one last
  pub evidences_sent : List (Evidence A)
  pub results_sent : List (AssessmentResult Conf)
  pub informed : List (H × (Option (AssessmentResult Conf) × Option Error))

-- What package ontology says of a resource of the type R, and how an Any is read.
pub record Resources (A M R Input : Type 0) : Type 0 where
  pub unmarshal_new : A → Result M
  pub as_resource : M → Option R
  pub id : R → String
  pub resource_map : R → Result Input
  pub resource_types : R → List String

module _ {A Q Conf C H : Type 0} where
  unfoldable pub inform_hooks :
      Option (AssessmentResult Conf) → Option Error → Exec (Service A Q Conf C H) (Unit {0})
  inform_hooks result e =
      modify (λ s. record s { informed = s.informed ++ map (λ h. (h, (result, e))) s.result_hooks })

  unfoldable pub register_assessment_result_hook : H → Exec (Service A Q Conf C H) (Unit {0})
  register_assessment_result_hook hook =
      modify (λ s. record s { result_hooks = s.result_hooks ++ hook ∷ [] })

  -- An error that the hooks are told of, and what is returned then.
  unfoldable pub fail_with : {B : Type 0} → Error → Exec (Service A Q Conf C H) B
  unfolding inform_hooks
  fail_with e = inform_hooks none (some e) >> raise (status internal "")

  -- The outcome of a call, with its error told to the hooks.
  unfoldable pub or_fail : {B : Type 0} → String → Result B → Exec (Service A Q Conf C H) B
  unfolding fail_with
  or_fail text (ok b) = pure b
  or_fail text (err e) = fail_with (wrapped text e)
  or_fail text panic = lift panic

  -- evidenceStoreStreams.GetStream and orchestratorStreams.GetStream
  abbrev pub evidence_store_stream : InitFunc C → Exec (Service A Q Conf C H) (StreamChannel C)
  evidence_store_stream init s =
      let (outcome, channels) =
        get_stream s.evidence_store_target "Evidence Store" init s.evidence_store_streams in
      (outcome, record s { evidence_store_streams = channels })

  abbrev pub orchestrator_stream : InitFunc C → Exec (Service A Q Conf C H) (StreamChannel C)
  orchestrator_stream init s =
      let (outcome, channels) =
        get_stream s.orchestrator_target "Orchestrator" init s.orchestrator_streams in
      (outcome, record s { orchestrator_streams = channels })

  abbrev pub on_pe : {B : Type 0} → Exec (RegoEval Q) B → Exec (Service A Q Conf C H) B
  on_pe call s = let (outcome, re) = call s.pe in (outcome, record s { pe = re })

  -- The evidence is given to the evidence store's channel.
  unfoldable pub store_evidence : InitFunc C → Evidence A → Exec (Service A Q Conf C H) (Unit {0})
  unfolding or_fail
  store_evidence init ev = do
    outcome ← attempt (evidence_store_stream init)
    channel ← or_fail "could not get stream to evidence store" outcome
    modify (λ s. record s { evidences_sent = s.evidences_sent ++ ev ∷ [] })

  -- `if !svc.isEvidenceStoreDisabled`
  unfoldable pub send_evidence : InitFunc C → Evidence A → Exec (Service A Q Conf C H) (Unit {0})
  unfolding store_evidence
  send_evidence init ev s =
      if s.is_evidence_store_disabled then pure tt s else store_evidence init ev s
