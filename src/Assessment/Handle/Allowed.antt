-- ===== src/Assessment/Handle/Allowed.antt =====
-- Which assessment results service/assessment/assessment.go gives to the orchestrator.
use clouditor.Prelude.{
  ℕ, String, ◌≡◌, refl, Bool, true, false, Bool-cases, inl, inr, Option, some, List, [], ◌∷◌,
}
use clouditor.Status.{Result, ok, err, panic, is_eof, err_permission_denied}
use clouditor.Exec.{Exec, pure, lift, require, ◌>>=◌}
use clouditor.Auth.{AuthorizationStrategy, access_update}
use clouditor.Validate.{Rules, validate}
use clouditor.Stream.{Turn, Reply, Outcome, answer, react, serve}
use clouditor.Assessment.Assess.{Evidence, AssessEvidenceRequest, AssessmentResult, Service}
use clouditor.Assessment.Handle.{
  Environment, result_of, handle_evidence, assess_evidence, assess_evidences,
}
use clouditor.Assessment.Handle.Adds.{
  Extends, Extends-refl, Extends-trans, Adds, Adds-lift, Adds-bind, Adds-handle_evidence,
}

module _ {A Q Conf C H Req Res : Type 0} {P : AssessmentResult Conf → Type 0}
    (handle : Option Req → Exec (Service A Q Conf C H) Res)
    (each : (request : Option Req) → Adds P (handle request)) where
  answer-Extends :
      (reply : Reply) (send : Result (Unit {0})) (s t : Service A Q Conf C H)
      (rest : Outcome (Service A Q Conf C H))
      → Extends P s.results_sent t.results_sent
      → Extends P t.results_sent rest.1.1.results_sent
      → Extends P s.results_sent (answer reply send t rest).1.1.results_sent
  unfolding answer
  answer-Extends reply (ok u) s t rest g h = Extends-trans g h
  answer-Extends reply (err e) s t rest g h = elim (Bool-cases (is_eof e)) [
    | inl p ↦ rw p g
    | inr p ↦ rw p g
  ]
  answer-Extends reply panic s t rest g h = g

  react-Extends :
      (outcome : Result Res) (send : Result (Unit {0})) (s t : Service A Q Conf C H)
      (rest : Outcome (Service A Q Conf C H))
      → Extends P s.results_sent t.results_sent
      → Extends P t.results_sent rest.1.1.results_sent
      → Extends P s.results_sent (react outcome send t rest).1.1.results_sent
  unfolding react
  react-Extends (ok res) send s t rest g h = answer-Extends _ send s t rest g h
  react-Extends (err e) send s t rest g h = answer-Extends _ send s t rest g h
  react-Extends panic send s t rest g h = g

  serve-Extends :
      (turns : List (Turn Req)) (s : Service A Q Conf C H)
      → Extends P s.results_sent (serve handle turns s).1.1.results_sent
  unfolding serve
  serve-Extends [] s = Extends-refl s.results_sent
  serve-Extends ((err e, send) ∷ turns) s = elim (Bool-cases (is_eof e)) [
    | inl p ↦ rw p (Extends-refl s.results_sent)
    | inr p ↦ rw p (Extends-refl s.results_sent)
  ]
  serve-Extends ((panic, send) ∷ turns) s = Extends-refl s.results_sent
  serve-Extends ((ok req, send) ∷ turns) s =
      react-Extends (handle (some req) s).0 send s (handle (some req) s).1 _
        ((each (some req)).adds s) (serve-Extends turns (handle (some req) s).1)

module _ {A M R Tx Q Input Conf Impl C Ctx : Type 0}
    (env : Environment A M R Tx Q Input Conf Impl C) (authz : AuthorizationStrategy Ctx)
    (requests : Rules (AssessEvidenceRequest A)) (ctx : Option Ctx) where
  Allowed : AssessmentResult Conf → Type 0
  Allowed r = authz.check_access ctx access_update r.cloud_service_id ≡ true

  module _ {H : Type 0} where
    Adds-checked :
        (stamp : ℕ → String × ℕ) (ev : Evidence A) (b : Bool)
        → authz.check_access ctx access_update ev.cloud_service_id ≡ b
        → Adds {Q = Q} {H = H} Allowed (
            require b err_permission_denied >>= λ allowed.
            handle_evidence env stamp ev >>= λ results. pure tt)
    unfolding Allowed result_of
    Adds-checked stamp ev true h =
        Adds-bind (handle_evidence env stamp ev) _
          (Adds-handle_evidence env stamp ev (λ resource x evaluation. h))
          λ results. Adds-lift (ok tt)
    Adds-checked stamp ev false h = record { adds = λ s. Extends-refl s.results_sent }

    Adds-assess_evidence :
        (stamp : ℕ → String × ℕ) (request : Option (AssessEvidenceRequest A))
        → Adds {Q = Q} {H = H} Allowed (assess_evidence env authz requests ctx stamp request)
    unfolding assess_evidence
    Adds-assess_evidence stamp request =
        Adds-bind (lift (validate requests request)) _ (Adds-lift (validate requests request))
          λ req. Adds-checked stamp req.evidence _ refl

    -- Whatever requests come in, and whatever their outcomes are: each result that the orchestrator's
    -- channel is given is of a service that the caller may update, and no earlier one is changed.
    pub assess_evidences-Extends :
        (stamp : Option (AssessEvidenceRequest A) → ℕ → String × ℕ)
        (turns : List (Turn (AssessEvidenceRequest A))) (s : Service A Q Conf C H)
        → Extends
            (λ r. authz.check_access ctx access_update r.cloud_service_id ≡ true)
            s.results_sent
            (assess_evidences env authz requests ctx stamp turns s).1.1.results_sent
    unfolding assess_evidences Allowed
    assess_evidences-Extends stamp turns s =
        serve-Extends (λ request. assess_evidence env authz requests ctx (stamp request) request)
          (λ request. Adds-assess_evidence (stamp request) request) turns s
