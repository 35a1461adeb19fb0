-- ===== src/Assessment/Handle/Handled.antt =====
-- What an evidence that service/assessment/assessment.go has assessed leaves behind.
use mathlib.Core.Path.{ap₂, subst₂}
use mathlib.Core.List.{append_assoc, append-nil}
use clouditor.Prelude.{
  ℕ, suc, String, ◌≡◌, refl, sym, ap, ◌∙◌, Bool, none, some, List, arith, [], ◌∷◌, ◌++◌, map,
  if◌then◌else◌,
}
use clouditor.Status.{ok}
use clouditor.Exec.{pure, lift, attempt, ◌>>=◌}
use clouditor.Exec.Inversion.{Gives, Gives-bind, result-attempt, state-attempt, ok-injective}
use clouditor.Validate.{validate}
use clouditor.Policies.Query.{EvalResult}
use clouditor.Assessment.Assess.{
  Evidence, AssessmentResult, Service, or_fail, orchestrator_stream, on_pe, send_evidence,
  inform_hooks,
}
use clouditor.Assessment.Handle.{
  Environment, unmarshal, ontology_resource, resource_of, result_of, send_result, send_results,
  evaluate, handle_evidence,
}
use clouditor.Assessment.Handle.Stored.{or_fail-ok, Stored, Stored-send_evidence}

-- The metric and the verdict of a result, and of an evaluation.
abbrev pub verdict : {Conf : Type 0} → AssessmentResult Conf → String × Bool
verdict r = (r.metric_id, r.compliant)

abbrev pub evaluation_verdict : {Conf : Type 0} → EvalResult Conf → String × Bool
evaluation_verdict e = (e.metric_id, e.compliant)

-- The results were given to the orchestrator's channel, one for each evaluation.
record Reported {A Q Conf C H : Type 0} (evaluations : List (EvalResult Conf))
    (s : Service A Q Conf C H) (results : List (AssessmentResult Conf)) (t : Service A Q Conf C H)
    : Type 0 where
  results_sent : t.results_sent ≡ s.results_sent ++ results
  verdicts : map verdict results ≡ map evaluation_verdict evaluations
  evidences_sent : t.evidences_sent ≡ s.evidences_sent
  pe : t.pe ≡ s.pe

module _ {A M R Tx Q Input Conf Impl C : Type 0} (env : Environment A M R Tx Q Input Conf Impl C)
    {H : Type 0} where
  -- What holds when an evidence has been assessed without an error.
  pub record Handled (ev : Evidence A) (s : Service A Q Conf C H)
      (results : List (AssessmentResult Conf)) (t : Service A Q Conf C H) : Type 0 where
    pub message : M
    pub resource : R
    pub evaluations : List (EvalResult Conf)
    pub unmarshalled : env.resources.unmarshal_new ev.resource ≡ ok message
    pub valid : env.rules message ≡ none
    pub embedded : env.resources.as_resource message ≡ some resource
    pub evaluated : evaluate env ev resource s.pe ≡ (ok evaluations, t.pe)
    pub verdicts : map verdict results ≡ map evaluation_verdict evaluations
    pub results_sent : t.results_sent ≡ s.results_sent ++ results
    pub evidences_sent :
        t.evidences_sent
        ≡ (if s.is_evidence_store_disabled then s.evidences_sent else s.evidences_sent ++ ev ∷ [])

  Reported-send_results :
      (stamp : ℕ → String × ℕ) (i : ℕ) (ev : Evidence A) (resource : R)
      (evaluations : List (EvalResult Conf)) (s t : Service A Q Conf C H)
      (results : List (AssessmentResult Conf))
      → Gives (send_results env stamp i ev resource evaluations) s results t
      → Reported evaluations s results t
  unfolding send_results send_result inform_hooks result_of
  Reported-send_results stamp i ev resource [] s t results h =
      subst₂ (λ results t. Reported [] s results t) (ok-injective h.result) h.state
        (record {
          results_sent = sym (append-nil s.results_sent);
          verdicts = refl;
          evidences_sent = refl;
          pe = refl;
        })
  Reported-send_results stamp i ev resource (evaluation ∷ rest) s t results h =
      let r = result_of env ev resource (stamp i) evaluation in
      let sent =
        Gives-bind (send_result env r)
          (λ done. send_results env stamp (suc i) ev resource rest >>= λ others. pure (r ∷ others))
          s results t h in
      let loop =
        Gives-bind (send_results env stamp (suc i) ev resource rest) (λ others. pure (r ∷ others))
          (send_result env r s).1 results t sent.then in
      let others =
        Reported-send_results stamp (suc i) ev resource rest (send_result env r s).1 _ loop.a
          (record { result = loop.first; state = refl }) in
      subst₂ (λ results t. Reported (evaluation ∷ rest) s results t) (ok-injective loop.then.result)
        loop.then.state
        (record {
          results_sent = others.results_sent ∙ append_assoc s.results_sent (r ∷ []) loop.a;
          verdicts = ap (λ l. evaluation_verdict evaluation ∷ l) others.verdicts;
          evidences_sent = others.evidences_sent;
          pe = others.pe;
        })

  -- The part of handleEvidence that comes after the evidence has been stored.
  Reported-connected :
      (stamp : ℕ → String × ℕ) (ev : Evidence A) (resource : R)
      (evaluations : List (EvalResult Conf)) (s t : Service A Q Conf C H)
      (results : List (AssessmentResult Conf))
      → Gives
          (attempt (orchestrator_stream env.init_orchestrator_stream) >>= λ connected.
            or_fail "could not get stream to orchestrator" connected >>= λ channel.
            send_results env stamp 0 ev resource evaluations)
          s
          results
          t
      → Reported evaluations s results t
  Reported-connected stamp ev resource evaluations s t results h =
      let connect = orchestrator_stream env.init_orchestrator_stream in
      let asked = Gives-bind (attempt connect) _ s results t h in
      let found =
        Gives-bind (or_fail "could not get stream to orchestrator" asked.a) _ _ results t
          asked.then in
      let same =
        (or_fail-ok "could not get stream to orchestrator" asked.a (attempt connect s).1 _ found.a
          (record { result = found.first; state = refl })).1 in
      let reported = Reported-send_results stamp 0 ev resource evaluations _ t results found.then in
      let moved = sym same in
      record {
        results_sent =
            reported.results_sent
            ∙ ap (λ u. u.results_sent ++ results) (moved ∙ state-attempt connect s);
        verdicts = reported.verdicts;
        evidences_sent =
            reported.evidences_sent ∙ ap (λ u. u.evidences_sent) (moved ∙ state-attempt connect s);
        pe = reported.pe ∙ ap (λ u. u.pe) (moved ∙ state-attempt connect s);
      }

module _ {A M R Tx Q Input Conf Impl C : Type 0}
    (env : Environment A M R Tx Q Input Conf Impl C) where
  unmarshal-ok :
      (any : A) (m : M) → unmarshal env any ≡ ok m → env.resources.unmarshal_new any ≡ ok m
  unfolding unmarshal
  unmarshal-ok any m h = ground arith

  validate-ok : (m v : M) → validate env.rules (some m) ≡ ok v → (env.rules m ≡ none) × (v ≡ m)
  unfolding validate
  validate-ok m v h = (ground arith, ground arith)

  ontology_resource-ok :
      (m : M) (r : R) → ontology_resource env m ≡ ok r → env.resources.as_resource m ≡ some r
  unfolding ontology_resource
  ontology_resource-ok m r h = ground arith

module _ {A M R Tx Q Input Conf Impl C H : Type 0}
    (env : Environment A M R Tx Q Input Conf Impl C) where
  -- The message in an evidence, validated, with the resource that it is.
  record Embedded (ev : Evidence A) (resource : R) (s t : Service A Q Conf C H) : Type 0 where
    message : M
    unmarshalled : env.resources.unmarshal_new ev.resource ≡ ok message
    valid : env.rules message ≡ none
    embedded : env.resources.as_resource message ≡ some resource
    state : s ≡ t

  resource_of-Embedded :
      (ev : Evidence A) (s t : Service A Q Conf C H) (resource : R)
      → Gives (resource_of env ev) s resource t
      → Embedded ev resource s t
  unfolding resource_of
  resource_of-Embedded ev s t resource h =
      let unmarshalled = Gives-bind (lift (unmarshal env ev.resource)) _ s resource t h in
      let validated =
        Gives-bind (lift (validate env.rules (some unmarshalled.a))) _ s resource t
          unmarshalled.then in
      let (valid, same) = validate-ok env unmarshalled.a validated.a validated.first in
      record {
        message = unmarshalled.a;
        unmarshalled = unmarshal-ok env ev.resource unmarshalled.a unmarshalled.first;
        valid = valid;
        embedded =
            ap env.resources.as_resource (sym same)
            ∙ ontology_resource-ok env validated.a resource validated.then.result;
        state = validated.then.state;
      }

  Handled-steps :
      (ev : Evidence A) (resource : R) (evaluations : List (EvalResult Conf))
      (results : List (AssessmentResult Conf)) (s read evaluated sent t : Service A Q Conf C H)
      → Embedded ev resource s read
      → (evaluate env ev resource s.pe).0 ≡ ok evaluations
      → evaluated ≡ record s { pe = (evaluate env ev resource s.pe).1 }
      → Stored ev evaluated.is_evidence_store_disabled evaluated sent
      → Reported evaluations sent results t
      → Handled env ev s results t
  Handled-steps ev resource evaluations results s read evaluated sent t found h k stored reported =
      record {
        message = found.message;
        unmarshalled = found.unmarshalled;
        valid = found.valid;
        embedded = found.embedded;
        resource = resource;
        evaluations = evaluations;
        evaluated = ap₂ (λ a b. (a, b)) h (sym (reported.pe ∙ stored.pe ∙ ap (λ v. v.pe) k));
        verdicts = reported.verdicts;
        results_sent =
            reported.results_sent
            ∙ ap (λ l. l ++ results) (stored.results_sent ∙ ap (λ v. v.results_sent) k);
        evidences_sent =
            reported.evidences_sent
            ∙ stored.evidences_sent
            ∙ ap
                (λ v.
                  if v.is_evidence_store_disabled
                  then v.evidences_sent
                  else v.evidences_sent ++ ev ∷ [])
                k;
      }

  -- An evidence that is assessed without an error: the resource that it embeds, whose message is
  -- valid, is evaluated from the service's caches, and one result for each evaluation goes to the
  -- orchestrator's channel, behind what was given to it before, with the evaluation's metric and
  -- verdict. The evidence goes to the evidence store's channel unless that is disabled.
  pub handle_evidence-Handled :
      (stamp : ℕ → String × ℕ) (ev : Evidence A) (s t : Service A Q Conf C H)
      (results : List (AssessmentResult Conf))
      → Gives (handle_evidence env stamp ev) s results t
      → Handled env ev s results t
  unfolding handle_evidence
  handle_evidence-Handled stamp ev s t results h =
      let read = Gives-bind (resource_of env ev) _ s results t h in
      let found =
        resource_of-Embedded ev s _ read.a (record { result = read.first; state = refl }) in
      let unchanged = found.state in
      let asked = Gives-bind (attempt (on_pe (evaluate env ev read.a))) _ _ results t read.then in
      let judged =
        Gives-bind (or_fail "could not evaluate evidence" asked.a) _ _ results t asked.then in
      let stored =
        Gives-bind (send_evidence env.init_evidence_store_stream ev) _ _ results t judged.then in
      let first = sym unchanged in
      let answered =
        or_fail-ok "could not evaluate evidence" asked.a _ _ judged.a
          (record { result = judged.first; state = refl }) in
      let call = on_pe (evaluate env ev read.a) in
      Handled-steps ev read.a judged.a results s _ _ _ t found
        (ap (λ v. (evaluate env ev read.a v.pe).0) unchanged
          ∙ result-attempt call _ asked.a asked.first
          ∙ answered.0)
        (sym answered.1 ∙ state-attempt call _ ∙ ap (λ v. (call v).1) first)
        (Stored-send_evidence env.init_evidence_store_stream ev _ _ stored.a
          (record { result = stored.first; state = refl }))
        (Reported-connected env stamp ev read.a judged.a _ t results stored.then)
