-- ===== src/Assessment/Handle/Adds.antt =====
-- What the parts of handleEvidence in service/assessment/assessment.go give to the orchestrator's
-- channel.
use mathlib.Core.Path.{subst}
use mathlib.Core.List.{append_assoc, append-nil}
use clouditor.Prelude.{
  ℕ, suc, String, ◌≡◌, refl, sym, ap, ◌∙◌, Bool, true, false, some, List, [], ◌∷◌, ◌++◌, All,
  if◌then◌else◌,
}
use clouditor.Status.{Result, ok, err, panic}
use clouditor.Exec.{Exec, pure, lift, attempt, attempted, continue, modify, ◌>>=◌}
use clouditor.Validate.{validate}
use clouditor.Channels.{InitFunc}
use clouditor.Policies.Query.{EvalResult}
use clouditor.Assessment.Assess.{
  Evidence, AssessmentResult, Service, fail_with, or_fail, orchestrator_stream,
  evidence_store_stream, on_pe, store_evidence, send_evidence, inform_hooks,
}
use clouditor.Assessment.Handle.{
  Environment, unmarshal, ontology_resource, resource_of, result_of, send_result, send_results,
  evaluate, handle_evidence,
}

All-append : {A : Type 0} (P : A → Type 0) (xs ys : List A) → All P xs → All P ys → All P (xs ++ ys)
All-append P [] ys h k = k
All-append P (x ∷ xs) ys h k = (h.0, All-append P xs ys h.1 k)

-- A list with more elements behind it, which all have a property.
pub record Extends {A : Type 0} (P : A → Type 0) (before after : List A) : Type 0 where
  pub more : List A
  pub appended : after ≡ before ++ more
  pub each : All P more

module _ {A : Type 0} {P : A → Type 0} where
  pub Extends-refl : (xs : List A) → Extends P xs xs
  Extends-refl xs = record { more = []; appended = sym (append-nil xs); each = tt }

  pub Extends-trans : {xs ys zs : List A} → Extends P xs ys → Extends P ys zs → Extends P xs zs
  Extends-trans {xs} f g = record {
    more = f.more ++ g.more;
    appended = g.appended ∙ ap (λ l. l ++ g.more) f.appended ∙ append_assoc xs f.more g.more;
    each = All-append P f.more g.more f.each g.each;
  }

-- A call that gives the orchestrator's channel no result but such with the property.
pub record Adds {A Q Conf C H B : Type 0} (P : AssessmentResult Conf → Type 0)
    (call : Exec (Service A Q Conf C H) B) : Type 0 where
  pub adds : (s : Service A Q Conf C H) → Extends P s.results_sent (call s).1.results_sent

module _ {A Q Conf C H B : Type 0} {P : AssessmentResult Conf → Type 0} where
  Adds-attempt : (call : Exec (Service A Q Conf C H) B) → Adds P call → Adds P (attempt call)
  Adds-attempt call h = record { adds = λ s. left (call s).0 s (call s).1 (h.adds s) }
    where
      left :
          (r : Result B) (s t : Service A Q Conf C H)
          → Extends P s.results_sent t.results_sent
          → Extends P s.results_sent (attempted r t).1.results_sent
      left (ok b) s t g = g
      left (err e) s t g = g
      left panic s t g = g

  Adds-or_fail :
      (text : String) (r : Result B) → Adds {A = A} {Q = Q} {C = C} {H = H} P (or_fail text r)
  unfolding or_fail fail_with inform_hooks
  Adds-or_fail text (ok b) = record { adds = λ s. Extends-refl s.results_sent }
  Adds-or_fail text (err e) = record { adds = λ s. Extends-refl s.results_sent }
  Adds-or_fail text panic = record { adds = λ s. Extends-refl s.results_sent }

  -- A call that leaves the results alone.
  Adds-quiet :
      (call : Exec (Service A Q Conf C H) B)
      → ((s : Service A Q Conf C H) → s.results_sent ≡ (call s).1.results_sent)
      → Adds P call
  Adds-quiet call h = record {
    adds = λ s. subst (λ l. Extends P s.results_sent l) (h s) (Extends-refl s.results_sent);
  }

  pub Adds-lift : (r : Result B) → Adds {A = A} {Q = Q} {C = C} {H = H} P (lift r)
  Adds-lift r = record { adds = λ s. Extends-refl s.results_sent }

  pub Adds-bind :
      {D : Type 0} (call : Exec (Service A Q Conf C H) B) (next : B → Exec (Service A Q Conf C H) D)
      → Adds P call
      → ((b : B) → Adds P (next b))
      → Adds P (call >>= next)
  Adds-bind {D} call next h k = record { adds = λ s. left (call s).0 s (call s).1 (h.adds s) }
    where
      left :
          (r : Result B) (s t : Service A Q Conf C H)
          → Extends P s.results_sent t.results_sent
          → Extends P s.results_sent (continue r next t).1.results_sent
      left (ok b) s t g = Extends-trans g ((k b).adds t)
      left (err e) s t g = g
      left panic s t g = g

module _ {A M R Tx Q Input Conf Impl C H : Type 0} (env : Environment A M R Tx Q Input Conf Impl C)
    {P : AssessmentResult Conf → Type 0} where
  Adds-send_result :
      (result : AssessmentResult Conf)
      → P result
      → Adds {A = A} {Q = Q} {C = C} {H = H} P (send_result env result)
  unfolding send_result inform_hooks
  Adds-send_result result h = record {
    adds = λ s. record { more = result ∷ []; appended = refl; each = (h, tt) };
  }

  Adds-send_results :
      (stamp : ℕ → String × ℕ) (i : ℕ) (ev : Evidence A) (resource : R)
      (evaluations : List (EvalResult Conf))
      → ((x : String × ℕ) (evaluation : EvalResult Conf)
          → P (result_of env ev resource x evaluation))
      → Adds {Q = Q} {H = H} P (send_results env stamp i ev resource evaluations)
  unfolding send_results
  Adds-send_results stamp i ev resource [] h = Adds-lift _
  Adds-send_results stamp i ev resource (evaluation ∷ rest) h =
      Adds-bind _ _ (Adds-send_result _ (h (stamp i) evaluation)) λ sent.
        Adds-bind _ _ (Adds-send_results stamp (suc i) ev resource rest h)
          λ others. Adds-lift (ok (result_of env ev resource (stamp i) evaluation ∷ others))

  Adds-resource_of : (ev : Evidence A) → Adds {Q = Q} {H = H} P (resource_of env ev)
  unfolding resource_of
  Adds-resource_of ev =
      Adds-bind (lift (unmarshal env ev.resource)) _ (Adds-lift (unmarshal env ev.resource)) λ m.
        Adds-bind (lift (validate env.rules (some m))) _ (Adds-lift (validate env.rules (some m)))
          λ valid. Adds-lift (ontology_resource env valid)

  Adds-on_pe :
      (ev : Evidence A) (resource : R)
      → Adds {A = A} {Q = Q} {C = C} {H = H} P (on_pe (evaluate env ev resource))
  Adds-on_pe ev resource = record { adds = λ s. Extends-refl s.results_sent }

  Adds-store_evidence :
      (init : InitFunc C) (ev : Evidence A)
      → Adds {Q = Q} {Conf = Conf} {H = H} P (store_evidence init ev)
  unfolding store_evidence
  Adds-store_evidence init ev =
      Adds-bind (attempt (evidence_store_stream init)) _
        (Adds-attempt (evidence_store_stream init)
          (Adds-quiet (evidence_store_stream init) (λ s. refl)))
        λ outcome.
          Adds-bind (or_fail "could not get stream to evidence store" outcome) _
            (Adds-or_fail _ outcome)
            λ channel.
              Adds-quiet (modify (λ s. record s { evidences_sent = s.evidences_sent ++ ev ∷ [] }))
                (λ s. refl)

  Adds-send_evidence :
      (init : InitFunc C) (ev : Evidence A)
      → Adds {Q = Q} {Conf = Conf} {H = H} P (send_evidence init ev)
  unfolding send_evidence
  Adds-send_evidence init ev = record { adds = λ s. sent s s.is_evidence_store_disabled }
    where
      sent :
          (s : Service A Q Conf C H) (disabled : Bool)
          → Extends P s.results_sent
              (if disabled then pure tt s else store_evidence init ev s).1.results_sent
      sent s true = Extends-refl s.results_sent
      sent s false = (Adds-store_evidence init ev).adds s

  pub Adds-handle_evidence :
      (stamp : ℕ → String × ℕ) (ev : Evidence A)
      → ((resource : R) (x : String × ℕ) (evaluation : EvalResult Conf)
          → P (result_of env ev resource x evaluation))
      → Adds {Q = Q} {H = H} P (handle_evidence env stamp ev)
  unfolding handle_evidence
  Adds-handle_evidence stamp ev h =
      Adds-bind (resource_of env ev) _ (Adds-resource_of ev) λ resource.
        Adds-bind (attempt (on_pe (evaluate env ev resource))) _
          (Adds-attempt _ (Adds-on_pe ev resource))
          λ outcome.
            Adds-bind (or_fail "could not evaluate evidence" outcome) _ (Adds-or_fail _ outcome)
              λ evaluations.
                Adds-bind (send_evidence env.init_evidence_store_stream ev) _
                  (Adds-send_evidence env.init_evidence_store_stream ev)
                  λ sent.
                    Adds-bind (attempt (orchestrator_stream env.init_orchestrator_stream)) _
                      (Adds-attempt _
                        (Adds-quiet (orchestrator_stream env.init_orchestrator_stream) (λ s. refl)))
                      λ connected.
                        Adds-bind (or_fail "could not get stream to orchestrator" connected) _
                          (Adds-or_fail _ connected)
                          λ channel. Adds-send_results stamp 0 ev resource evaluations (h resource)
