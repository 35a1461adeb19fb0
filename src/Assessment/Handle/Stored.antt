-- ===== src/Assessment/Handle/Stored.antt =====
-- Sending an evidence to the evidence store, in service/assessment/assessment.go.
use clouditor.Prelude.{
  String, ◌≡◌, refl, sym, ap, ◌∙◌, Bool, true, false, [], ◌∷◌, ◌++◌, if◌then◌else◌,
}
use clouditor.Status.{Result, ok, err, panic}
use clouditor.Exec.{Exec, pure, attempt, ◌>>=◌}
use clouditor.Exec.Inversion.{Gives, Gives-bind, result-attempt, state-attempt}
use clouditor.Channels.{InitFunc}
use clouditor.Assessment.Assess.{
  Evidence, Service, fail_with, or_fail, evidence_store_stream, store_evidence, send_evidence,
}

module _ {A Q Conf C H B : Type 0} where
  pub or_fail-ok :
      (text : String) (r : Result B) (s t : Service A Q Conf C H) (b : B)
      → Gives (or_fail text r) s b t
      → (r ≡ ok b) × (s ≡ t)
  unfolding or_fail fail_with
  or_fail-ok text (ok a) s t b h = (h.result, h.state)
  or_fail-ok text (err e) s t b h = absurd (cc h.result)
  or_fail-ok text panic s t b h = absurd (cc h.result)

  -- A call whose error is told to the hooks, and its result.
  pub Gives-or_fail :
      (text : String) (call : Exec (Service A Q Conf C H) B) (s t : Service A Q Conf C H) (b : B)
      → Gives (attempt call >>= or_fail text) s b t
      → Gives call s b t
  Gives-or_fail text call s t b h =
      let parts = Gives-bind (attempt call) (or_fail text) s b t h in
      let rest = or_fail-ok text parts.a (attempt call s).1 t b parts.then in
      record {
        result = result-attempt call s parts.a parts.first ∙ rest.0;
        state = sym (state-attempt call s) ∙ rest.1;
      }

-- The evidence was given to the evidence store's channel, unless that is disabled.
pub record Stored {A Q Conf C H : Type 0} (ev : Evidence A) (disabled : Bool)
    (s t : Service A Q Conf C H) : Type 0 where
  pub evidences_sent :
      t.evidences_sent ≡ (if disabled then s.evidences_sent else s.evidences_sent ++ ev ∷ [])
  pub results_sent : t.results_sent ≡ s.results_sent
  pub pe : t.pe ≡ s.pe

module _ {A Q Conf C H : Type 0} where
  Stored-store_evidence :
      (init : InitFunc C) (ev : Evidence A) (s t : Service A Q Conf C H) (u : Unit {0})
      → Gives (store_evidence init ev) s u t
      → Stored ev false s t
  unfolding store_evidence
  Stored-store_evidence init ev s t u h =
      let connect = evidence_store_stream init in
      let asked = Gives-bind (attempt connect) _ s u t h in
      let found =
        Gives-bind (or_fail "could not get stream to evidence store" asked.a) _ _ u t asked.then in
      let same =
        (or_fail-ok "could not get stream to evidence store" asked.a (attempt connect s).1 _ found.a
          (record { result = found.first; state = refl })).1 in
      let moved = sym same ∙ state-attempt connect s in
      record {
        evidences_sent =
            sym (ap (λ v. v.evidences_sent) found.then.state)
            ∙ ap (λ v. v.evidences_sent ++ ev ∷ []) moved;
        results_sent =
            sym (ap (λ v. v.results_sent) found.then.state) ∙ ap (λ v. v.results_sent) moved;
        pe = sym (ap (λ v. v.pe) found.then.state) ∙ ap (λ v. v.pe) moved;
      }

  Stored-if_enabled :
      (init : InitFunc C) (ev : Evidence A) (disabled : Bool) (s t : Service A Q Conf C H)
      (u : Unit {0})
      → Gives (λ v. if disabled then pure tt v else store_evidence init ev v) s u t
      → Stored ev disabled s t
  Stored-if_enabled init ev true s t u h = record {
    evidences_sent = ap (λ v. v.evidences_sent) (sym h.state);
    results_sent = ap (λ v. v.results_sent) (sym h.state);
    pe = ap (λ v. v.pe) (sym h.state);
  }
  Stored-if_enabled init ev false s t u h =
      Stored-store_evidence init ev s t u (record { result = h.result; state = h.state })

  pub Stored-send_evidence :
      (init : InitFunc C) (ev : Evidence A) (s t : Service A Q Conf C H) (u : Unit {0})
      → Gives (send_evidence init ev) s u t
      → Stored ev s.is_evidence_store_disabled s t
  unfolding send_evidence
  Stored-send_evidence init ev s t u h =
      Stored-if_enabled init ev s.is_evidence_store_disabled s t u
        (record { result = h.result; state = h.state })
