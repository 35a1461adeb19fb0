-- ===== src/Discovery/Sent/Send.antt =====
-- Sending over the assessment's stream, by StartDiscovery of service/discovery/discovery.go.
use mathlib.Core.Path.{subst}
use mathlib.Core.List.{append_assoc}
use clouditor.Prelude.{
  String, ◌≡◌, refl, sym, ap, ◌∙◌, Bool, true, false, Option, none, some, List, [], ◌∷◌, ◌++◌,
  if◌then◌else◌,
}
use clouditor.Prelude.Maps.{lookup}
use clouditor.Status.{Result, ok, err, panic}
use clouditor.Exec.{Exec, attempted, continue, ◌>>◌}
use clouditor.Channels.{
  StreamChannel, Streams, get_stream, found_or_added, of_entry, restart_stream, restarted,
  add_stream, added, wrap,
}
use clouditor.Discovery.{
  Service, Evidence, init_assessment_stream, assessment_stream, send_evidence, send, skip,
}

module _ {S : Type 0} (stream : S) where
  found_or_added-ok :
      (c : Option (StreamChannel S)) (target component : String) (channels : Streams S)
      → (d : StreamChannel S) × ((found_or_added c target component
            (some (init_assessment_stream (ok stream)))
            channels).0
          ≡ ok d)
  unfolding found_or_added of_entry restart_stream restarted add_stream added init_assessment_stream
  found_or_added-ok none target component channels = (_, refl)
  found_or_added-ok (some c) target component channels = by_dead c.dead
    where
      by_dead :
          (dead : Bool)
          → (d : StreamChannel S) × ((if dead
                then wrap "could not restart stream"
                    (restart_stream target c (some (init_assessment_stream (ok stream))) channels)
                else (ok c, channels)).0
              ≡ ok d)
      by_dead true = (_, refl)
      by_dead false = (c, refl)

pub record Sent {D S A J R : Type 0} (evidences : List (Evidence A)) (s : Service D S A J R)
    (out : Result (Unit {0}) × Service D S A J R) : Type 0 where
  pub done : out.0 ≡ ok tt
  pub sent : out.1.evidences_sent ≡ s.evidences_sent ++ evidences
  pub cs_id : out.1.cs_id ≡ s.cs_id

module _ {D S A J R : Type 0} (stream : S) where
  opened :
      (ev : Evidence A) (r : Result (StreamChannel S)) (c : StreamChannel S)
      (s t : Service D S A J R)
      → r ≡ ok c
      → t.evidences_sent ≡ s.evidences_sent
      → t.cs_id ≡ s.cs_id
      → Sent (ev ∷ []) s (
          continue
            (attempted r t).0
            (λ outcome. skip outcome (λ channel. send ev))
            (attempted r t).1)
  unfolding send
  opened ev (ok d) c s t e sent id = record {
    done = refl;
    sent = ap (λ evs. evs ++ ev ∷ []) sent;
    cs_id = id;
  }
  opened ev (err f) c s t e sent id = absurd (cc)
  opened ev panic c s t e sent id = absurd (cc)

  pub send_evidence-Sent :
      (ev : Evidence A) (s : Service D S A J R) → Sent (ev ∷ []) s (send_evidence (ok stream) ev s)
  unfolding send_evidence assessment_stream get_stream
  send_evidence-Sent ev s =
      let (c, e) =
        found_or_added-ok stream (lookup s.assessment_target s.assessment_streams)
          s.assessment_target "Assessment" s.assessment_streams in
      opened ev _ c s _ e refl refl

module _ {D S A J R : Type 0} where
  pub Sent-from :
      (evidences : List (Evidence A)) (s t : Service D S A J R)
      {out : Result (Unit {0}) × Service D S A J R}
      → t.evidences_sent ≡ s.evidences_sent
      → t.cs_id ≡ s.cs_id
      → Sent evidences t out
      → Sent evidences s out
  Sent-from evidences s t sent id out = record {
    done = out.done;
    sent = out.sent ∙ ap (λ evs. evs ++ evidences) sent;
    cs_id = out.cs_id ∙ id;
  }

  pub Sent-next :
      (more rest : List (Evidence A)) (s : Service D S A J R)
      (call next : Exec (Service D S A J R) (Unit {0}))
      → Sent more s (call s)
      → Sent rest (call s).1 (next (call s).1)
      → Sent (more ++ rest) s ((call >> next) s)
  Sent-next more rest s call next one others =
      subst (λ r. Sent (more ++ rest) s (continue r (λ u. next) (call s).1)) (sym one.done)
        (record {
          done = others.done;
          sent =
              others.sent
              ∙ ap (λ evs. evs ++ rest) one.sent
              ∙ append_assoc s.evidences_sent more rest;
          cs_id = others.cs_id ∙ one.cs_id;
        })
