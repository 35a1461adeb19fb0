-- ===== src/Discovery/Sent.antt =====
-- What a run of StartDiscovery of service/discovery/discovery.go gives to the assessment.
mod Send
pub use Send.{Sent}
use mathlib.Core.Path.{subst}
use mathlib.Core.List.{append-nil}
use clouditor.Prelude.{ℕ, suc, String, ◌≡◌, ◌≢◌, refl, sym, List, [], ◌∷◌, ◌++◌, if◌then◌else◌}
use clouditor.Status.{Result, ok, err, panic}
use clouditor.Exec.{attempt, attempted, continue, ◌>>=◌, ◌>>◌}
use clouditor.Query.{equals, atom}
use clouditor.Storage.{Table, Conds}
use clouditor.Discovery.Resources.{
  Messages, Resource, converted, to_discovery_resource, resource_with,
}
use clouditor.Discovery.{
  Service, Evidence, send_evidence, skip, evidence_of, store_and_send, discover_resource,
  discover_resources, start_discovery, emit, on_db,
}
use clouditor.Discovery.Sent.Send.{send_evidence-Sent, Sent-from, Sent-next}

-- The evidence of a resource, if it can be packed.
abbrev evidence_for :
    {A M R : Type 0} → Messages A M R → R → String → String × ℕ → Result A → List (Evidence A)
evidence_for messages resource cs_id stamp (ok a) = evidence_of messages resource cs_id stamp a ∷ []
evidence_for messages resource cs_id stamp _ = []

-- The evidences of the resources that can be packed, in their order.
unfoldable pub evidences_of :
    {A M R : Type 0} → Messages A M R → String → (ℕ → String × ℕ) → ℕ → List R → List (Evidence A)
evidences_of messages cs_id stamp i [] = []
evidences_of messages cs_id stamp i (resource ∷ rest) =
    evidence_for messages resource cs_id (stamp i) (messages.pack resource)
    ++ evidences_of messages cs_id stamp (suc i) rest

module _ {D S A J R : Type 0} (stream : S) where
  module _ {M : Type 0} (messages : Messages A M R) (table : Table D (Resource A))
      (safe : (r : Resource A) (conds : Conds) (db : D) → (table.save r conds db).0 ≢ panic) where
    stored :
        (stamp : String × ℕ) (resource : R) (cs_id : String) (a : A) (saved : Result (Unit {0}))
        (s t : Service D S A J R)
        → saved ≢ panic
        → t.evidences_sent ≡ s.evidences_sent
        → t.cs_id ≡ s.cs_id
        → Sent (evidence_of messages resource cs_id stamp a ∷ []) s (
            continue
              (attempted saved t).0
              (λ saved.
                skip
                  (ok a)
                  (λ a. send_evidence (ok stream) (evidence_of messages resource cs_id stamp a)))
              (attempted saved t).1)
    stored stamp resource cs_id a (ok u) s t h sent id =
        Sent-from _ s t sent id (send_evidence-Sent stream _ t)
    stored stamp resource cs_id a (err f) s t h sent id =
        Sent-from _ s t sent id (send_evidence-Sent stream _ t)
    stored stamp resource cs_id a panic s t h sent id = absurd (h refl)

    packed :
        (stamp : String × ℕ) (resource : R) (s : Service D S A J R) (p : Result A)
        → p ≢ panic
        → Sent (evidence_for messages resource s.cs_id stamp p) s (
            skip
              (converted messages resource s.cs_id p)
              (λ r. attempt (on_db (table.save r (atom (equals "id" r.id) ∷ []))) >>= λ saved.
                skip p
                  (λ a. send_evidence (ok stream) (evidence_of messages resource s.cs_id stamp a)))
              s)
    unfolding converted
    packed stamp resource s (ok a) h =
        let r = resource_with messages resource s.cs_id a in
        stored stamp resource s.cs_id a (table.save r (atom (equals "id" r.id) ∷ []) s.db).0 s
          (on_db (table.save r (atom (equals "id" r.id) ∷ [])) s).1
          (safe r (atom (equals "id" r.id) ∷ []) s.db) refl refl
    packed stamp resource s (err f) h = record {
      done = refl;
      sent = sym (append-nil s.evidences_sent);
      cs_id = refl;
    }
    packed stamp resource s panic h = absurd (h refl)

    discover_resource-Sent :
        (packs : (r : R) → messages.pack r ≢ panic) (stamp : String × ℕ) (resource : R)
        (s : Service D S A J R)
        → Sent
            (evidence_for messages resource s.cs_id stamp (messages.pack resource))
            s
            (discover_resource messages table (ok stream) stamp resource s)
    unfolding discover_resource store_and_send to_discovery_resource
    discover_resource-Sent packs stamp resource s =
        packed stamp resource s (messages.pack resource) (packs resource)

    discover_resources-Sent :
        (packs : (r : R) → messages.pack r ≢ panic) (stamp : ℕ → String × ℕ) (i : ℕ) (list : List R)
        (s : Service D S A J R)
        → Sent
            (evidences_of messages s.cs_id stamp i list)
            s
            (discover_resources messages table (ok stream) stamp i list s)
    unfolding discover_resources evidences_of
    discover_resources-Sent packs stamp i [] s = record {
      done = refl;
      sent = sym (append-nil s.evidences_sent);
      cs_id = refl;
    }
    discover_resources-Sent packs stamp i (resource ∷ rest) s =
        let one = discover_resource-Sent packs (stamp i) resource s in
        Sent-next (evidence_for messages resource s.cs_id (stamp i) (messages.pack resource))
          (evidences_of messages s.cs_id stamp (suc i) rest) s
          (discover_resource messages table (ok stream) (stamp i) resource)
          (discover_resources messages table (ok stream) stamp (suc i) rest) one
          (subst
            (λ id.
              Sent (evidences_of messages id stamp (suc i) rest)
                (discover_resource messages table (ok stream) (stamp i) resource s).1
                (discover_resources messages table (ok stream) stamp (suc i) rest
                  (discover_resource messages table (ok stream) (stamp i) resource s).1))
            one.cs_id
            (discover_resources-Sent packs stamp (suc i) rest
              (discover_resource messages table (ok stream) (stamp i) resource s).1))

    -- A run of a discoverer that lists its resources gives the assessment one evidence for each of them
    -- that can be packed, in their order, whatever errors the database returns, if the assessment's
    -- stream can be opened and neither the database nor the packing panics.
    pub start_discovery-Sent :
        (packs : (r : R) → messages.pack r ≢ panic) (stamp : ℕ → String × ℕ) (name : String)
        (list : List R) (s : Service D S A J R)
        → Sent (evidences_of messages s.cs_id stamp 0 list) s (
            start_discovery messages table
              (ok stream)
              stamp
              (record { name = name; list = ok list })
              s)
    unfolding start_discovery emit
    start_discovery-Sent packs stamp name list s =
        let out = discover_resources-Sent packs stamp 0 list _ in
        record { done = out.done; sent = out.sent; cs_id = out.cs_id }
