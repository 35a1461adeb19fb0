-- ===== src/Discovery.antt =====
-- The discovery of resources: StartDiscovery of service/discovery/discovery.go and the state of its
-- service. A discoverer is the interface of api/discovery/discovery.go. A stream is of a type S, an
-- Any of a type A, the scheduler's state of a type J. What a goroutine writes to the channel of
-- events, and what is given to the channel of the assessment, is written down at once.
pub mod Resources
pub mod Start
pub mod Handlers
mod Tests
pub mod Sent
use clouditor.Prelude.{ℕ, suc, String, Option, none, some, List, [], ◌∷◌, ◌++◌, length}
use clouditor.Status.{Error, Result, ok, err, panic, wrapped}
use clouditor.Exec.{Exec, pure, lift, gets, modify, attempt, ◌>>=◌, ◌>>◌}
use clouditor.Query.{equals, atom}
use clouditor.Storage.{Table}
use clouditor.Channels.{StreamChannel, Streams, get_stream}
use clouditor.Discovery.Resources.{Messages, Resource, to_discovery_resource}

-- What a discoverer says: its name, and the resources that List finds in the run at hand.
pub record Discoverer (R : Type 0) : Type 0 where
  pub name : String
  pub list : Result (List R)

pub data EventType : Type 0 where
  discoverer_start discoverer_finished : EventType

-- An event, without its time.
pub record DiscoveryEvent : Type 0 where
  pub type : EventType
  pub discoverer_name : String
  pub discovered_items : ℕ

pub record Evidence (A : Type 0) : Type 0 where
  pub id : String
  pub timestamp : ℕ
  pub cloud_service_id : String
  pub tool_id : String
  pub raw : Option String
  pub resource : A

pub record Service (D S A J R : Type 0) : Type 0 where
  pub db : D
  pub assessment_streams : Streams S
  pub assessment_target : String
  pub jobs : J
  pub providers : List String
  pub discoverers : List (Discoverer R)
  -- in seconds
  pub discovery_interval : ℕ
  pub events : List DiscoveryEvent
  pub cs_id : String
  -- the evidences given to the assessment's channel, the last one last
  pub evidences_sent : List (Evidence A)

-- discovery.EvidenceCollectorToolId
abbrev pub evidence_collector_tool_id : String
evidence_collector_tool_id = "Clouditor Evidences Collection"

-- The stream is opened by the client's call, whatever the target is.
unfoldable pub init_assessment_stream : {S : Type 0} → Result S → String → Result S
init_assessment_stream (ok stream) target = ok stream
init_assessment_stream (err e) target =
    err (wrapped "could not set up stream for assessing evidences" e)
init_assessment_stream panic target = panic

unfoldable pub evidence_of :
    {A M R : Type 0} → Messages A M R → R → String → String × ℕ → A → Evidence A
evidence_of messages resource cs_id stamp a = record {
  id = stamp.0;
  timestamp = stamp.1;
  cloud_service_id = cs_id;
  tool_id = evidence_collector_tool_id;
  raw = some (messages.raw resource);
  resource = a;
}

module _ {D S A J R : Type 0} where
  unfoldable pub emit : EventType → String → ℕ → Exec (Service D S A J R) (Unit {0})
  emit type name items = modify (λ s. record s {
    events =
        s.events ++ record { type = type; discoverer_name = name; discovered_items = items } ∷ [];
  })

  abbrev pub on_db : Exec D (Unit {0}) → Exec (Service D S A J R) (Unit {0})
  on_db call s = let (r, db) = call s.db in (r, record s { db = db })

  unfoldable pub assessment_stream : Result S → Exec (Service D S A J R) (StreamChannel S)
  unfolding init_assessment_stream get_stream
  assessment_stream client s =
      let (r, streams) =
        get_stream s.assessment_target "Assessment" (some (init_assessment_stream client))
          s.assessment_streams in
      (r, record s { assessment_streams = streams })

  -- An error is logged, and the loop goes on.
  abbrev pub skip :
      {B : Type 0}
      → Result B
      → (B → Exec (Service D S A J R) (Unit {0}))
      → Exec (Service D S A J R) (Unit {0})
  skip (ok b) next = next b
  skip (err e) next = pure tt
  skip panic next = lift panic

  unfoldable pub send : Evidence A → Exec (Service D S A J R) (Unit {0})
  send ev = modify (λ s. record s { evidences_sent = s.evidences_sent ++ ev ∷ [] })

  unfoldable pub send_evidence : Result S → Evidence A → Exec (Service D S A J R) (Unit {0})
  unfolding assessment_stream send
  send_evidence client ev =
      attempt (assessment_stream client) >>= λ outcome. skip outcome (λ channel. send ev)

  module _ {M : Type 0} (messages : Messages A M R) (table : Table D (Resource A))
      (client : Result S) where
    -- What is done with a resource that can be stored; an error of the database is logged.
    unfoldable pub store_and_send :
        String × ℕ → R → String → Resource A → Exec (Service D S A J R) (Unit {0})
    unfolding evidence_of send_evidence
    store_and_send stamp resource cs_id r =
        attempt (on_db (table.save r (atom (equals "id" r.id) ∷ []))) >>= λ saved.
        skip (messages.pack resource)
          (λ a. send_evidence client (evidence_of messages resource cs_id stamp a))

    -- One turn of the loop over the resources; `stamp` is the new ID and the time.
    unfoldable pub discover_resource : String × ℕ → R → Exec (Service D S A J R) (Unit {0})
    unfolding to_discovery_resource store_and_send
    discover_resource stamp resource = gets (λ s. s.cs_id) >>= λ cs_id.
        skip (to_discovery_resource messages resource cs_id) (store_and_send stamp resource cs_id)

    unfoldable pub discover_resources :
        (ℕ → String × ℕ) → ℕ → List R → Exec (Service D S A J R) (Unit {0})
    unfolding discover_resource
    discover_resources stamp i [] = pure tt
    discover_resources stamp i (resource ∷ rest) = do
      discover_resource (stamp i) resource
      discover_resources stamp (suc i) rest

    unfoldable pub start_discovery :
        (ℕ → String × ℕ) → Discoverer R → Exec (Service D S A J R) (Unit {0})
    unfolding emit discover_resources
    start_discovery stamp discoverer = do
      emit discoverer_start discoverer.name 0
      skip discoverer.list (λ list.
          emit discoverer_finished discoverer.name (length list) >> discover_resources stamp 0 list)
