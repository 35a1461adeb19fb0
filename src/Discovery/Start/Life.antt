-- ===== src/Discovery/Start/Life.antt =====
-- What can happen to the service of service/discovery/discovery.go once it has been started: further
-- calls of Start, of Shutdown, and the jobs' runs of StartDiscovery.
use clouditor.Prelude.{ℕ, suc, String, ◌≡◌, ◌≢◌, refl, length, Bool, Option, List, [], ◌∷◌}
use clouditor.Status.{Result, ok, err, panic}
use clouditor.Exec.{Exec, lift, attempt, ◌>>◌, modify}
use clouditor.Exec.Keeps.{Keeps, Keeps-bind, Keeps-attempt}
use clouditor.Auth.{AuthorizationStrategy}
use clouditor.Validate.{Rules}
use clouditor.Query.{equals, atom}
use clouditor.Storage.{Table}
use clouditor.Channels.{close_all}
use clouditor.Discovery.Resources.{Messages, Resource, to_discovery_resource}
use clouditor.Discovery.{
  Discoverer, Service, Evidence, store_and_send, discoverer_start, discoverer_finished, emit, on_db,
  skip, assessment_stream, send, evidence_of, send_evidence, discover_resource, discover_resources,
  start_discovery,
}
use clouditor.Discovery.Start.{Scheduler, Clouds, StartRequest, start, shutdown}
use clouditor.Discovery.Start.Unique.{Unique, Blocked}
use clouditor.Discovery.Start.Once.{Blocked-start, start-Blocked, start-refused}

module _ {D S A J R : Type 0} (has_tag : String → J → Bool) (first : Discoverer R) where
  abbrev P : Service D S A J R → Type 0
  P = Blocked has_tag first

  kept : (s t : Service D S A J R) → P s → t.discoverers ≡ s.discoverers → t.jobs ≡ s.jobs → P t
  kept s t b ds js = record { rest = b.rest; front = cc; tagged = cc }

  Blocked-skip :
      {B : Type 0} (r : Result B) (next : B → Exec (Service D S A J R) (Unit {0}))
      → ((b : B) → Keeps P (next b))
      → Keeps P (skip r next)
  Blocked-skip (ok b) next k = k b
  Blocked-skip (err e) next k = record { keeps = λ s h. h }
  Blocked-skip panic next k = record { keeps = λ s h. h }

  Blocked-send_evidence : (client : Result S) (ev : Evidence A) → Keeps P (send_evidence client ev)
  unfolding send_evidence assessment_stream send
  Blocked-send_evidence client ev =
      Keeps-bind P (attempt (assessment_stream client))
        (λ outcome. skip outcome (λ channel. send ev))
        (Keeps-attempt P (assessment_stream client)
          (record { keeps = λ s h. kept s _ h refl refl }))
        (λ outcome.
          Blocked-skip outcome (λ channel. send ev)
            (λ channel. record { keeps = λ s h. kept s _ h refl refl }))

  module _ {M : Type 0} (messages : Messages A M R) (table : Table D (Resource A))
      (client : Result S) where
    Blocked-store_and_send :
        (stamp : String × ℕ) (resource : R) (cs_id : String) (r : Resource A)
        → Keeps P (store_and_send messages table client stamp resource cs_id r)
    unfolding store_and_send
    Blocked-store_and_send stamp resource cs_id r =
        Keeps-bind P (attempt (on_db (table.save r (atom (equals "id" r.id) ∷ []))))
          (λ saved.
            skip (messages.pack resource)
              (λ a. send_evidence client (evidence_of messages resource cs_id stamp a)))
          (Keeps-attempt P (on_db (table.save r (atom (equals "id" r.id) ∷ [])))
            (record { keeps = λ s h. kept s _ h refl refl }))
          (λ saved.
            Blocked-skip (messages.pack resource)
              (λ a. send_evidence client (evidence_of messages resource cs_id stamp a))
              (λ a. Blocked-send_evidence client (evidence_of messages resource cs_id stamp a)))

    Blocked-discover_resource :
        (stamp : String × ℕ) (resource : R)
        → Keeps P (discover_resource messages table client stamp resource)
    unfolding discover_resource
    Blocked-discover_resource stamp resource = record {
      keeps = λ s h.
          (Blocked-skip (to_discovery_resource messages resource s.cs_id)
              (store_and_send messages table client stamp resource s.cs_id)
              (Blocked-store_and_send stamp resource s.cs_id)).keeps
            s h;
    }

    Blocked-discover_resources :
        (stamp : ℕ → String × ℕ) (i : ℕ) (list : List R)
        → Keeps P (discover_resources messages table client stamp i list)
    unfolding discover_resources
    Blocked-discover_resources stamp i [] = record { keeps = λ s h. h }
    Blocked-discover_resources stamp i (resource ∷ rest) =
        Keeps-bind P (discover_resource messages table client (stamp i) resource)
          (λ u. discover_resources messages table client stamp (suc i) rest)
          (Blocked-discover_resource (stamp i) resource)
          (λ u. Blocked-discover_resources stamp (suc i) rest)

    pub Blocked-start_discovery :
        (stamp : ℕ → String × ℕ) (d : Discoverer R)
        → Keeps P (start_discovery messages table client stamp d)
    unfolding start_discovery emit
    Blocked-start_discovery stamp d = record {
      keeps = λ s h.
          (Blocked-skip d.list
              (λ list.
                emit discoverer_finished d.name (length list)
                >> discover_resources messages table client stamp 0 list)
              (λ list. record {
                keeps =
                    λ s h. (Blocked-discover_resources stamp 0 list).keeps _ (kept s _ h refl refl);
              })).keeps
            (emit discoverer_start d.name 0 s).1 (kept s _ h refl refl);
    }

-- What may happen next: a call of Start or of Shutdown, whatever its outcome is, or a run of a job.
pub data Step {D S A J R : Type 0} (scheduler : Scheduler J R) (s : Service D S A J R)
    : Service D S A J R → Type 1 where
  starts :
      {Au K Aw Ctx : Type 0} (clouds : Clouds Au K Aw R) (authz : AuthorizationStrategy Ctx)
      (rules : Rules StartRequest) (ctx : Option Ctx) (request : Option StartRequest)
      → Step scheduler s (start scheduler clouds authz rules ctx request s).1
  shuts_down : Step scheduler s (shutdown scheduler s).1
  runs :
      {M : Type 0} (messages : Messages A M R) (table : Table D (Resource A)) (client : Result S)
      (stamp : ℕ → String × ℕ) (d : Discoverer R)
      → Step scheduler s (start_discovery messages table client stamp d s).1

pub data Steps {D S A J R : Type 0} (scheduler : Scheduler J R) (s : Service D S A J R)
    : Service D S A J R → Type 1 where
  here : Steps scheduler s s
  next : {t u : Service D S A J R} → Steps scheduler s t → Step scheduler t u → Steps scheduler s u

module _ {D S A J R : Type 0} (scheduler : Scheduler J R) (is_unique : J → Bool)
    (has_tag : String → J → Bool) (unique : Unique scheduler is_unique has_tag) where
  closed-Blocked :
      (first : Discoverer R) (r : Result (Unit {0})) (s : Service D S A J R)
      → Blocked has_tag first s
      → Blocked has_tag first
          ((lift r >> modify (λ s. record s { jobs = scheduler.stop s.jobs })) s).1
  closed-Blocked first (ok u) s b = record {
    rest = b.rest;
    front = b.front;
    tagged = unique.kept_by_stop s.jobs first.name b.tagged;
  }
  closed-Blocked first (err e) s b = b
  closed-Blocked first panic s b = b

  Step-Blocked :
      (first : Discoverer R) {s t : Service D S A J R}
      → Step scheduler s t
      → Blocked has_tag first s
      → Blocked has_tag first t
  unfolding shutdown
  Step-Blocked first {s} (starts clouds authz rules ctx request) b =
      (Blocked-start scheduler is_unique has_tag unique clouds authz rules ctx first request).keeps
        s b
  Step-Blocked first {s} shuts_down b = closed-Blocked first (close_all s.assessment_streams) s b
  Step-Blocked first {s} (runs messages table client stamp d) b =
      (Blocked-start_discovery has_tag first messages table client stamp d).keeps s b

  Steps-Blocked :
      (first : Discoverer R) {s t : Service D S A J R}
      → Steps scheduler s t
      → Blocked has_tag first s
      → Blocked has_tag first t
  Steps-Blocked first here b = b
  Steps-Blocked first (next steps step) b = Step-Blocked first step (Steps-Blocked first steps b)

  -- If gocron keeps tags unique, then once Start has succeeded with a discoverer, no later call of Start
  -- succeeds, whatever has happened in between, a Shutdown included.
  pub Steps-start :
      {Au K Aw Ctx : Type 0} (clouds : Clouds Au K Aw R) (authz : AuthorizationStrategy Ctx)
      (rules : Rules StartRequest) (ctx later : Option Ctx) (request again : Option StartRequest)
      (first : Discoverer R) (rest : List (Discoverer R)) (s t u v : Service D S A J R)
      → start scheduler clouds authz rules ctx request s ≡ (ok tt, t)
      → t.discoverers ≡ first ∷ rest
      → Steps scheduler t u
      → start scheduler clouds authz rules later again u ≢ (ok tt, v)
  Steps-start clouds authz rules ctx later request again first rest s t u v h front steps =
      start-refused scheduler is_unique has_tag unique clouds authz rules later first again u v (
        Steps-Blocked first steps (
          start-Blocked scheduler is_unique has_tag unique clouds authz rules ctx first rest request
            s t h front))
