-- ===== src/Discovery/Start/Tests.antt =====
-- A scheduler that keeps the unique tags in a list, and a service with one provider.
use clouditor.Prelude.{
  String, ◌≡◌, ◌≢◌, refl, Bool, true, false, Option, none, some, List, [], ◌∷◌, ◌==◌, contains,
  str_eq_refl, Bool-cases, inl, inr,
}
use clouditor.Status.{Result, ok, err, plain}
use clouditor.Auth.{AuthorizationStrategy}
use clouditor.Auth.Grants.{may_access}
use clouditor.Validate.{Rules}
use clouditor.Discovery.{Discoverer, Service}
use clouditor.Discovery.Start.{Scheduler, Clouds, StartRequest, start, shutdown}
use clouditor.Discovery.Start.Unique.{Unique}
use clouditor.Discovery.Start.Life.{shuts_down, here, next, Steps-start}

abbrev Jobs : Type 0
Jobs = Bool × List String

abbrev registered_tags : Bool → String → List String → List String
registered_tags true name tags = name ∷ tags
registered_tags false name tags = tags

abbrev answer : Bool → String → Jobs → Result (Unit {0}) × Jobs
answer true name j = (err (plain "non-unique tag"), j)
answer false name j = (ok tt, (j.0, registered_tags j.0 name j.1))

abbrev scheduler : Scheduler Jobs String
scheduler = record {
  tags_unique = λ j. (true, j.1);
  schedule = λ interval name v j. answer (contains j.1 name) name j;
  start_async = λ j. j;
  stop = λ j. j;
}

abbrev is_unique : Jobs → Bool
is_unique j = j.0

abbrev has_tag : String → Jobs → Bool
has_tag tag j = contains j.1 tag

answer-registered :
    (b : Bool) (name : String) (u : Bool) (tags : List String)
    → u ≡ true
    → (answer b name (u, tags)).0 ≡ ok tt
    → contains (answer b name (u, tags)).1.1 name ≡ true
answer-registered true name u tags e h = absurd (cc)
answer-registered false name true tags e h = rw (str_eq_refl name) refl
answer-registered false name false tags e h = absurd (cc)

answer-kept :
    (b : Bool) (name : String) (u : Bool) (tags : List String) (tag : String)
    → contains tags tag ≡ true
    → contains (answer b name (u, tags)).1.1 tag ≡ true
answer-kept true name u tags tag h = h
answer-kept false name true tags tag h = elim (Bool-cases (name == tag)) [
  | inl e ↦ rw e
  | inr e ↦ rw (e, h)
]
answer-kept false name false tags tag h = h

answer-refused : (b : Bool) (name : String) (j : Jobs) → b ≡ true → (answer b name j).0 ≢ ok tt
answer-refused true name j e h = cc
answer-refused false name j e h = cc

scheduler-Unique : Unique scheduler is_unique has_tag
scheduler-Unique = record {
  set = λ j. refl;
  registered = λ i v j. answer-registered (contains j.1 v.name) v.name j.0 j.1;
  refused = λ i v j. answer-refused (contains j.1 v.name) v.name j;
  kept_by_schedule = λ i v j. answer-kept (contains j.1 v.name) v.name j.0 j.1;
  kept_by_tags_unique = λ j tag h. h;
  kept_by_start_async = λ j tag h. h;
  kept_by_stop = λ j tag h. h;
}

abbrev discoverer : String → Discoverer String
discoverer name = record { name = name; list = ok [] }

abbrev clouds : Clouds String String String String
clouds = record {
  azure_authorizer = ok "authorizer";
  azure_discovery = λ opts. discoverer "Azure";
  k8s_client = ok "client";
  k8s_compute = λ client id. discoverer "Kubernetes Compute";
  k8s_network = λ client id. discoverer "Kubernetes Network";
  k8s_storage = λ client id. discoverer "Kubernetes Storage";
  aws_client = err (plain "no credentials");
  aws_storage = λ client id. discoverer "AWS Storage";
  aws_compute = λ client id. discoverer "AWS Compute";
}

abbrev all_services : AuthorizationStrategy String
all_services = record {
  check_access = λ ctx typ id. may_access (true, []) id;
  allowed_cloud_services = λ ctx. (true, []);
}

abbrev no_rules : Rules StartRequest
no_rules req = none

abbrev service : List (Discoverer String) → Jobs → Service String String String Jobs String
service discoverers jobs = record {
  db = "";
  assessment_streams = [];
  assessment_target = "localhost:9090";
  jobs = jobs;
  providers = "azure" ∷ [];
  discoverers = discoverers;
  discovery_interval = 300;
  events = [];
  cs_id = "s1";
  evidences_sent = [];
}

abbrev request : Option StartRequest
request = some (record { resource_group = none })

abbrev started : Service String String String Jobs String
started = service (discoverer "Azure" ∷ []) (true, "Azure" ∷ [])

-- A second start, after a shutdown, has added a discoverer and fails.
abbrev stopped_and_started : Service String String String Jobs String
stopped_and_started = service (discoverer "Azure" ∷ discoverer "Azure" ∷ []) (true, "Azure" ∷ [])

Steps-start_example :
    start scheduler clouds all_services no_rules (some "c") request started
    ≢ (ok tt, stopped_and_started)
Steps-start_example =
    Steps-start scheduler is_unique has_tag scheduler-Unique clouds all_services no_rules none
      (some "c") request request (discoverer "Azure") [] (service [] (false, [])) started started
      stopped_and_started (unfold start in refl) refl (unfold shutdown in next here shuts_down)
