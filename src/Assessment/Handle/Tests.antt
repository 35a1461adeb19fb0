-- ===== src/Assessment/Handle/Tests.antt =====
-- One evidence of one metric, handled by service/assessment/assessment.go.
use clouditor.Prelude.{ℕ, String, ◌≡◌, refl, Bool, true, false, none, some, List, [], ◌∷◌}
use clouditor.Prelude.Maps.{lookup}
use clouditor.Status.{ok}
use clouditor.Exec.Inversion.{Gives}
use clouditor.Auth.{AuthorizationStrategy, access_update}
use clouditor.Stream.{Turn}
use clouditor.Channels.{get_stream, add_stream}
use clouditor.Policies.Eval.{eval}
use clouditor.Policies.{get}
use clouditor.Policies.Query.{truth, text}
use clouditor.Assessment.Assess.{Evidence, AssessEvidenceRequest, AssessmentResult, Service}
use clouditor.Assessment.Handle.{Environment, handle_evidence, assess_evidences}
use clouditor.Assessment.Handle.Adds.{Extends}
use clouditor.Assessment.Handle.Allowed.{assess_evidences-Extends}
use clouditor.Assessment.Handle.Handled.{Handled, handle_evidence-Handled}

abbrev environment : Environment String String String String String Bool String String String
environment = record {
  unicode = record {
    is_upper = λ c. false;
    is_lower = λ c. false;
    is_digit = λ c. false;
    to_lower = λ c. c;
  };
  engine = record {
    new_transaction = λ config. ok config;
    upsert_policy = λ metric_id impl tx. ok impl;
    prepare_for_eval = λ prefix name tx. ok tx;
    commit = λ tx. ok tt;
    eval = λ query input. ok (
        (("applicable", truth true) ∷ ("compliant", truth input) ∷ ("operator", text "==") ∷ [])
        ∷ []);
    marshal = λ value. ok "{}";
    unmarshal = λ b. ok b;
  };
  hash = λ config. config;
  eval_pkg = "clouditor";
  src = record {
    metrics = ok ("Encryption" ∷ []);
    metric_configuration = λ service_id metric_id. ok "config";
    metric_implementation = λ metric_id. ok "package";
  };
  resources = record {
    unmarshal_new = λ any. ok any;
    as_resource = λ m. some m;
    id = λ r. r;
    resource_map = λ r. ok true;
    resource_types = λ r. "Storage" ∷ [];
  };
  rules = λ m. none;
  init_evidence_store_stream = some (λ target. ok "stream");
  init_orchestrator_stream = some (λ target. ok "stream");
}

abbrev bucket : Evidence String
bucket = record {
  id = "evidence";
  timestamp = 1;
  cloud_service_id = "service";
  tool_id = "tool";
  resource = "bucket";
}

abbrev start : Service String String String String String
start = record {
  is_evidence_store_disabled = false;
  evidence_store_target = "localhost:9090";
  evidence_store_streams = [];
  orchestrator_target = "localhost:9090";
  orchestrator_streams = [];
  result_hooks = "hook" ∷ [];
  pe = record { mrtc = []; qc = [] };
  evidences_sent = [];
  results_sent = [];
  informed = [];
}

abbrev stamp : ℕ → String × ℕ
stamp i = ("result", 2)

abbrev encrypted : AssessmentResult String
encrypted = record {
  id = "result";
  timestamp = 2;
  cloud_service_id = "service";
  metric_id = "Encryption";
  metric_configuration = "{}";
  compliant = true;
  evidence_id = "evidence";
  resource_id = "bucket";
  resource_types = "Storage" ∷ [];
  non_compliance_comments = "No comments so far";
  tool_id = some "Clouditor Assessment";
}

bucket-Gives :
    Gives
      (handle_evidence environment stamp bucket)
      start
      (encrypted ∷ [])
      (handle_evidence environment stamp bucket start).1
unfolding handle_evidence eval lookup get get_stream add_stream
bucket-Gives = record { result = refl; state = refl }

handle_evidence-Handled_example :
    Handled environment bucket start
      (encrypted ∷ [])
      (handle_evidence environment stamp bucket start).1
handle_evidence-Handled_example =
    handle_evidence-Handled environment stamp bucket start
      (handle_evidence environment stamp bucket start).1 (encrypted ∷ []) bucket-Gives

abbrev allow_all : AuthorizationStrategy String
allow_all = record {
  check_access = λ ctx access id. true;
  allowed_cloud_services = λ ctx. (true, []);
}

abbrev turns : List (Turn (AssessEvidenceRequest String))
turns = (ok (record { evidence = bucket }), ok tt) ∷ []

assess_evidences-Extends_example :
    Extends
      (λ r. allow_all.check_access none access_update r.cloud_service_id ≡ true)
      start.results_sent
      (assess_evidences environment allow_all
        (λ req. none)
        none
        (λ request. stamp)
        turns
        start).1.1.results_sent
assess_evidences-Extends_example =
    assess_evidences-Extends environment allow_all (λ req. none) none (λ request. stamp) turns start
