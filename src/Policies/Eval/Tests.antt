-- ===== src/Policies/Eval/Tests.antt =====
-- Evaluations of policies/rego.go with an engine whose queries are their metric's implementation.
use Prim.Native.Char.{code}
use clouditor.Prelude.{
  String, ◌≡◌, refl, Bool, true, ◌&&◌, leb, none, some, [], ◌∷◌, ◌==◌, if◌then◌else◌,
}
use clouditor.Prelude.Maps.{Map, lookup, put}
use clouditor.Status.{ok, err, status, not_found}
use clouditor.Policies.{MetricChangeEvent, type_metadata_changed, handle_metric_event, get}
use clouditor.Policies.Names.{Unicode, create_key}
use clouditor.Policies.Query.{Value, truth, text, EvalResult, Engine, MetricsSource}
use clouditor.Policies.Eval.{RegoEval, eval_map, eval}
use clouditor.Policies.Eval.Again.{eval-eval}
use clouditor.Policies.Eval.Changed.{eval-with_metrics, eval_map-handle_metric_event}

abbrev ascii : Unicode
ascii = record {
  is_upper = λ c. leb 65 (code c) && leb (code c) 90;
  is_lower = λ c. leb 97 (code c) && leb (code c) 122;
  is_digit = λ c. leb 48 (code c) && leb (code c) 57;
  to_lower = λ c. c;
}

abbrev bindings : Bool → Map Value
bindings input =
    ("applicable", truth true) ∷ ("compliant", truth input) ∷ ("operator", text "==") ∷ []

abbrev engine : Engine String String Bool String String
engine = record {
  new_transaction = λ config. ok config;
  upsert_policy = λ metric_id impl tx. ok impl;
  prepare_for_eval = λ prefix name tx. ok tx;
  commit = λ tx. ok tt;
  eval = λ query input. ok (bindings input ∷ []);
  marshal = λ value. ok "{}";
  unmarshal = λ b. ok b;
}

abbrev source : MetricsSource String String
source = record {
  metrics = ok ("Encryption" ∷ "Manual" ∷ []);
  metric_configuration = λ service_id metric_id. ok "config";
  metric_implementation = λ metric_id.
      if metric_id == "Manual"
      then err (status not_found "implementation for metric not found")
      else ok "package";
}

abbrev start : RegoEval String
start = record { mrtc = []; qc = [] }

abbrev filled : RegoEval String
filled = record {
  mrtc = ("Storage-tool", some ("Encryption" ∷ [])) ∷ [];
  qc = ("Encryption-service-config", "package") ∷ [];
}

abbrev encrypted : EvalResult String
encrypted = record {
  applicable = true;
  compliant = true;
  target_value = none;
  operator = "==";
  metric_id = "Encryption";
  config = "{}";
}

abbrev one_metric : MetricsSource String String
one_metric = record source { metrics = ok ("Encryption" ∷ []) }

abbrev hash : String → String
hash config = config

eval-start :
    eval ascii engine hash "clouditor" source "tool" "service" (ok true) ("Storage" ∷ []) start
    ≡ (ok (encrypted ∷ []), filled)
unfolding eval lookup get put
eval-start = refl

eval-eval_example :
    eval ascii engine hash "clouditor" source "tool" "service" (ok true) ("Storage" ∷ []) filled
    ≡ (ok (encrypted ∷ []), filled)
eval-eval_example =
    eval-eval ascii engine hash "clouditor" source "tool" "service" (ok true) ("Storage" ∷ []) start
      (encrypted ∷ []) filled eval-start

abbrev changed : MetricChangeEvent
changed = record {
  type = type_metadata_changed;
  metric_id = "Encryption";
  cloud_service_id = "service";
}

eval-with_metrics_example :
    eval ascii engine hash "clouditor" source "tool" "service"
      (ok true)
      ("Storage" ∷ [])
      (record filled { qc = handle_metric_event changed filled.qc })
    ≡ eval ascii engine hash "clouditor" one_metric "tool" "service"
        (ok true)
        ("Storage" ∷ [])
        (record filled { qc = handle_metric_event changed filled.qc })
unfolding create_key lookup
eval-with_metrics_example =
    eval-with_metrics ascii engine hash "clouditor" one_metric (ok ("Encryption" ∷ "Manual" ∷ []))
      "tool" "service" (ok true) ("Storage" ∷ []) changed filled ("Encryption" ∷ []) refl

eval_map-handle_metric_event_example :
    (eval_map ascii engine hash "clouditor" source "service" "Encryption" true
      (handle_metric_event changed filled.qc)).0
    ≡ (eval_map ascii engine hash "clouditor" source "service" "Encryption" true []).0
eval_map-handle_metric_event_example =
    eval_map-handle_metric_event ascii engine hash "clouditor" source changed "service" true
      filled.qc
