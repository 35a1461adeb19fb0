-- ===== src/Logging/Tests.antt =====
-- Requests about the kinds of messages, and requests that are not logged.
use clouditor.Prelude.{String, true, ◌≡◌, refl, Option, none, some, List, [], ◌∷◌}
use clouditor.Policies.Names.{join}
use clouditor.Logging.{RequestType, create, update, other, Descriptor, log_request}

-- A payload is its name with its ID.
abbrev descriptor : Descriptor (String × Option String)
descriptor = record { name = λ m. m.0; get_id = λ m. m.1 }

abbrev logged : RequestType → String → String → Option String → List String → Option String
logged t name id service params =
    log_request descriptor true t
      (some (record { payload = some (name, some id); cloud_service_id = service })) params

catalog_created :
    logged create "Catalog" "Cat1234" none [] ≡ some "Catalog with ID 'Cat1234' created."
unfolding log_request join
catalog_created = refl

target_created :
    logged create "TargetOfEvaluation" "" (some "0") ("and Catalog 'EUCS'" ∷ [])
    ≡ some "TargetOfEvaluation created for Cloud Service '0' and Catalog 'EUCS'."
unfolding log_request join
target_created = refl

service_updated :
    logged update "CloudService" "0" (some "0") [] ≡ some "CloudService with ID '0' updated."
unfolding log_request join
service_updated = refl

no_payload :
    log_request descriptor true other (some (record { payload = none; cloud_service_id = none })) []
    ≡ none
unfolding log_request
no_payload = refl
