-- ===== src/Logging.antt =====
-- LogRequest of internal/logging/logging.go. A payload is of a type M; what its descriptor and its
-- methods give are parameters.
mod Tests
use clouditor.Prelude.{
  String, Bool, true, false, not, ◌&&◌, Option, none, some, List, [], ◌∷◌, ◌++◌, ◌==◌,
  if◌then◌else◌,
}
use clouditor.Policies.Names.{join}

pub data RequestType : Type 0 where
  assess : RequestType
  add : RequestType
  create : RequestType
  register : RequestType
  remove : RequestType
  store : RequestType
  send : RequestType
  update : RequestType
  -- Any other number.
  other : RequestType

unfoldable pub request_type_string : RequestType → String
request_type_string assess = "assessed"
request_type_string add = "added"
request_type_string create = "created"
request_type_string register = "registered"
request_type_string remove = "removed"
request_type_string store = "stored"
request_type_string send = "sent"
request_type_string update = "updated"
request_type_string other = "unspecified"

-- The name that the descriptor of a message has, and its ID, if it has the method GetId.
pub record Descriptor (M : Type 0) : Type 0 where
  pub name : M → String
  pub get_id : M → Option String

-- A request, with its payload, which may be nil, and its service, if it has the method
-- GetCloudServiceId.
pub record LoggedRequest (M : Type 0) : Type 0 where
  pub payload : Option M
  pub cloud_service_id : Option String

module _ {M : Type 0} (descriptor : Descriptor M) where
  unfoldable pub subject : String → Option String → String
  subject name none = name
  subject name (some id) = if id == "" then name else join (name ∷ " with ID '" ∷ id ∷ "'" ∷ []) ""

  unfoldable pub for_service : String → Option String → String
  for_service name none = ""
  for_service name (some id) =
      if name == "CloudService" then "" else join (" for Cloud Service '" ∷ id ∷ "'" ∷ []) ""

  unfoldable pub joined_params : List String → String
  joined_params [] = ""
  joined_params (param ∷ params) = join (" " ∷ join (param ∷ params) " " ∷ []) ""

  unfoldable pub message : RequestType → M → Option String → List String → String
  unfolding subject for_service joined_params request_type_string
  message req_type payload service params =
      let name = descriptor.name payload in
      join
        (subject name (descriptor.get_id payload)
          ∷ " "
          ∷ request_type_string req_type
          ∷ for_service name service
          ∷ joined_params params
          ∷ "."
          ∷ [])
        ""

  -- The line that is logged, if there are a log, a request and a payload.
  unfoldable pub log_request :
      Bool → RequestType → Option (LoggedRequest M) → List String → Option String
  unfolding message
  log_request has_log req_type none params = none
  log_request has_log req_type (some req) params = elim req.payload [
    | none ↦ none
    | some payload ↦
        if has_log then some (message req_type payload req.cloud_service_id params) else none
  ]
