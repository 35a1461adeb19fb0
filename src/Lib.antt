-- ===== src/Lib.antt =====
-- Verification of Clouditor, a tool that collects evidences of cloud services, assesses them by
-- metrics and evaluates catalogs of controls.
--
-- Parts and files.
-- - Prelude: shared names, tests, lists, texts, integers and Go's maps with text keys.
-- - Status: Go's errors and the outcome of a call (api/errors.go, persistence/persistence.go).
-- - Exec: handlers that change a state and may return an error, with do blocks.
-- - Page: api/pagination.go and service/paginate.go. `encode` and `decode_page_token` are
--   PageToken.Encode and DecodePageToken, `paginate`, `paginate_slice` and `paginate_storage` the
--   functions of these names, and `list_all_paginated` is ListAllPaginated. Page/Serve, Page/Loop and
--   Page/Size hold the lemmas on tokens, on the loop and on sizes; Page/Slice and Page/Database are
--   about the two paginators, and Page/Source is about where a page comes from.
-- - Auth: service/authorization.go. `jwt_check_access` and `jwt_allowed_cloud_services` are
--   CheckAccess and AllowedCloudServices of the JWT strategy.
-- - Query, Validate, Storage: what handlers share. A WHERE condition is the list of the tokens of
--   its text, read by SQL's precedence (BuildConds of persistence/persistence.go); `validate` is
--   Validate of api/validate.go; `Table` is the interface Storage of persistence/persistence.go.
-- - Evaluation: service/evaluation/evaluation.go and IsRelevantFor of
--   api/orchestrator/orchestrator.go. Evaluation/Model has the messages, Evaluation/Relevance the
--   choice of controls by assurance level, Evaluation/Controls the cache of controls,
--   Evaluation/Status the loops that set a status, Evaluation/Run the functions evaluateSubcontrol,
--   evaluateControl and evaluateCatalog, and Evaluation/Results the handlers
--   ListEvaluationResults and CreateEvaluationResult. Evaluation/Schedule has StartEvaluation,
--   StopEvaluation and addJobToScheduler.
-- - Stream: the loop over a bidirectional stream, as in StoreEvidences of
--   service/evidence/evidence_store.go.
-- - Channels: api/streams.go. `get_stream`, `add_stream`, `restart_stream` and `close_all` are
--   GetStream, addStream, restartStream and CloseAll. Channels/Loops has the goroutines of a channel
--   as the step relation `Step`: sendLoop, Send, the goroutine that puts a message back, the calls of
--   GetStream that restart a dead channel, one that overwrites the channel in the map, and a panic on a
--   nil stream. restartStream after its initializer has returned is one step.
-- - Policies: the cache of prepared queries of policies/rego.go (Get, Empty, Evict) and
--   HandleMetricEvent. Policies/Names has CamelCaseToSnakeCase of internal/util/string.go and
--   createKey of policies/policies.go, Policies/Query what evalMap does with Rego, and Policies/Eval
--   the functions Eval and evalMap with the cache of applicable metrics.
-- - Assessment: MetricConfiguration and handleMetricEvent of service/assessment/assessment.go.
--   Assessment/Assess has the state of its service and its hooks, Assessment/Handle the functions
--   handleEvidence, AssessEvidence and AssessEvidences. Assessment/Updated composes it with the
--   orchestrator's UpdateMetricConfiguration.
-- - Evidence: the handlers and the hooks of service/evidence/evidence_store.go, whose goroutines run in
--   Evidence/Informed.
-- - Orchestrator: service/orchestrator. Orchestrator/Results has the handlers, the stream and the
--   hooks of assessment results, Orchestrator/CloudService the handlers of cloud_service.go,
--   Orchestrator/Metrics those of metrics.go (Handlers, Configurations, and Loading for loadMetrics),
--   Orchestrator/Toe those of toe.go, Orchestrator/Certificates those of certificates.go, and
--   Orchestrator/Catalogs those of catalogs.go (Loading for loadCatalogs).
-- - Discovery: service/discovery/discovery.go and graph.go. Discovery has StartDiscovery and the
--   state of the service, Discovery/Resources the resources of api/discovery/discovery.go and
--   api/ontology/ontology.go, Discovery/Start the functions Start and Shutdown, and
--   Discovery/Handlers the handlers of resources and of the graph.
-- - Storage: the interface of persistence/persistence.go; Storage/Gorm is its implementation in
--   persistence/gorm/gorm.go, and Storage/Gorm/Errors what handlers answer over it.
-- - Server: AuthFunc of server/auth_middleware.go; Server/Rest is the CORS handler of
--   server/rest/rest.go. Connection: api/connection.go, with api/authorizer.go in
--   Connection/Authorizer. Logging: LogRequest of internal/logging/logging.go.
--   Orchestrator/Metrics/Ranges: the columns of api/assessment/metric.go.
--
-- How they interact: the handlers of Evaluation take the authorization strategy, the rules of
-- validation and the database as arguments, build a condition with Query and answer by Page; the
-- evaluation reads the cached controls and the orchestrator's assessment results, and writes its
-- results to the database. The assessment evaluates an evidence by Policies/Eval and gives it and
-- its results to the streams of Channels; it handles the events that Orchestrator/Metrics writes.
-- Discovery writes resources to the database and gives evidences to the assessment's stream.
--
-- Parameters. Code outside the repository is an argument of the definitions that use it: protobuf's
-- and base64's codecs (`Wire`, relied on to be `Faithful`), the JWT parser (`Jwt`), protovalidate
-- (`Rules`), sort.Slice, the database (`Table`), uuid.NewString and the clock (`Supply`),
-- Rego's engine (`Engine`), Go's package unicode (`Unicode`), the files and their JSON (`Files`),
-- package ontology (`Resources`), gocron's scheduler (`Scheduler`, relied on to be `Tagged`), and the
-- answers of the orchestrator's gRPC client. Of the database it is relied on where a theorem says so that it gives only rows that
-- meet the condition it is asked with (`Answers`).
--
-- Bounds and fuel. int64 addition wraps; int32 and int64 fields are integers. The loop of
-- ListAllPaginated runs on fuel, one unit for each page; one more than the number of rows is enough,
-- since every page but the last has at least one row. A channel's buffer holds 1000 messages.
--
-- What the assessment answers as a source of metrics is the same throughout one evaluation, and what
-- a goroutine does that only informs a hook or gives an event to a channel is done at once, but for the
-- evidence store, whose goroutines run when the stream has ended, in any order. A set of keys of keyfunc
-- fetches its keys again each hour: what it verifies depends on the time of the request.
--
-- Not modelled: the formatters of log lines, and when a line is logged; NewStorage and the serializers of gorm; the options of the services' constructors; the goroutines of an errgroup run one after the other, which
-- gives the same results since each writes its own place; which associations of a record the database loads; code
-- generated from .proto files; the discoverers, the set-up of the servers and the command line.
pub mod Prelude
pub mod Status
pub mod Exec
pub mod Page
pub mod Auth
pub mod Query
pub mod Validate
pub mod Storage
pub mod Evaluation
pub mod Stream
pub mod Channels
pub mod Evidence
pub mod Policies
pub mod Assessment
pub mod Orchestrator
pub mod Discovery
pub mod Server
pub mod Connection
pub mod Logging
