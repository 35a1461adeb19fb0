-- ===== src/Discovery/Handlers.antt =====
-- ListResources of service/discovery/discovery.go, and ListGraphEdges and UpdateResource of
-- service/discovery/graph.go. The state that they use is the database.
pub mod Access
use Prim.Native.String.{◌++◌ as str_append}
use clouditor.Prelude.{String, Option, none, some, List, [], ◌∷◌, ◌++◌, map}
use clouditor.Status.{Result, ok, err, panic, status, internal, err_permission_denied}
use clouditor.Exec.{Exec, pure, lift, gets, require, map_err, ◌>>=◌, ◌>>◌}
use clouditor.Auth.{AuthorizationStrategy, access_read}
use clouditor.Validate.{Rules, validate}
use clouditor.Query.{Atom, equals, like_any, atom, Clause, join_and, when_set, allowed_clauses}
use clouditor.Storage.{Table}
use clouditor.Page.{PageRequest, Wire, paginate_storage, default_pagination_opts}
use clouditor.Discovery.Resources.{Messages, Resource, Relationship, related, to_ontology_resource}

pub record Filter : Type 0 where
  pub type : Option String
  pub cloud_service_id : Option String

pub record ListResourcesRequest : Type 0 where
  pub filter : Option Filter
  pub page : PageRequest

-- `none` is a request without a resource.
pub record UpdateResourceRequest (A : Type 0) : Type 0 where
  pub resource : Option (Resource A)

pub record GraphEdge : Type 0 where
  pub id : String
  pub source : String
  pub target : String
  pub type : String

-- The getter of an optional field.
abbrev or_empty : Option String → String
or_empty none = ""
or_empty (some id) = id

-- "(resource_type LIKE ? OR resource_type LIKE ? OR resource_type LIKE ?)"
abbrev pub has_type : String → Atom
has_type typ =
    like_any "resource_type"
      (str_append typ ",%" ∷ str_append "%," (str_append typ ",%") ∷ str_append "%," typ ∷ [])

unfoldable pub filter_clauses : Option Filter → List Clause
filter_clauses none = []
filter_clauses (some f) =
    when_set f.cloud_service_id (equals "cloud_service_id") ++ when_set f.type has_type

unfoldable pub service_of : {A : Type 0} → Option (Resource A) → String
service_of none = ""
service_of (some r) = r.cloud_service_id

abbrev pub edge : String → Relationship → GraphEdge
edge source rel = record {
  id = str_append source (str_append "-" rel.value);
  source = source;
  target = rel.value;
  type = rel.property;
}

abbrev with_token : String → Result (List GraphEdge) → Result (List GraphEdge × String)
with_token token (ok edges) = ok (edges, token)
with_token token (err e) = err e
with_token token panic = panic

module _ {A M R : Type 0} (messages : Messages A M R) where
  -- The edges of a resource; one that is not of the ontology has none.
  unfoldable pub edges_of : Resource A → Result (List GraphEdge)
  unfolding related to_ontology_resource
  edges_of resource = elim (to_ontology_resource messages resource) [
    | ok r ↦ ok (map (edge resource.id) (related messages r))
    | err e ↦ ok []
    | panic ↦ panic
  ]

  unfoldable pub graph_edges : List (Resource A) → Result (List GraphEdge)
  unfolding edges_of
  graph_edges [] = ok []
  graph_edges (resource ∷ rest) =
      let others = graph_edges rest in
      elim (edges_of resource) [
        | ok edges ↦ elim others [ ok more ↦ ok (edges ++ more) | err e ↦ err e | panic ↦ panic ]
        | err e ↦ err e
        | panic ↦ panic
      ]

module _ {D A : Type 0} (table : Table D (Resource A)) {Ctx : Type 0}
    (authz : AuthorizationStrategy Ctx) (ctx : Option Ctx) where
  unfoldable pub check_filter : Option Filter → Exec D (Unit {0})
  check_filter none = pure tt
  check_filter (some f) =
      require (authz.check_access ctx access_read (or_empty f.cloud_service_id))
        err_permission_denied

  unfoldable pub list_resources :
      Wire
      → Rules ListResourcesRequest
      → Option ListResourcesRequest
      → Exec D (List (Resource A) × String)
  unfolding validate check_filter filter_clauses
  list_resources w rules request = do
    req ← lift (validate rules request)
    check_filter req.filter
    db ← gets (λ s. s)
    lift (
        paginate_storage w req.page
          (table.list
            (join_and
              (filter_clauses req.filter ++ allowed_clauses (authz.allowed_cloud_services ctx)))
            db)
          default_pagination_opts)

  -- Save of the resource of the request; without one, reading its ID panics.
  unfoldable pub save_resource : Option (Resource A) → Exec D (Resource A)
  save_resource none = lift panic
  save_resource (some r) = do
    map_err (λ e. status internal "database error") (table.save r (atom (equals "id" r.id) ∷ []))
    pure r

  unfoldable pub update_resource :
      Rules (UpdateResourceRequest A) → Option (UpdateResourceRequest A) → Exec D (Resource A)
  unfolding validate service_of save_resource
  update_resource rules request = do
    req ← lift (validate rules request)
    require (authz.check_access ctx access_read (service_of req.resource)) err_permission_denied
    save_resource req.resource

  module _ {M R : Type 0} (messages : Messages A M R) where
    -- The edges of the resources of a page.
    unfoldable pub edges_page : Wire → PageRequest → Exec D (List GraphEdge × String)
    unfolding graph_edges
    edges_page w req = do
      db ← gets (λ s. s)
      page ←
          map_err (λ e. status internal "database error")
            (lift (
              paginate_storage w req
                (table.list (join_and (allowed_clauses (authz.allowed_cloud_services ctx))) db)
                default_pagination_opts))
      lift (with_token page.1 (graph_edges messages page.0))

    unfoldable pub list_graph_edges :
        Wire → Rules PageRequest → Option PageRequest → Exec D (List GraphEdge × String)
    unfolding validate edges_page
    list_graph_edges w rules request = lift (validate rules request) >>= λ req. edges_page w req
