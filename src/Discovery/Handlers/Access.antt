-- ===== src/Discovery/Handlers/Access.antt =====
-- Whose resources a caller sees in a listing and in the graph of resources.
use mathlib.Core.Path.{subst}
use mathlib.Core.List.{map-append, Memᴰ}
use mathlib.Core.List.Memᴰ.{head, tail}
use clouditor.Prelude.{
  String, ◌≡◌, refl, sym, ap, ◌∙◌, Bool, true, false, Option, none, some, List, [], ◌∷◌, ◌++◌, map,
  All, All-map, All-append, arith,
}
use clouditor.Status.{Result, ok, err, panic, status, internal}
use clouditor.Exec.{lift, map_err, ◌>>=◌}
use clouditor.Exec.Inversion.{ok-injective}
use clouditor.Auth.{AuthorizationStrategy}
use clouditor.Validate.{Rules}
use clouditor.Query.{Atom, equals, in_list, join_and, satisfies, allowed_clauses}
use clouditor.Query.Laws.{
  single, all_hold, all_hold-last, satisfies-singles, when_atom, when_set-single, allowed_atoms,
  allowed_clauses-single,
}
use clouditor.Storage.{Table}
use clouditor.Storage.Answers.{Answers, paginate_storage-All}
use clouditor.Page.{PageRequest, Wire, paginate_storage, default_pagination_opts}
use clouditor.Discovery.Resources.{Messages, Resource, Relationship, to_ontology_resource, related}
use clouditor.Discovery.Handlers.{
  Filter, ListResourcesRequest, GraphEdge, has_type, filter_clauses, list_resources, check_filter,
  with_token, edge, edges_of, graph_edges, edges_page, list_graph_edges,
}

abbrev filter_atoms : Option Filter → List Atom
filter_atoms none = []
filter_atoms (some f) =
    when_atom f.cloud_service_id (equals "cloud_service_id") ++ when_atom f.type has_type

filter_clauses-single :
    (filter : Option Filter) → filter_clauses filter ≡ map single (filter_atoms filter)
unfolding filter_clauses
filter_clauses-single none = refl
filter_clauses-single (some f) = simp (map-append, when_set-single)

conds-all_hold :
    (row : Atom → Bool) (filter : Option Filter) (allowed : Bool × List String)
    → satisfies row (join_and (filter_clauses filter ++ allowed_clauses allowed))
      ≡ all_hold row (filter_atoms filter ++ allowed_atoms allowed)
conds-all_hold row filter allowed =
    rw
      (
        filter_clauses-single filter,
        allowed_clauses-single allowed,
        sym (map-append single (filter_atoms filter) (allowed_atoms allowed)),
      )
      (satisfies-singles row (filter_atoms filter ++ allowed_atoms allowed))

-- An edge that starts at a resource with a property.
pub record From {A : Type 0} (P : Resource A → Type 0) (e : GraphEdge) : Type 0 where
  pub resource : Resource A
  pub source : e.source ≡ resource.id
  pub meets : P resource

-- The edges shown for a page of resources: the resources are allowed, and every edge starts at one.
pub record Shown {A : Type 0} (Allows : Resource A → Type 0)
    (page : Result (List (Resource A) × String)) (edges : List GraphEdge) : Type 0 where
  pub rows : List (Resource A)
  pub token : String
  pub listed : page ≡ ok (rows, token)
  pub allowed : All Allows rows
  pub starts : All (From (λ r. Memᴰ r rows)) edges

all_members : {A : Type 0} (rows : List A) → All (λ r. Memᴰ r rows) rows
all_members [] = tt
all_members (r ∷ rows) = (head refl, All-map (λ a m. tail m) rows (all_members rows))

edges-From :
    {A : Type 0} (P : Resource A → Type 0) (r : Resource A) (h : P r) (rels : List Relationship)
    → All (From P) (map (edge r.id) rels)
edges-From P r h [] = tt
edges-From P r h (rel ∷ rels) =
    (record { resource = r; source = refl; meets = h }, edges-From P r h rels)

module _ {A M R : Type 0} (messages : Messages A M R) (P : Resource A → Type 0) where
  -- The edges that a call has given.
  abbrev Given : Result (List GraphEdge) → Type 0
  Given (ok edges) = All (From P) edges
  Given (err e) = Unit
  Given panic = Unit

  edges_of-From : (r : Resource A) → P r → Given (edges_of messages r)
  unfolding edges_of
  edges_of-From r h = of_resource (to_ontology_resource messages r)
    where
      of_resource :
          (o : Result R)
          → Given (elim o [
            | ok resource ↦ ok (map (edge r.id) (related messages resource))
            | err e ↦ ok []
            | panic ↦ panic
          ])
      of_resource (ok resource) = edges-From P r h (related messages resource)
      of_resource (err e) = tt
      of_resource panic = tt

  Given-append :
      (r q : Result (List GraphEdge))
      → Given r
      → Given q
      → Given (elim r [
        | ok edges ↦ elim q [ ok more ↦ ok (edges ++ more) | err e ↦ err e | panic ↦ panic ]
        | err e ↦ err e
        | panic ↦ panic
      ])
  Given-append (ok edges) (ok more) h k = All-append (From P) edges more h k
  Given-append (ok edges) (err e) h k = tt
  Given-append (ok edges) panic h k = tt
  Given-append (err e) q h k = tt
  Given-append panic q h k = tt

  graph_edges-From : (rs : List (Resource A)) → All P rs → Given (graph_edges messages rs)
  unfolding graph_edges
  graph_edges-From [] h = tt
  graph_edges-From (r ∷ rs) h =
      Given-append (edges_of messages r) (graph_edges messages rs) (edges_of-From r h.0)
        (graph_edges-From rs h.1)

module _ {D A Ctx : Type 0} (table : Table D (Resource A)) (authz : AuthorizationStrategy Ctx)
    (ctx : Option Ctx) (row : Resource A → Atom → Bool) (answers : Answers table row) where
  listed :
      (w : Wire) (rules : Rules ListResourcesRequest) (req : ListResourcesRequest) (db after : D)
      {rows : List (Resource A)} {npt : String}
      → list_resources table authz ctx w rules (some req) db ≡ (ok (rows, npt), after)
      → paginate_storage w req.page
          (table.list
            (join_and
              (filter_clauses req.filter ++ allowed_clauses (authz.allowed_cloud_services ctx)))
            db)
          default_pagination_opts
        ≡ ok (rows, npt)
  unfolding list_resources check_filter
  listed w rules req db after h = ground arith

  abbrev Allowed : List String → Resource A → Type 0
  Allowed ids r = row r (in_list "cloud_service_id" ids) ≡ true

  -- A caller that may access only some services gets from a listing only resources of those services, if
  -- the database gives only rows that meet the condition it is asked with.
  pub list_resources-Allowed :
      (w : Wire) (rules : Rules ListResourcesRequest) (req : ListResourcesRequest) (db after : D)
      (ids : List String) (rows : List (Resource A)) (npt : String)
      → authz.allowed_cloud_services ctx ≡ (false, ids)
      → list_resources table authz ctx w rules (some req) db ≡ (ok (rows, npt), after)
      → All (Allowed ids) rows
  list_resources-Allowed w rules req db after ids rows npt restricted h =
      All-map
        (λ r met.
          all_hold-last (row r) (filter_atoms req.filter) (in_list "cloud_service_id" ids)
            (sym (conds-all_hold (row r) req.filter (false, ids)) ∙ (rw restricted at met)))
        rows
        (paginate_storage-All table row answers w req.page
          (join_and
            (filter_clauses req.filter ++ allowed_clauses (authz.allowed_cloud_services ctx)))
          db default_pagination_opts rows {npt = npt} (listed w rules req db after h))

  module _ {M R : Type 0} (messages : Messages A M R) where
    with_token-ok :
        (token : String) (r : Result (List GraphEdge)) {edges : List GraphEdge} {npt : String}
        → with_token token r ≡ ok (edges, npt)
        → r ≡ ok edges
    with_token-ok token (ok more) h = ap ok (ap (λ p. p.0) (ok-injective h))
    with_token-ok token (err e) h = absurd (cc)
    with_token-ok token panic h = absurd (cc)

    page_Shown :
        (Allows : Resource A → Type 0) (q : Result (List (Resource A) × String)) (db after : D)
        {edges : List GraphEdge} {npt : String}
        → ((rows : List (Resource A)) (token : String) → q ≡ ok (rows, token) → All Allows rows)
        → (map_err (λ e. status internal "database error") (lift q) >>= λ page.
              lift (with_token page.1 (graph_edges messages page.0)))
            db
          ≡ (ok (edges, npt), after)
        → Shown Allows q edges
    page_Shown Allows (ok (rows, token)) db after {edges} {npt} met h = record {
      rows = rows;
      token = token;
      listed = refl;
      allowed = met rows token refl;
      starts =
          subst (Given messages (λ r. Memᴰ r rows))
            (with_token-ok token (graph_edges messages rows) {edges = edges} {npt = npt}
              (ap (λ p. p.0) h))
            (graph_edges-From messages (λ r. Memᴰ r rows) rows (all_members rows));
    }
    page_Shown Allows (err e) db after met h = absurd (cc (ap (λ p. p.0) h))
    page_Shown Allows panic db after met h = absurd (cc (ap (λ p. p.0) h))

    valid :
        (w : Wire) (rules : Rules PageRequest) (req : PageRequest) (db after : D)
        {out : List GraphEdge × String}
        → list_graph_edges table authz ctx messages w rules (some req) db ≡ (ok out, after)
        → edges_page table authz ctx messages w req db ≡ (ok out, after)
    unfolding list_graph_edges
    valid w rules req db after h = ground arith

    -- A caller that may access only some services gets only edges that start at a resource of the page
    -- which the database gives for the request, and all resources of the page belong to those services,
    -- if the database gives only rows that meet the condition it is asked with.
    pub list_graph_edges-Allowed :
        (w : Wire) (rules : Rules PageRequest) (req : PageRequest) (db after : D)
        (ids : List String) (edges : List GraphEdge) (npt : String)
        → authz.allowed_cloud_services ctx ≡ (false, ids)
        → list_graph_edges table authz ctx messages w rules (some req) db ≡ (ok (edges, npt), after)
        → Shown
            (Allowed ids)
            (paginate_storage w req
              (table.list (join_and (allowed_clauses (authz.allowed_cloud_services ctx))) db)
              default_pagination_opts)
            edges
    unfolding edges_page filter_clauses
    list_graph_edges-Allowed w rules req db after ids edges npt restricted h =
        page_Shown (Allowed ids) _ db after {edges = edges} {npt = npt}
          (λ rows token e.
            All-map
              (λ r met.
                all_hold-last (row r) [] (in_list "cloud_service_id" ids)
                  (sym (conds-all_hold (row r) none (false, ids)) ∙ (rw restricted at met)))
              rows
              (paginate_storage-All table row answers w req
                (join_and (allowed_clauses (authz.allowed_cloud_services ctx))) db
                default_pagination_opts rows {npt = token} e))
          (valid w rules req db after h)
