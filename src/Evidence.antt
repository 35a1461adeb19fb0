-- ===== src/Evidence.antt =====
-- The evidence store: service/evidence/evidence_store.go, with the messages of
-- api/evidence/evidence.proto and api/evidence/evidence_store.proto. A hook is a name, and the calls of
-- hooks are written down. `go svc.informHooks(...)` adds the evidence to those whose goroutines have been
-- started; Evidence/Informed runs these goroutines.
pub mod Stored
pub mod Informed
pub mod Access
mod Tests
use clouditor.Prelude.{
  ℕ, String, Bool, true, false, not, ◌&&◌, Option, none, some, List, [], ◌∷◌, ◌++◌, map, ◌==◌,
  contains, if◌then◌else◌,
}
use clouditor.Status.{
  Error, Result, ok, err, panic, status, not_found, internal, already_exists, err_permission_denied,
  is_record_not_found, is_unique_constraint_failed,
}
use clouditor.Exec.{Exec, pure, raise, lift, gets, modify, require, map_err, ◌>>=◌, ◌>>◌}
use clouditor.Auth.{AuthorizationStrategy, access_update}
use clouditor.Validate.{Rules, validate}
use clouditor.Query.{Atom, equals, in_list, atom, and, Clause, join_and, allowed_clauses}
use clouditor.Storage.{Table, Conds}
use clouditor.Page.{PageRequest, Wire, paginate_storage, default_pagination_opts}
use clouditor.Stream.{Turn, Outcome, serve}

pub record Evidence : Type 0 where
  pub id : String
  pub timestamp : ℕ
  pub cloud_service_id : String
  pub tool_id : String

pub record StoreRequest : Type 0 where
  pub evidence : Evidence

-- The getters of a filter: "" for what is not set.
pub record Filter : Type 0 where
  pub cloud_service_id : String
  pub tool_id : String

pub record ListRequest : Type 0 where
  pub filter : Option Filter
  pub page : PageRequest

pub record GetRequest : Type 0 where
  pub evidence_id : String

pub record Service (D H : Type 0) : Type 0 where
  pub db : D
  pub evidence_hooks : List H
  -- the evidences whose goroutines of informHooks have been started and have not run
  pub started : List Evidence
  -- the calls of hooks so far
  pub informed : List (H × Evidence)

-- `req.GetFilter().GetCloudServiceId()`
abbrev pub filter_service : Option Filter → String
filter_service none = ""
filter_service (some f) = f.cloud_service_id

-- `!all && id != "" && !slices.Contains(allowed, id)`
unfoldable pub is_denied : Bool × List String → String → Bool
is_denied (all, allowed) id = not all && (not (id == "") && not (contains allowed id))

abbrev pub when_text : String → (String → Atom) → List Clause
when_text s f = if s == "" then [] else ((atom (f s) ∷ []) ∷ [])

unfoldable pub filter_clauses : Option Filter → List Clause
filter_clauses none = []
filter_clauses (some f) =
    when_text f.cloud_service_id (equals "cloud_service_id")
    ++ when_text f.tool_id (equals "tool_id")

unfoldable pub get_conds : Bool × List String → String → Conds
get_conds (true, allowed) id = atom (equals "id" id) ∷ []
get_conds (false, allowed) id =
    atom (equals "id" id) ∷ and ∷ atom (in_list "cloud_service_id" allowed) ∷ []

unfoldable pub store_error : Error → Error
store_error e =
    if is_unique_constraint_failed e
    then status already_exists "entry already exists"
    else status internal "database error"

unfoldable pub get_error : Error → Error
get_error e =
    if is_record_not_found e
    then status not_found "evidence not found"
    else status internal "database error"

-- The calls that one evidence gives rise to.
abbrev pub calls : {H : Type 0} → List H → Evidence → List (H × Evidence)
calls hooks ev = map (λ h. (h, ev)) hooks

module _ {D H : Type 0} where
  -- The body of the goroutine, under the lock of the hooks.
  unfoldable pub inform_hooks : Evidence → Exec (Service D H) (Unit {0})
  inform_hooks ev = modify (λ s. record s { informed = s.informed ++ calls s.evidence_hooks ev })

  -- go svc.informHooks(ctx, req.Evidence, nil)
  unfoldable pub go_inform_hooks : Evidence → Exec (Service D H) (Unit {0})
  go_inform_hooks ev = modify (λ s. record s { started = s.started ++ ev ∷ [] })

  unfoldable pub register_evidence_hook : H → Exec (Service D H) (Unit {0})
  register_evidence_hook hook =
      modify (λ s. record s { evidence_hooks = s.evidence_hooks ++ hook ∷ [] })

  module _ {Ctx : Type 0} (authz : AuthorizationStrategy Ctx) (table : Table D Evidence) where
    abbrev pub create : Evidence → Exec (Service D H) (Unit {0})
    create ev s = let (r, db') = table.create ev s.db in (r, record s { db = db' })

    unfoldable pub store_evidence :
        Rules StoreRequest → Option Ctx → Option StoreRequest → Exec (Service D H) (Unit {0})
    unfolding validate go_inform_hooks
    store_evidence rules ctx request = do
      req ← lift (validate rules request)
      require (authz.check_access ctx access_update req.evidence.cloud_service_id)
          err_permission_denied
      map_err store_error (create req.evidence)
      go_inform_hooks req.evidence

    unfoldable pub store_evidences :
        Rules StoreRequest
        → Option Ctx
        → List (Turn StoreRequest)
        → Service D H
        → Outcome (Service D H)
    store_evidences rules ctx turns = serve (store_evidence rules ctx) turns

    unfoldable pub list_evidences :
        Wire
        → Rules ListRequest
        → Option Ctx
        → Option ListRequest
        → Exec (Service D H) (List Evidence × String)
    unfolding validate is_denied
    list_evidences w rules ctx request = do
      req ← lift (validate rules request)
      require (not (is_denied (authz.allowed_cloud_services ctx) (filter_service req.filter)))
          err_permission_denied
      db ← gets (λ s. s.db)
      map_err (λ e. status internal "could not paginate results")
          (lift (
            paginate_storage w req.page
              (table.list
                (join_and
                  (filter_clauses req.filter ++ allowed_clauses (authz.allowed_cloud_services ctx)))
                db)
              default_pagination_opts))

    unfoldable pub get_evidence :
        Rules GetRequest → Option Ctx → Option GetRequest → Exec (Service D H) Evidence
    unfolding validate
    get_evidence rules ctx request = do
      req ← lift (validate rules request)
      db ← gets (λ s. s.db)
      map_err get_error
          (lift (table.get (get_conds (authz.allowed_cloud_services ctx) req.evidence_id) db))
