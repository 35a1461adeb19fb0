-- ===== src/Orchestrator/CloudService.antt =====
-- Cloud services: service/orchestrator/cloud_service.go. A hook is a name; informing it is written
-- down, at once, where the code starts a goroutine for it. The new ID and the time of a call are
-- arguments.
pub mod Guards
pub mod Default
mod Tests
use clouditor.Prelude.{
  ℕ, String, Bool, true, false, not, Option, none, some, List, [], ◌∷◌, ◌++◌, map, length, ◌==ℕ◌,
  if◌then◌else◌,
}
use clouditor.Status.{
  Error, Result, ok, err, panic, status, wrapped, not_found, internal, err_permission_denied,
  is_record_not_found,
}
use clouditor.Exec.{Exec, pure, raise, lift, gets, modify, require, map_err, ◌>>=◌, ◌>>◌}
use clouditor.Auth.{AuthorizationStrategy, access_read, access_update, access_delete}
use clouditor.Validate.{Rules, validate}
use clouditor.Query.{equals, in_list, atom}
use clouditor.Storage.{Table, Conds}
use clouditor.Page.{PageRequest, Wire, paginate_storage, default_pagination_opts}

pub record Metadata : Type 0 where
  pub labels : List (String × String)
  pub icon : Option String

pub record CloudService : Type 0 where
  pub id : String
  pub name : String
  pub description : String
  pub catalogs_in_scope : List String
  pub created_at : ℕ
  pub updated_at : ℕ
  pub metadata : Option Metadata

-- RegisterCloudServiceRequest and UpdateCloudServiceRequest
pub record ServiceRequest : Type 0 where
  pub cloud_service : CloudService

-- GetCloudServiceRequest, RemoveCloudServiceRequest and GetCloudServiceStatisticsRequest
pub record IdRequest : Type 0 where
  pub cloud_service_id : String

pub record Statistics : Type 0 where
  pub number_of_selected_catalogs : ℕ
  pub number_of_discovered_resources : ℕ
  pub number_of_evidences : ℕ
  pub number_of_assessment_results : ℕ

pub record Service (D H : Type 0) : Type 0 where
  pub db : D
  pub cloud_service_hooks : List H
  -- the calls of hooks so far; `none` is nil
  pub informed : List (H × Option CloudService)

abbrev pub empty_metadata : Metadata
empty_metadata = record { labels = []; icon = none }

abbrev pub metadata_of : Option Metadata → Metadata
metadata_of none = empty_metadata
metadata_of (some m) = m

-- The service that RegisterCloudService stores.
unfoldable pub registered : CloudService → String → ℕ → CloudService
registered given fresh now = record {
  id = fresh;
  name = given.name;
  description = given.description;
  catalogs_in_scope = [];
  created_at = now;
  updated_at = now;
  metadata = some (metadata_of given.metadata);
}

unfoldable pub default_service : ℕ → CloudService
default_service now = record {
  id = "00000000-0000-0000-0000-000000000000";
  name = "default";
  description = "The default target cloud service";
  catalogs_in_scope = [];
  created_at = now;
  updated_at = now;
  metadata = none;
}

unfoldable pub allowed_conds : Bool × List String → Conds
allowed_conds (true, allowed) = []
allowed_conds (false, allowed) = atom (in_list "id" allowed) ∷ []

abbrev pub database_error : Error → Error
database_error e = status internal "database error"

unfoldable pub service_error : Error → Error
service_error e =
    if is_record_not_found e
    then status not_found "service not found"
    else status internal "database error"

unfoldable pub inform_hooks : {D H : Type 0} → Option CloudService → Exec (Service D H) (Unit {0})
inform_hooks cld =
    modify (λ s. record s { informed = s.informed ++ map (λ h. (h, cld)) s.cloud_service_hooks })

unfoldable pub register_cloud_service_hook : {D H : Type 0} → H → Exec (Service D H) (Unit {0})
register_cloud_service_hook hook =
    modify (λ s. record s { cloud_service_hooks = s.cloud_service_hooks ++ hook ∷ [] })

module _ {D H : Type 0} (table : Table D CloudService) where
  -- A call that writes to the database.
  abbrev pub on_db : Exec D (Unit {0}) → Exec (Service D H) (Unit {0})
  on_db call s = let (r, db') = call s.db in (r, record s { db = db' })

  -- What is done once the services have been counted; `none` is the nil that is returned if there
  -- are some.
  unfoldable pub create_if_none : ℕ → ℕ → Exec (Service D H) (Option CloudService)
  create_if_none now count =
      if count ==ℕ 0
      then map_err (λ e. wrapped "storage error" e) (on_db (table.create (default_service now)))
        >> pure (some (default_service now))
      else pure none

  unfoldable pub create_default_target_cloud_service : ℕ → Exec (Service D H) (Option CloudService)
  unfolding create_if_none
  create_default_target_cloud_service now = do
    db ← gets (λ s. s.db)
    count ← map_err (λ e. wrapped "storage error" e) (lift (table.count [] db))
    create_if_none now count

  unfoldable pub register_cloud_service :
      Rules ServiceRequest → String → ℕ → Option ServiceRequest → Exec (Service D H) CloudService
  unfolding validate inform_hooks registered
  register_cloud_service rules fresh now request = do
    req ← lift (validate rules request)
    let res = registered req.cloud_service fresh now
    map_err (λ e. status internal "could not add cloud service to the database")
        (on_db (table.create res))
    inform_hooks (some res)
    pure res

  module _ {Ctx : Type 0} (authz : AuthorizationStrategy Ctx) where
    unfoldable pub list_cloud_services :
        Wire
        → Rules PageRequest
        → Option Ctx
        → Option PageRequest
        → Exec (Service D H) (List CloudService × String)
    unfolding validate allowed_conds
    list_cloud_services w rules ctx request = do
      req ← lift (validate rules request)
      db ← gets (λ s. s.db)
      map_err (λ e. status internal "could not paginate results")
          (lift (
            paginate_storage w req
              (table.list (allowed_conds (authz.allowed_cloud_services ctx)) db)
              default_pagination_opts))

    unfoldable pub get_cloud_service :
        Rules IdRequest → Option Ctx → Option IdRequest → Exec (Service D H) CloudService
    unfolding validate service_error
    get_cloud_service rules ctx request = do
      req ← lift (validate rules request)
      require (authz.check_access ctx access_read req.cloud_service_id) err_permission_denied
      db ← gets (λ s. s.db)
      map_err service_error (lift (table.get (atom (equals "Id" req.cloud_service_id) ∷ []) db))

    unfoldable pub update_cloud_service :
        Rules ServiceRequest
        → ℕ
        → Option Ctx
        → Option ServiceRequest
        → Exec (Service D H) CloudService
    unfolding validate inform_hooks
    update_cloud_service rules now ctx request = do
      req ← lift (validate rules request)
      require (authz.check_access ctx access_update req.cloud_service.id) err_permission_denied
      db ← gets (λ s. s.db)
      count ←
          map_err database_error
            (lift (table.count (atom (equals "id" req.cloud_service.id) ∷ []) db))
      require (not (count ==ℕ 0)) (status not_found "service not found")
      let res = record req.cloud_service { updated_at = now }
      map_err database_error (on_db (table.save res (atom (equals "Id" req.cloud_service.id) ∷ [])))
      inform_hooks (some res)
      pure res

    unfoldable pub remove_cloud_service :
        Rules IdRequest → Option Ctx → Option IdRequest → Exec (Service D H) (Unit {0})
    unfolding validate inform_hooks service_error
    remove_cloud_service rules ctx request = do
      req ← lift (validate rules request)
      require (authz.check_access ctx access_delete req.cloud_service_id) err_permission_denied
      map_err service_error (on_db (table.delete (atom (equals "id" req.cloud_service_id) ∷ [])))
      inform_hooks none

    -- The counts of the other tables are arguments: resources, evidences and assessment results.
    unfoldable pub get_cloud_service_statistics :
        (Conds → D → Result ℕ)
        → (Conds → D → Result ℕ)
        → (Conds → D → Result ℕ)
        → Rules IdRequest
        → Option Ctx
        → Option IdRequest
        → Exec (Service D H) Statistics
    unfolding validate
    get_cloud_service_statistics resources evidences results rules ctx request = do
      req ← lift (validate rules request)
      require (authz.check_access ctx access_read req.cloud_service_id) err_permission_denied
      db ← gets (λ s. s.db)
      cld ←
          map_err service_error (lift (table.get (atom (equals "Id" req.cloud_service_id) ∷ []) db))
      let conds = atom (equals "cloud_service_id" req.cloud_service_id) ∷ []
      n ← map_err database_error (lift (resources conds db))
      m ← map_err database_error (lift (evidences conds db))
      k ← map_err database_error (lift (results conds db))
      pure (record {
        number_of_selected_catalogs = length cld.catalogs_in_scope;
        number_of_discovered_resources = n;
        number_of_evidences = m;
        number_of_assessment_results = k;
      })
