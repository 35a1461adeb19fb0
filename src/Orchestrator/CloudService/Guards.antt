-- ===== src/Orchestrator/CloudService/Guards.antt =====
-- Who may read, change and remove a cloud service, and what an update stores.
use clouditor.Prelude.{ℕ, ◌≡◌, ◌≢◌, true, false, Option, none, some, [], ◌∷◌, ◌++◌, map, arith}
use clouditor.Status.{ok, err, err_permission_denied}
use clouditor.Auth.{AuthorizationStrategy, access_read, access_update, access_delete}
use clouditor.Validate.{Rules}
use clouditor.Query.{equals, atom}
use clouditor.Storage.{Table}
use clouditor.Orchestrator.CloudService.{
  CloudService, ServiceRequest, IdRequest, Service, get_cloud_service, update_cloud_service,
  remove_cloud_service,
}

module _ {D H Ctx : Type 0} (table : Table D CloudService) (authz : AuthorizationStrategy Ctx)
    (ctx : Option Ctx) where
  -- A caller without the access that the call needs can neither read nor remove nor update a cloud
  -- service: each call with a valid request fails with ErrPermissionDenied and changes nothing.
  pub cloud_service-denied :
      (ids : Rules IdRequest) (services : Rules ServiceRequest) (now : ℕ) (req : IdRequest)
      (update : ServiceRequest) (s : Service D H)
      → ids req ≡ none
      → services update ≡ none
      → authz.check_access ctx access_read req.cloud_service_id ≡ false
      → authz.check_access ctx access_delete req.cloud_service_id ≡ false
      → authz.check_access ctx access_update update.cloud_service.id ≡ false
      → (get_cloud_service table authz ids ctx (some req) s ≡ (err err_permission_denied, s))
        × (remove_cloud_service table authz ids ctx (some req) s ≡ (err err_permission_denied, s))
        × (update_cloud_service table authz services now ctx (some update) s
            ≡ (err err_permission_denied, s))
  unfolding get_cloud_service remove_cloud_service update_cloud_service
  cloud_service-denied ids services now req update s valid valid' read remove change =
      (ground arith, ground arith, ground arith)

  -- What has been checked and done when a cloud service has been updated.
  pub record Updated (rules : Rules ServiceRequest) (now : ℕ) (req : ServiceRequest)
      (s t : Service D H) (res : CloudService) : Type 0 where
    pub valid : rules req ≡ none
    pub access : authz.check_access ctx access_update req.cloud_service.id ≡ true
    pub known : table.count (atom (equals "id" req.cloud_service.id) ∷ []) s.db ≢ ok 0
    pub result : res ≡ record req.cloud_service { updated_at = now }
    pub written :
        table.save
          (record req.cloud_service { updated_at = now })
          (atom (equals "Id" req.cloud_service.id) ∷ [])
          s.db
        ≡ (ok tt, t.db)
    pub informed : t.informed ≡ s.informed ++ map (λ h. (h, some res)) s.cloud_service_hooks

  -- A cloud service is updated only for a valid request of a caller with access and only if the
  -- database has one with its ID; it is saved as given with the new time, and every hook is informed
  -- of it once.
  pub update_cloud_service-Updated :
      (rules : Rules ServiceRequest) (now : ℕ) (req : ServiceRequest) (s t : Service D H)
      (res : CloudService)
      → update_cloud_service table authz rules now ctx (some req) s ≡ (ok res, t)
      → Updated rules now req s t res
  unfolding update_cloud_service
  update_cloud_service-Updated rules now req s t res h = record {
    valid = ground arith;
    access = ground arith;
    known = λ e. ground arith;
    result = ground arith;
    written = ground arith;
    informed = ground arith;
  }
