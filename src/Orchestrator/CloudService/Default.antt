-- ===== src/Orchestrator/CloudService/Default.antt =====
-- The default target cloud service.
use clouditor.Prelude.{ℕ, suc, ◌≡◌, none, some, [], arith}
use clouditor.Status.{ok}
use clouditor.Storage.{Table}
use clouditor.Orchestrator.CloudService.{
  CloudService, Service, default_service, create_default_target_cloud_service,
}

module _ {D H : Type 0} (table : Table D CloudService) where
  created :
      (now : ℕ) (s t : Service D H) (cld : CloudService)
      → create_default_target_cloud_service table now s ≡ (ok (some cld), t)
      → table.create (default_service now) s.db ≡ (ok tt, t.db)
  unfolding create_default_target_cloud_service
  created now s t cld h = ground arith

  kept :
      (now n : ℕ) (t : Service D H)
      → table.count [] t.db ≡ ok (suc n)
      → create_default_target_cloud_service table now t ≡ (ok none, t)
  unfolding create_default_target_cloud_service
  kept now n t h = ground arith

  -- The default cloud service is created at most once: after a call has created it, a later call
  -- creates nothing and changes nothing, if a database in which a record has been created counts at
  -- least one.
  pub create_default_target_cloud_service-once :
      (counts : (r : CloudService) (db db' : D)
        → table.create r db ≡ (ok tt, db')
        → (n : ℕ) × (table.count [] db' ≡ ok (suc n)))
      (now later : ℕ) (s t : Service D H) (cld : CloudService)
      → create_default_target_cloud_service table now s ≡ (ok (some cld), t)
      → create_default_target_cloud_service table later t ≡ (ok none, t)
  create_default_target_cloud_service-once counts now later s t cld h =
      let (n, counted) = counts (default_service now) s.db t.db (created now s t cld h) in
      kept later n t counted
