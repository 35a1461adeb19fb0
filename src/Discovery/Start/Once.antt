-- ===== src/Discovery/Start/Once.antt =====
-- A second call of Start, in service/discovery/discovery.go.
use clouditor.Prelude.{String, ◌≡◌, ◌≢◌, ap, Bool, Option, none, some, List, [], ◌∷◌, ◌++◌, arith}
use clouditor.Status.{err_permission_denied, ok}
use clouditor.Exec.{lift, require, ◌>>◌}
use clouditor.Exec.Keeps.{Keeps, Keeps-bind, Keeps-require}
use clouditor.Validate.{validate}
use clouditor.Discovery.Start.Unique.{
  Unique, Blocked, Blocked-schedule_discoverers, schedule_discoverers-first,
  schedule_discoverers-refused,
}
use clouditor.Discovery.Start.Configured.{Keeps-add_providers, is_unique-configure}
use clouditor.Auth.{access_update, AuthorizationStrategy}
use clouditor.Validate.{Rules}
use clouditor.Discovery.{Discoverer, Service}
use clouditor.Discovery.Start.{
  Scheduler, Clouds, StartRequest, get_resource_group, start_valid, add_discoverers,
  schedule_discoverers, configure, start,
}

module _ {D S A J R Au K Aw Ctx : Type 0} (scheduler : Scheduler J R) (is_unique : J → Bool)
    (has_tag : String → J → Bool) (unique : Unique scheduler is_unique has_tag)
    (clouds : Clouds Au K Aw R) (authz : AuthorizationStrategy Ctx) (rules : Rules StartRequest)
    (ctx : Option Ctx) where
  start-parts :
      (request : Option StartRequest) (s t : Service D S A J R)
      → start scheduler clouds authz rules ctx request s ≡ (ok tt, t)
      → (group : String) × (schedule_discoverers scheduler (configure scheduler clouds group s).1
          ≡ (ok tt, t))
  unfolding start start_valid
  start-parts none s t h = ground arith
  start-parts (some req) s t h =
      (elim req.resource_group [ none ↦ "" | some group ↦ group ], ground arith)

  Blocked-add_discoverers :
      (first : Discoverer R) (more : List (Discoverer R))
      → Keeps (Blocked {D = D} {S = S} {A = A} has_tag first) (add_discoverers more)
  unfolding add_discoverers
  Blocked-add_discoverers first more = record {
    keeps = λ s h. record {
      rest = h.rest ++ more;
      front = ap (λ ds. ds ++ more) h.front;
      tagged = h.tagged;
    };
  }

  Blocked-configure :
      (first : Discoverer R) (group : String)
      → Keeps (Blocked {D = D} {S = S} {A = A} has_tag first) (configure scheduler clouds group)
  unfolding configure
  Blocked-configure first group = record {
    keeps = λ s h.
        (Keeps-add_providers clouds (Blocked has_tag first) (Blocked-add_discoverers first) group
            s.providers []).keeps
          (record s { jobs = scheduler.tags_unique s.jobs })
          (record {
            rest = h.rest;
            front = h.front;
            tagged = unique.kept_by_tags_unique s.jobs first.name h.tagged;
          });
  }

  Blocked-start_valid :
      (first : Discoverer R) (req : StartRequest)
      → Keeps
          (Blocked {D = D} {S = S} {A = A} has_tag first)
          (start_valid scheduler clouds authz ctx req)
  unfolding start_valid
  Blocked-start_valid first req = record {
    keeps = λ s h.
        (Keeps-bind (Blocked has_tag first)
            (require (authz.check_access ctx access_update s.cs_id) err_permission_denied)
            (λ u.
              configure scheduler clouds (get_resource_group req) >> schedule_discoverers scheduler)
            (Keeps-require (Blocked has_tag first) (authz.check_access ctx access_update s.cs_id)
              err_permission_denied)
            (λ u.
              Keeps-bind (Blocked has_tag first)
                (configure scheduler clouds (get_resource_group req))
                (λ u. schedule_discoverers scheduler)
                (Blocked-configure first (get_resource_group req))
                (λ u. Blocked-schedule_discoverers scheduler is_unique has_tag unique first))).keeps
          s h;
  }

  pub Blocked-start :
      (first : Discoverer R) (request : Option StartRequest)
      → Keeps
          (Blocked {D = D} {S = S} {A = A} has_tag first)
          (start scheduler clouds authz rules ctx request)
  unfolding start
  Blocked-start first request =
      Keeps-bind (Blocked has_tag first) (lift (validate rules request))
        (start_valid scheduler clouds authz ctx) (record { keeps = λ s h. h })
        (λ req. Blocked-start_valid first req)

  pub start-Blocked :
      (first : Discoverer R) (rest : List (Discoverer R)) (request : Option StartRequest)
      (s t : Service D S A J R)
      → start scheduler clouds authz rules ctx request s ≡ (ok tt, t)
      → t.discoverers ≡ first ∷ rest
      → Blocked has_tag first t
  start-Blocked first rest request s t h front =
      let parts = start-parts request s t h in
      schedule_discoverers-first scheduler is_unique has_tag unique first rest
        (configure scheduler clouds parts.0 s).1 t
        (is_unique-configure clouds scheduler is_unique unique.set parts.0 s) front parts.1

  pub start-refused :
      (first : Discoverer R) (request : Option StartRequest) (s t : Service D S A J R)
      → Blocked has_tag first s
      → start scheduler clouds authz rules ctx request s ≢ (ok tt, t)
  start-refused first request s t b h =
      let parts = start-parts request s t h in
      schedule_discoverers-refused scheduler is_unique has_tag unique first
        (configure scheduler clouds parts.0 s).1 t ((Blocked-configure first parts.0).keeps s b)
        parts.1
