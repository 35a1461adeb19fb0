-- ===== src/Discovery/Start/Unique.antt =====
-- The scheduling of the discoverers' jobs, in service/discovery/discovery.go.
use mathlib.Core.Path.{subst}
use clouditor.Prelude.{String, ◌≡◌, ◌≢◌, refl, sym, ap, ◌∙◌, Bool, true, ℕ, List, [], ◌∷◌, arith}
use clouditor.Status.{ok, status, aborted}
use clouditor.Exec.{modify, map_err}
use clouditor.Exec.Keeps.{Keeps, Keeps-bind}
use clouditor.Discovery.{Discoverer, Service}
use clouditor.Discovery.Start.{Scheduler, schedule_all, schedule_discoverers, on_jobs}

-- What gocron promises of unique tags: after TagsUnique a scheduled job registers its tag, a job
-- with a registered tag is refused, and nothing that is called here takes a tag off.
pub record Unique {J R : Type 0} (scheduler : Scheduler J R) (is_unique : J → Bool)
    (has_tag : String → J → Bool) : Type 0 where
  pub set : (j : J) → is_unique (scheduler.tags_unique j) ≡ true
  pub registered :
      (i : ℕ) (v : Discoverer R) (j : J)
      → is_unique j ≡ true
      → (scheduler.schedule i v.name v j).0 ≡ ok tt
      → has_tag v.name (scheduler.schedule i v.name v j).1 ≡ true
  pub refused :
      (i : ℕ) (v : Discoverer R) (j : J)
      → has_tag v.name j ≡ true
      → (scheduler.schedule i v.name v j).0 ≢ ok tt
  pub kept_by_schedule :
      (i : ℕ) (v : Discoverer R) (j : J) (tag : String)
      → has_tag tag j ≡ true
      → has_tag tag (scheduler.schedule i v.name v j).1 ≡ true
  pub kept_by_tags_unique :
      (j : J) (tag : String) → has_tag tag j ≡ true → has_tag tag (scheduler.tags_unique j) ≡ true
  pub kept_by_start_async :
      (j : J) (tag : String) → has_tag tag j ≡ true → has_tag tag (scheduler.start_async j) ≡ true
  pub kept_by_stop :
      (j : J) (tag : String) → has_tag tag j ≡ true → has_tag tag (scheduler.stop j) ≡ true

-- `first` is the first discoverer, and its name is registered as a tag.
pub record Blocked {D S A J R : Type 0} (has_tag : String → J → Bool) (first : Discoverer R)
    (s : Service D S A J R) : Type 0 where
  pub rest : List (Discoverer R)
  pub front : s.discoverers ≡ first ∷ rest
  pub tagged : has_tag first.name s.jobs ≡ true

-- The discoverers are these.
record Listed {D S A J R : Type 0} (vs : List (Discoverer R)) (s : Service D S A J R) : Type 0 where
  listed : s.discoverers ≡ vs

module _ {D S A J R : Type 0} (scheduler : Scheduler J R) (is_unique : J → Bool)
    (has_tag : String → J → Bool) (unique : Unique scheduler is_unique has_tag) where
  Blocked-schedule_all :
      (first : Discoverer R) (i : ℕ) (vs : List (Discoverer R))
      → Keeps (Blocked {D = D} {S = S} {A = A} has_tag first) (schedule_all scheduler i vs)
  unfolding schedule_all
  Blocked-schedule_all first i [] = record { keeps = λ s h. h }
  Blocked-schedule_all first i (v ∷ vs) =
      Keeps-bind (Blocked has_tag first)
        (map_err (λ e. status aborted "could not schedule job")
          (on_jobs (scheduler.schedule i v.name v)))
        (λ u. schedule_all scheduler i vs)
        (record {
          keeps = λ s h. record {
            rest = h.rest;
            front = h.front;
            tagged = unique.kept_by_schedule i v s.jobs first.name h.tagged;
          };
        })
        (λ u. Blocked-schedule_all first i vs)

  -- A job that cannot be scheduled ends the loop.
  schedule_all-first :
      (i : ℕ) (v : Discoverer R) (vs : List (Discoverer R)) (s : Service D S A J R) (u : Unit {0})
      → (schedule_all scheduler i (v ∷ vs) s).0 ≡ ok u
      → (scheduler.schedule i v.name v s.jobs).0 ≡ ok tt
  unfolding schedule_all
  schedule_all-first i v vs s u h = ground arith

  schedule_all-rest :
      (i : ℕ) (v : Discoverer R) (vs : List (Discoverer R)) (s : Service D S A J R)
      → (scheduler.schedule i v.name v s.jobs).0 ≡ ok tt
      → schedule_all scheduler i (v ∷ vs) s
        ≡ schedule_all scheduler i vs (record s { jobs = (scheduler.schedule i v.name v s.jobs).1 })
  unfolding schedule_all
  schedule_all-rest i v vs s h = ground arith

  schedule_discoverers-parts :
      (vs : List (Discoverer R)) (s t : Service D S A J R)
      → s.discoverers ≡ vs
      → schedule_discoverers scheduler s ≡ (ok tt, t)
      → ((schedule_all scheduler s.discovery_interval vs s).0 ≡ ok tt)
        × (record (schedule_all scheduler s.discovery_interval vs s).1 {
          jobs = scheduler.start_async (schedule_all scheduler s.discovery_interval vs s).1.jobs;
        }
            ≡ t)
  unfolding schedule_discoverers
  schedule_discoverers-parts vs s t front h = (ground arith, ground arith)

  Blocked-start_async :
      (first : Discoverer R) (s : Service D S A J R)
      → Blocked has_tag first s
      → Blocked has_tag first (record s { jobs = scheduler.start_async s.jobs })
  Blocked-start_async first s b = record {
    rest = b.rest;
    front = b.front;
    tagged = unique.kept_by_start_async s.jobs first.name b.tagged;
  }

  schedule_discoverers-Blocked :
      (first : Discoverer R) (rest : List (Discoverer R)) (s t : Service D S A J R)
      → is_unique s.jobs ≡ true
      → s.discoverers ≡ first ∷ rest
      → schedule_discoverers scheduler s ≡ (ok tt, t)
      → Blocked has_tag first t
  schedule_discoverers-Blocked first rest s t u front h =
      let i = s.discovery_interval in
      let parts = schedule_discoverers-parts (first ∷ rest) s t front h in
      let scheduled = schedule_all-first i first rest s tt parts.0 in
      let once = record s { jobs = (scheduler.schedule i first.name first s.jobs).1 } in
      subst (Blocked has_tag first) parts.1 (
        Blocked-start_async first (schedule_all scheduler i (first ∷ rest) s).1 (
          subst (λ out. Blocked has_tag first out.1)
            (sym (schedule_all-rest i first rest s scheduled))
            ((Blocked-schedule_all first i rest).keeps once (record {
              rest = rest;
              front = front;
              tagged = unique.registered i first s.jobs u scheduled;
            }))))

  pub schedule_discoverers-refused :
      (first : Discoverer R) (s t : Service D S A J R)
      → Blocked has_tag first s
      → schedule_discoverers scheduler s ≢ (ok tt, t)
  schedule_discoverers-refused first s t b h =
      unique.refused s.discovery_interval first s.jobs b.tagged (
        schedule_all-first s.discovery_interval first b.rest s tt
          (schedule_discoverers-parts (first ∷ b.rest) s t b.front h).0)

  pub Blocked-schedule_discoverers :
      (first : Discoverer R)
      → Keeps (Blocked {D = D} {S = S} {A = A} has_tag first) (schedule_discoverers scheduler)
  unfolding schedule_discoverers
  Blocked-schedule_discoverers first = record {
    keeps = λ s h.
        (Keeps-bind (Blocked has_tag first)
            (schedule_all scheduler s.discovery_interval s.discoverers)
            (λ u. modify (λ s. record s { jobs = scheduler.start_async s.jobs }))
            (Blocked-schedule_all first s.discovery_interval s.discoverers)
            (λ u. record { keeps = Blocked-start_async first })).keeps
          s h;
  }

  Listed-schedule_all :
      (all : List (Discoverer R)) (i : ℕ) (vs : List (Discoverer R))
      → Keeps (Listed {D = D} {S = S} {A = A} all) (schedule_all scheduler i vs)
  unfolding schedule_all
  Listed-schedule_all all i [] = record { keeps = λ s h. h }
  Listed-schedule_all all i (v ∷ vs) =
      Keeps-bind (Listed all)
        (map_err (λ e. status aborted "could not schedule job")
          (on_jobs (scheduler.schedule i v.name v)))
        (λ u. schedule_all scheduler i vs) (record { keeps = λ s h. record { listed = h.listed } })
        (λ u. Listed-schedule_all all i vs)

  discoverers-schedule_discoverers :
      (s t : Service D S A J R)
      → schedule_discoverers scheduler s ≡ (ok tt, t)
      → t.discoverers ≡ s.discoverers
  discoverers-schedule_discoverers s t h =
      sym (ap (λ u. u.discoverers) (schedule_discoverers-parts s.discoverers s t refl h).1)
      ∙ ((Listed-schedule_all s.discoverers s.discovery_interval s.discoverers).keeps s
          (record { listed = refl })).listed

  pub schedule_discoverers-first :
      (first : Discoverer R) (rest : List (Discoverer R)) (s t : Service D S A J R)
      → is_unique s.jobs ≡ true
      → t.discoverers ≡ first ∷ rest
      → schedule_discoverers scheduler s ≡ (ok tt, t)
      → Blocked has_tag first t
  schedule_discoverers-first first rest s t u front h =
      schedule_discoverers-Blocked first rest s t u
        (sym (discoverers-schedule_discoverers s t h) ∙ front) h
