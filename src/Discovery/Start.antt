-- ===== src/Discovery/Start.antt =====
-- Start and Shutdown of service/discovery/discovery.go. The scheduler of gocron and the discoverers
-- of the providers with their clients are parameters.
pub mod Unique
pub mod Configured
pub mod Once
pub mod Life
mod Tests
use clouditor.Prelude.{ℕ, String, Option, none, some, List, [], ◌∷◌, ◌++◌, ◌==◌, if◌then◌else◌}
use clouditor.Status.{
  Error, Result, ok, err, panic, status, failed_precondition, invalid_argument, aborted,
  err_permission_denied,
}
use clouditor.Exec.{Exec, pure, raise, lift, gets, modify, require, map_err, ◌>>=◌, ◌>>◌}
use clouditor.Auth.{AuthorizationStrategy, access_update}
use clouditor.Validate.{Rules, validate}
use clouditor.Channels.{close_all}
use clouditor.Discovery.{Discoverer, Service}

-- gocron's scheduler over the state J of its jobs: TagsUnique, a job every so many seconds with one
-- tag, StartAsync and Stop.
pub record Scheduler (J R : Type 0) : Type 0 where
  pub tags_unique : J → J
  pub schedule : ℕ → String → Discoverer R → Exec J (Unit {0})
  pub start_async : J → J
  pub stop : J → J

pub data AzureOption (Au : Type 0) : Type 0 where
  with_authorizer : Au → AzureOption Au
  with_cloud_service_id with_resource_group : String → AzureOption Au

-- How the providers' clients are made, and their discoverers.
pub record Clouds (Au K Aw R : Type 0) : Type 0 where
  pub azure_authorizer : Result Au
  pub azure_discovery : List (AzureOption Au) → Discoverer R
  pub k8s_client : Result K
  pub k8s_compute : K → String → Discoverer R
  pub k8s_network : K → String → Discoverer R
  pub k8s_storage : K → String → Discoverer R
  pub aws_client : Result Aw
  pub aws_storage : Aw → String → Discoverer R
  pub aws_compute : Aw → String → Discoverer R

pub record StartRequest : Type 0 where
  pub resource_group : Option String

-- req.GetResourceGroup()
abbrev pub get_resource_group : StartRequest → String
get_resource_group req = elim req.resource_group [ none ↦ "" | some group ↦ group ]

unfoldable pub group_options : {Au : Type 0} → String → List (AzureOption Au)
group_options group = if group == "" then [] else with_resource_group group ∷ []

unfoldable pub azure_options : {Au : Type 0} → Au → String → String → List (AzureOption Au)
unfolding group_options
azure_options authorizer cs_id group =
    with_authorizer authorizer ∷ with_cloud_service_id cs_id ∷ group_options group

module _ {D S A J R : Type 0} where
  unfoldable pub add_discoverers : List (Discoverer R) → Exec (Service D S A J R) (Unit {0})
  add_discoverers more = modify (λ s. record s { discoverers = s.discoverers ++ more })

  abbrev pub on_jobs : Exec J (Unit {0}) → Exec (Service D S A J R) (Unit {0})
  on_jobs call s = let (r, jobs) = call s.jobs in (r, record s { jobs = jobs })

  -- What is done with a provider's client and the ID of the service, if there is a client.
  unfoldable pub with_client :
      {C B : Type 0}
      → String
      → Result C
      → (C → String → Exec (Service D S A J R) B)
      → Exec (Service D S A J R) B
  with_client text (ok client) next s = next client s.cs_id s
  with_client text (err e) next s = (err (status failed_precondition text), s)
  with_client text panic next s = (panic, s)

  module _ {Au K Aw : Type 0} (clouds : Clouds Au K Aw R) where
    unfoldable pub azure_added :
        String
        → List (AzureOption Au)
        → Au
        → String
        → Exec (Service D S A J R) (List (AzureOption Au))
    unfolding azure_options add_discoverers
    azure_added group opts authorizer cs_id = do
      add_discoverers (clouds.azure_discovery (opts ++ azure_options authorizer cs_id group) ∷ [])
      pure (opts ++ azure_options authorizer cs_id group)

    unfoldable pub add_azure :
        String → List (AzureOption Au) → Exec (Service D S A J R) (List (AzureOption Au))
    unfolding with_client azure_added
    add_azure group opts =
        with_client "could not authenticate to Azure" clouds.azure_authorizer
          (azure_added group opts)

    unfoldable pub add_k8s : Exec (Service D S A J R) (Unit {0})
    unfolding with_client add_discoverers
    add_k8s = with_client "could not authenticate to Kubernetes" clouds.k8s_client (λ client cs_id.
        add_discoverers (
          clouds.k8s_compute client cs_id
          ∷ clouds.k8s_network client cs_id
          ∷ clouds.k8s_storage client cs_id
          ∷ []))

    unfoldable pub add_aws : Exec (Service D S A J R) (Unit {0})
    unfolding with_client add_discoverers
    add_aws = with_client "could not authenticate to AWS" clouds.aws_client (λ client cs_id.
        add_discoverers (clouds.aws_storage client cs_id ∷ clouds.aws_compute client cs_id ∷ []))

    -- One turn of the loop over the providers, which may extend the options of Azure.
    unfoldable pub add_provider :
        String → String → List (AzureOption Au) → Exec (Service D S A J R) (List (AzureOption Au))
    unfolding add_azure add_k8s add_aws
    add_provider group provider opts =
        if provider == "azure"
        then add_azure group opts
        else if provider == "k8s"
        then add_k8s >> pure opts
        else if provider == "aws"
        then add_aws >> pure opts
        else raise (status invalid_argument "provider not known")

    unfoldable pub add_providers :
        String → List String → List (AzureOption Au) → Exec (Service D S A J R) (Unit {0})
    unfolding add_provider
    add_providers group [] opts = pure tt
    add_providers group (provider ∷ rest) opts = do
      more ← add_provider group provider opts
      add_providers group rest more

  module _ (scheduler : Scheduler J R) where
    unfoldable pub schedule_all : ℕ → List (Discoverer R) → Exec (Service D S A J R) (Unit {0})
    schedule_all interval [] = pure tt
    schedule_all interval (v ∷ rest) = do
      map_err (λ e. status aborted "could not schedule job")
          (on_jobs (scheduler.schedule interval v.name v))
      schedule_all interval rest

    unfoldable pub schedule_discoverers : Exec (Service D S A J R) (Unit {0})
    unfolding schedule_all
    schedule_discoverers = do
      discoverers ← gets (λ s. s.discoverers)
      interval ← gets (λ s. s.discovery_interval)
      schedule_all interval discoverers
      modify (λ s. record s { jobs = scheduler.start_async s.jobs })

    unfoldable pub shutdown : Exec (Service D S A J R) (Unit {0})
    unfolding close_all
    shutdown = do
      streams ← gets (λ s. s.assessment_streams)
      lift (close_all streams)
      modify (λ s. record s { jobs = scheduler.stop s.jobs })

    module _ {Au K Aw : Type 0} (clouds : Clouds Au K Aw R) where
      unfoldable pub configure : String → Exec (Service D S A J R) (Unit {0})
      unfolding add_providers
      configure group = do
        modify (λ s. record s { jobs = scheduler.tags_unique s.jobs })
        providers ← gets (λ s. s.providers)
        add_providers clouds group providers []

      -- What Start does with a valid request.
      unfoldable pub start_valid :
          {Ctx : Type 0}
          → AuthorizationStrategy Ctx
          → Option Ctx
          → StartRequest
          → Exec (Service D S A J R) (Unit {0})
      unfolding configure schedule_discoverers
      start_valid authz ctx req = do
        cs_id ← gets (λ s. s.cs_id)
        require (authz.check_access ctx access_update cs_id) err_permission_denied
        configure (get_resource_group req)
        schedule_discoverers

      unfoldable pub start :
          {Ctx : Type 0}
          → AuthorizationStrategy Ctx
          → Rules StartRequest
          → Option Ctx
          → Option StartRequest
          → Exec (Service D S A J R) (Unit {0})
      unfolding validate start_valid
      start authz rules ctx request =
          lift (validate rules request) >>= λ req. start_valid authz ctx req
