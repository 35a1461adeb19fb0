-- ===== src/Discovery/Start/Configured.antt =====
-- What the loop over the providers leaves alone, in service/discovery/discovery.go.
use clouditor.Prelude.{String, ◌≡◌, Bool, true, false, List, [], ◌∷◌, ◌==◌, if◌then◌else◌}
use clouditor.Status.{Result, ok, err, panic}
use clouditor.Exec.{Exec, pure}
use clouditor.Exec.Keeps.{Keeps, Keeps-bind}
use clouditor.Discovery.{Discoverer, Service}
use clouditor.Discovery.Start.{
  Scheduler, Clouds, AzureOption, add_discoverers, with_client, azure_added, add_azure, add_k8s,
  add_aws, add_provider, add_providers, configure,
}

-- What add_discoverers keeps, the configuration of the providers keeps.
module _ {D S A J R Au K Aw : Type 0} (clouds : Clouds Au K Aw R) (P : Service D S A J R → Type 0)
    (added : (more : List (Discoverer R)) → Keeps P (add_discoverers more)) where
  kept : {B : Type 0} {r : Service D S A J R → Result B} → Keeps P (λ s. (r s, s))
  kept = record { keeps = λ s h. h }

  Keeps-with_client :
      {C B : Type 0} (text : String) (r : Result C) (next : C → String → Exec (Service D S A J R) B)
      → ((client : C) (cs_id : String) → Keeps P (next client cs_id))
      → Keeps P (with_client text r next)
  unfolding with_client
  Keeps-with_client text (ok client) next k = record { keeps = λ s h. (k client s.cs_id).keeps s h }
  Keeps-with_client text (err e) next k = kept
  Keeps-with_client text panic next k = kept

  Keeps-azure_added :
      (group : String) (opts : List (AzureOption Au)) (authorizer : Au) (cs_id : String)
      → Keeps P (azure_added clouds group opts authorizer cs_id)
  unfolding azure_added
  Keeps-azure_added group opts authorizer cs_id = record { keeps = λ s h. (added _).keeps s h }

  Keeps-if :
      {B : Type 0} (b : Bool) (call other : Exec (Service D S A J R) B)
      → Keeps P call
      → Keeps P other
      → Keeps P (if b then call else other)
  Keeps-if true call other hy hn = hy
  Keeps-if false call other hy hn = hn

  Keeps-add_provider :
      (group provider : String) (opts : List (AzureOption Au))
      → Keeps P (add_provider clouds group provider opts)
  unfolding add_provider add_azure add_k8s add_aws
  Keeps-add_provider group provider opts =
      Keeps-if (provider == "azure") _ _ (Keeps-with_client _ _ _ (Keeps-azure_added group opts)) (
        Keeps-if (provider == "k8s") _ _
          (Keeps-bind P (add_k8s clouds) (λ u. pure opts)
            (Keeps-with_client _ _ _ (λ client cs_id. added _)) (λ u. kept))
          (Keeps-if (provider == "aws") _ _
            (Keeps-bind P (add_aws clouds) (λ u. pure opts)
              (Keeps-with_client _ _ _ (λ client cs_id. added _)) (λ u. kept))
            kept))

  pub Keeps-add_providers :
      (group : String) (providers : List String) (opts : List (AzureOption Au))
      → Keeps P (add_providers clouds group providers opts)
  unfolding add_providers
  Keeps-add_providers group [] opts = kept
  Keeps-add_providers group (provider ∷ rest) opts =
      Keeps-bind P (add_provider clouds group provider opts)
        (λ more. add_providers clouds group rest more) (Keeps-add_provider group provider opts)
        (λ more. Keeps-add_providers group rest more)

-- gocron keeps the tags of jobs unique.
record TagsUnique {D S A J R : Type 0} (is_unique : J → Bool) (s : Service D S A J R) : Type 0 where
  unique_tags : is_unique s.jobs ≡ true

TagsUnique-add_discoverers :
    {D S A J R : Type 0} (is_unique : J → Bool) (more : List (Discoverer R))
    → Keeps (TagsUnique {D = D} {S = S} {A = A} is_unique) (add_discoverers more)
unfolding add_discoverers
TagsUnique-add_discoverers is_unique more = record {
  keeps = λ s h. record { unique_tags = h.unique_tags };
}

pub is_unique-configure :
    {D S A J R Au K Aw : Type 0} (clouds : Clouds Au K Aw R) (scheduler : Scheduler J R)
    (is_unique : J → Bool) (set : (j : J) → is_unique (scheduler.tags_unique j) ≡ true)
    (group : String) (s : Service D S A J R)
    → is_unique (configure scheduler clouds group s).1.jobs ≡ true
unfolding configure
is_unique-configure clouds scheduler is_unique set group s =
    ((Keeps-add_providers clouds (TagsUnique is_unique) (TagsUnique-add_discoverers is_unique) group
        s.providers []).keeps
      (record s { jobs = scheduler.tags_unique s.jobs })
      (record { unique_tags = set s.jobs })).unique_tags
