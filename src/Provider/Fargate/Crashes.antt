-- ===== src/Provider/Fargate/Crashes.antt =====
-- What a definition that ECS does not hand over does to `GetClusters`.
use bent.Provider.Annotations.{panic}
use bent.Provider.Fargate.Calls.Definitions.{lookup-get_task_definitions, IsRefused}
use bent.Provider.Updater.{ProviderClusters}
use bent.Provider.Fargate.{add_services, keys, or_panicked, add_cluster_services}
use bent.Provider.Fargate.Nodes.{add_services_lem, all_loaded, is_loaded}
use bent.Provider.Fargate.Ecs.{EcsCluster, EcsClient, Task, TaskDefinition}
use bent.Provider.Fargate.Calls.{get_task_definitions, ok, list_tasks, panicked}
use bent.Shared.{
  ◌==◌, ==_iff, Bool-cases, Map, lookup, ℕ, String, ◌≡◌, refl, inl, inr, Bool, true, false, ◌||◌,
  none, List, [], ◌∷◌, arith, string_key, nat_key,
}

-- Some task has the definition.
abbrev pub is_used_in : String → List Task → Bool
is_used_in arn [] = false
is_used_in arn (t ∷ ts) = t.task_definition_arn == arn || is_used_in arn ts

abbrev pub is_used : String → Map String (List Task) → Bool
is_used arn [] = false
is_used arn ((key, ts) ∷ rest) = is_used_in arn ts || is_used arn rest

is_loaded_missing :
    (arn : String) (defs : Map String TaskDefinition) (ts : List Task)
    → lookup arn defs ≡ none
    → is_used_in arn ts ≡ true
    → is_loaded defs ts ≡ false
is_loaded_missing arn defs [] h u = cc
is_loaded_missing arn defs (t ∷ ts) h u = elim (Bool-cases (t.task_definition_arn == arn)) [
  | inl same ↦ let e = (==_iff t.task_definition_arn arn).0 same in rw (e, h) refl
  | inr differ ↦ ground (arith, is_loaded_missing arn defs ts h (rw differ at u))
]

all_loaded_missing :
    (arn : String) (defs : Map String TaskDefinition) (services : Map String (List Task))
    → lookup arn defs ≡ none
    → is_used arn services ≡ true
    → all_loaded defs services ≡ false
all_loaded_missing arn defs [] h u = cc
all_loaded_missing arn defs ((key, ts) ∷ rest) h u = elim (Bool-cases (is_used_in arn ts)) [
  | inl here ↦ ground (arith, is_loaded_missing arn defs ts h here)
  | inr later ↦ ground (arith, all_loaded_missing arn defs rest h (rw later at u))
]

module _ (c : EcsClient) (arn : String) where
  -- A task whose definition ECS refuses to hand over ends `GetClusters` in a panic: the refusal is
  -- logged and the definition left out, and then the nil pointer that stands for it is read. With it
  -- ends the control plane.
  pub add_cluster_services_panics :
      IsRefused c arn
      → (fuel : ℕ) (cluster : EcsCluster) (out : ProviderClusters) (s s1 : c.State)
        (services : Map String (List Task))
      → list_tasks c fuel cluster.cluster_arn s ≡ ok (services, s1)
      → is_used arn services ≡ true
      → add_cluster_services c fuel cluster (out, s) ≡ panicked
  unfolding add_cluster_services or_panicked
  add_cluster_services_panics refused fuel cluster out s s1 services listed used =
      let defs = (get_task_definitions c (keys services) s1).0 in
      let missing =
        all_loaded_missing arn defs services
          (lookup-get_task_definitions c arn refused (keys services) s1) used in
      let crash : add_services defs services out ≡ panic =
        rw missing at (add_services_lem defs services out) in
      rw (add_cluster_services, listed, crash, or_panicked) refl
