-- ===== src/Provider/Fargate.antt =====
-- pkg/provider/fargate: the services that run on AWS Fargate. `GetClusters` of fargate.go; its parts
-- are in Labels and Calls, and the client of the AWS SDK is in Ecs. Go goes through a map in any
-- order; here it is the order of the list.
pub mod Ecs
pub mod Labels
pub mod Calls
pub mod Nodes
pub mod Crashes
pub mod Loading
pub mod Returns
pub mod Rounds
use bent.Provider.Annotations.{Panics, value, panic}
use bent.Provider.Cluster.{Cluster, Endpoint}
use bent.Provider.Updater.{ProviderClusters}
use bent.Provider.Fargate.Ecs.{EcsClient, EcsCluster, Task, TaskDefinition}
use bent.Provider.Fargate.Labels.{
  NodeId, node_id, invalid_task_arn, task_arn_to_node_id, find_endpoints,
}
use bent.Provider.Fargate.Calls.{
  Reply, ok, err, panicked, unfinished, list_clusters, list_tasks, get_task_definitions, ◌>>=◌,
}
use bent.Shared.{Map, lookup, insert, ℕ, String, List, [], ◌∷◌, string_key, nat_key}

-- `keys`
unfoldable pub keys : Map String (List Task) → List String
keys [] = []
keys ((arn, tasks) ∷ rest) = arn ∷ keys rest

clusters_of : Map String (List Endpoint) → List Cluster
clusters_of [] = []
clusters_of ((name, endpoints) ∷ rest) =
    record { name = name; endpoints = endpoints } ∷ clusters_of rest

-- A task whose ARN is invalid is left out.
add_node : NodeId → Map String (List Endpoint) → ProviderClusters → ProviderClusters
unfolding clusters_of
add_node (invalid_task_arn arn) endpoints out = out
add_node (node_id id) endpoints out = insert id (clusters_of endpoints) out

-- The body of the loop over the tasks. The error of `findEndpoints` is always nil.
add_task : Map String TaskDefinition → Task → ProviderClusters → Panics ProviderClusters
unfolding add_node
add_task defs task out = elim (find_endpoints task (lookup task.task_definition_arn defs)) [
  | panic ↦ panic
  | value endpoints ↦ value (add_node (task_arn_to_node_id task.task_arn) endpoints out)
]

add_tasks : Map String TaskDefinition → List Task → ProviderClusters → Panics ProviderClusters
unfolding add_task
add_tasks defs [] out = value out
add_tasks defs (t ∷ ts) out = elim (add_task defs t out) [
  | panic ↦ panic
  | value out' ↦ add_tasks defs ts out'
]

pub add_services :
    Map String TaskDefinition → Map String (List Task) → ProviderClusters → Panics ProviderClusters
unfolding add_tasks
add_services defs [] out = value out
add_services defs ((arn, tasks) ∷ rest) out = elim (add_tasks defs tasks out) [
  | panic ↦ panic
  | value out' ↦ add_services defs rest out'
]

-- A panic ends the call.
or_panicked : Panics ProviderClusters → Reply ProviderClusters
or_panicked panic = panicked
or_panicked (value out) = ok out

module _ (c : EcsClient) where
  -- The body of the loop over the clusters.
  unfoldable pub add_cluster_services :
      ℕ → EcsCluster → ProviderClusters × c.State → Reply (ProviderClusters × c.State)
  unfolding add_services or_panicked
  add_cluster_services fuel cluster (out, s) =
      list_tasks c fuel cluster.cluster_arn s >>= λ (r : Map String (List Task) × c.State).
      let (defs, s') = get_task_definitions c (keys r.0) r.1 in
      or_panicked (add_services defs r.0 out) >>= λ (out' : ProviderClusters). ok (out', s')

  walk_clusters :
      ℕ → Map String EcsCluster → ProviderClusters × c.State → Reply (ProviderClusters × c.State)
  unfolding add_cluster_services
  walk_clusters fuel [] r = ok r
  walk_clusters fuel ((arn, cluster) ∷ rest) r =
      add_cluster_services fuel cluster r >>= λ (r' : ProviderClusters × c.State).
      walk_clusters fuel rest r'

  -- `GetClusters`; `fuel` bounds the pages of each answer.
  unfoldable pub get_clusters : ℕ → c.State → Reply (ProviderClusters × c.State)
  unfolding walk_clusters
  get_clusters fuel s = list_clusters c fuel s >>= λ (r : Map String EcsCluster × c.State).
      walk_clusters fuel r.0 ([], r.1)
