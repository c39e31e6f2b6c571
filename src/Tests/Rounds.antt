-- ===== src/Tests/Rounds.antt =====
-- The theorems on a round from ECS to the cache, at an ECS of one cluster with one task.
use bent.Provider.Fargate.Calls.Paging.{last}
use bent.Cache.Simple.Current.{new_snapshot_cache-IsCurrent}
use bent.Cache.Simple.Sound.{new_snapshot_cache-IsSound}
use bent.Provider.Fargate.Rounds.{run_once-get_clusters}
use bent.Provider.Updater.Returns.{transform_returns}
use bent.Provider.Node.{Node}
use bent.Provider.Fargate.Calls.{index_clusters, ok}
use bent.Tests.Orders.{in_order}
use bent.Tests.Fargate.{page, definition, task, ecs}
use bent.Cache.Simple.{new_snapshot_cache, World}
use bent.Provider.Listener.{Marshal}
use bent.Cache.Resource.{Resource}
use bent.Provider.Annotations.{value, split}
use bent.Provider.Fargate.Returns.{get_clusters_lem, is_node_of, IsServing}
use bent.Provider.Updater.{done, clusters_in, transform, run_once, ProviderClusters}
use bent.Provider.Fargate.{get_clusters}
use bent.Provider.Fargate.Ecs.{answer, EcsClient, EcsCluster}
use bent.Shared.{
  is_some, lookup, contains, insert, parse_from, after_prefix, trim_prefix, split_text, concat, ℕ,
  ◌+◌, String, ◌≡◌, refl, true, false, not, ◌||◌, Option, none, List, [], ◌∷◌, map, arith,
  string_key, nat_key,
}

abbrev cluster_at : String → EcsCluster
cluster_at arn = record { cluster_arn = arn; cluster_name = "c" }

abbrev healthy : EcsClient
healthy = record ecs {
  describe_clusters =
      λ ids s. (answer (record { found = map cluster_at ids; failures = [] }), s + 1);
  describe_task_definition = λ arn s. (answer definition, s + 1);
}

abbrev pages_of : String → List (List String)
pages_of arn = ("arn:task/1" ∷ []) ∷ []

healthy-IsServing : IsServing healthy 1 (("cluster" ∷ []) ∷ []) cluster_at pages_of task
healthy-IsServing = record {
  clusters = λ s. (s + 1, last {page = page "cluster"} refl refl);
  clusters_few = omega arith;
  describes_clusters = λ ids s few. (s + 1, refl);
  tasks = λ arn s. (s + 1, last {page = page "arn:task/1"} refl refl);
  tasks_few = λ arn. omega arith;
  describes_tasks = λ arn ids s few. (s + 1, refl);
  hands_over = λ arn s. (definition, s + 1, refl);
}

get_clusters_lem_example :
    (out : ProviderClusters) × (s : ℕ) × (get_clusters healthy 1 0 ≡ ok (out, s))
    × ((node : String)
        → contains node out
          ≡ is_node_of healthy 1
              (("cluster" ∷ []) ∷ [])
              cluster_at
              pages_of
              task
              node
              (index_clusters (map cluster_at (concat (("cluster" ∷ []) ∷ []))) []))
get_clusters_lem_example =
    get_clusters_lem healthy 1 (("cluster" ∷ []) ∷ []) cluster_at pages_of task healthy-IsServing 0

abbrev out : ProviderClusters
out =
    (
      "1",
      record {
        name = "backend";
        endpoints = record { address = "10.0.0.1"; annotations = []; port = 80 } ∷ [];
      }
          ∷ [],
    )
    ∷ []

abbrev message_to_any : Marshal
message_to_any m = none

abbrev digest : List (List ℕ) → String
digest bytes = "1"

abbrev marshal : Resource → Option (List ℕ)
marshal r = none

out_transformed : (ns : List Node) × (transform message_to_any out out ≡ value ns)
unfolding lookup split insert bent.Provider.Cluster.merge_annotations
out_transformed = transform_returns message_to_any out out ((refl, tt), tt) ((refl, tt), tt)

ecs_returns : get_clusters healthy 1 0 ≡ ok (out, 5)
unfolding get_clusters bent.Provider.Fargate.Calls.list_clusters
    bent.Provider.Fargate.Calls.list_cluster_arns bent.Provider.Fargate.Calls.list_pages
    bent.Provider.Fargate.Calls.slice_walk index_clusters insert
    bent.Provider.Fargate.Calls.list_tasks bent.Provider.Fargate.Calls.list_task_arns
    bent.Provider.Fargate.Calls.group_tasks lookup bent.Provider.Fargate.Labels.find_endpoints
    bent.Provider.Fargate.Labels.find_task_targets bent.Provider.Fargate.Calls.get_task_definitions
    bent.Provider.Fargate.keys bent.Provider.Fargate.Labels.task_arn_to_node_id
    bent.Shared.split_text bent.Provider.Fargate.Labels.label_target bent.Provider.Annotations.atoi
    split bent.Provider.Fargate.Calls.min bent.Provider.Fargate.Labels.strip_key_prefix
    bent.Provider.Fargate.add_cluster_services bent.Shared.parse_from bent.Shared.after_prefix
    bent.Shared.trim_prefix
ecs_returns = refl

run_once-get_clusters_example :
    (w : World) × (run_once message_to_any digest marshal
        (λ i. in_order)
        (clusters_in out out)
        (new_snapshot_cache false)
      ≡ done w)
    × ((node : String)
        → (not (
              is_node_of healthy 1
                (("cluster" ∷ []) ∷ [])
                cluster_at
                pages_of
                task
                node
                (index_clusters (map cluster_at (concat (("cluster" ∷ []) ∷ []))) []))
            || is_some (lookup node w.snapshots))
          ≡ true)
run_once-get_clusters_example =
    run_once-get_clusters digest marshal healthy 1 (("cluster" ∷ []) ∷ []) cluster_at pages_of task
      healthy-IsServing 0 5 out out out message_to_any (λ i. in_order) out_transformed.0
      (new_snapshot_cache false) ecs_returns (λ node. refl) out_transformed.1
      (new_snapshot_cache-IsSound false) (new_snapshot_cache-IsCurrent false)
