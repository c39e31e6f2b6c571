-- ===== src/Provider/Fargate/Returns.antt =====
-- `GetClusters` as a whole, on an ECS that answers.
use bent.Provider.Fargate.Loading.{is_node-group_tasks, all_loaded-get_task_definitions}
use bent.Provider.Fargate.Calls.Definitions.{HandsOver}
use bent.Provider.Fargate.Calls.Grouping.{list_tasks_returns, Describes}
use bent.Provider.Fargate.Calls.{get_task_definitions, group_tasks, index_clusters, ok}
use bent.Provider.Fargate.Calls.Clusters.{
  list_clusters_returns, DescribesClusters, explain_clusters,
}
use bent.Provider.Updater.{ProviderClusters}
use bent.Provider.Fargate.Nodes.{add_services_lem, is_node, Adds, is_node_in}
use bent.Provider.Fargate.Calls.Paging.{Serves}
use bent.Provider.Fargate.{
  add_services, keys, or_panicked, walk_clusters, add_cluster_services, get_clusters,
}
use bent.Provider.Fargate.Ecs.{Task, EcsCluster, EcsClient}
use bent.Shared.{
  length, Map, lookup, contains, concat, ℕ, ◌≤◌, String, ◌≡◌, refl, Bool, true, false, ◌||◌, none,
  List, [], ◌∷◌, map, arith, string_key, nat_key,
}

module _ (c : EcsClient) (fuel : ℕ) (cluster_pages : List (List String))
    (cluster_at : String → EcsCluster) (pages : String → List (List String))
    (task_at : String → Task) where
  -- An ECS that lacks nothing: it serves the ARNs of the clusters in these pages, and those of the tasks of
  -- a cluster in these, it describes up to a hundred of each at a time, and it hands over each
  -- definition. The fuel is enough for the pages.
  pub record IsServing : Type 0 where
    pub clusters :
        (s : c.State)
        → (s' : c.State) × Serves c.list_clusters explain_clusters none s cluster_pages s'
    pub clusters_few : length cluster_pages ≤ fuel
    pub describes_clusters : DescribesClusters c cluster_at
    pub tasks :
        (arn : String) (s : c.State)
        → (s' : c.State) × Serves (c.list_tasks arn) (λ e. e) none s (pages arn) s'
    pub tasks_few : (arn : String) → length (pages arn) ≤ fuel
    pub describes_tasks : (arn : String) → Describes c arn task_at
    pub hands_over : HandsOver c

  abbrev pub tasks_in : EcsCluster → List Task
  tasks_in cluster = map task_at (concat (pages cluster.cluster_arn))

  -- A task of one of the clusters has the node identifier.
  abbrev pub is_node_of : String → Map String EcsCluster → Bool
  is_node_of node [] = false
  is_node_of node ((arn, cluster) ∷ rest) =
      is_node_in node (tasks_in cluster) || is_node_of node rest

  add_cluster_services_returns :
      IsServing
      → (cluster : EcsCluster) (out : ProviderClusters) (s : c.State)
      → (out' : ProviderClusters) × (s' : c.State) × (add_cluster_services c fuel cluster (out, s)
          ≡ ok (out', s'))
        × ((node : String)
            → contains node out' ≡ (is_node_in node (tasks_in cluster) || contains node out))
  unfolding add_cluster_services or_panicked
  add_cluster_services_returns v cluster out s =
      let arn = cluster.cluster_arn in
      let (s1, served) = v.tasks arn s in
      let (s2, listed) =
        list_tasks_returns c arn task_at (v.describes_tasks arn) fuel served (v.tasks_few arn) in
      let services = group_tasks (tasks_in cluster) [] in
      let r = get_task_definitions c (keys services) s2 in
      let loaded = all_loaded-get_task_definitions c v.hands_over (tasks_in cluster) s2 in
      let (out', e, spec) : Adds true (λ node. is_node node services) out
          (add_services r.0 services out) =
        rw loaded at (add_services_lem r.0 services out) in
      (
        out',
        r.1,
        rw (add_cluster_services, listed, e, or_panicked) refl,
        λ node. ground (arith, spec node, is_node-group_tasks node (tasks_in cluster) []),
      )

  walk_clusters_returns :
      IsServing
      → (clusters : Map String EcsCluster) (out : ProviderClusters) (s : c.State)
      → (out' : ProviderClusters) × (s' : c.State) × (walk_clusters c fuel clusters (out, s)
          ≡ ok (out', s'))
        × ((node : String) → contains node out' ≡ (is_node_of node clusters || contains node out))
  unfolding walk_clusters
  walk_clusters_returns v [] out s = (out, s, refl, λ node. refl)
  walk_clusters_returns v ((arn, cluster) ∷ rest) out s =
      let (out1, s1, e, spec) = add_cluster_services_returns v cluster out s in
      let (out2, s2, e', spec') = walk_clusters_returns v rest out1 s1 in
      (out2, s2, rw e e', λ node. ground (arith, spec node, spec' node))

  -- If ECS refuses no call, has every cluster, task and definition that it is asked for, answers in
  -- the order of the request, and has no more pages than there is fuel, then `GetClusters` returns,
  -- and its map has a node for each task with a valid ARN in any of the clusters, and no other.
  pub get_clusters_lem :
      IsServing
      → (s : c.State)
      → (out : ProviderClusters) × (s' : c.State) × (get_clusters c fuel s ≡ ok (out, s'))
        × ((node : String)
            → contains node out
              ≡ is_node_of node (index_clusters (map cluster_at (concat cluster_pages)) []))
  unfolding get_clusters lookup
  get_clusters_lem v s =
      let (s1, served) = v.clusters s in
      let (s2, listed) =
        list_clusters_returns c cluster_at v.describes_clusters fuel served v.clusters_few in
      let clusters = index_clusters (map cluster_at (concat cluster_pages)) [] in
      let (out, s3, e, spec) = walk_clusters_returns v clusters [] s2 in
      (out, s3, rw listed e, λ node. ground (arith, spec node))
