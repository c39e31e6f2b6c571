-- ===== src/Provider/Fargate/Calls/Clusters.antt =====
-- The clusters that ECS has.
use bent.Provider.Fargate.Calls.Paging.{list_pages_lem, Serves}
use bent.Provider.Fargate.Calls.Windows.{slice_walk_lem, walk_all, Fits}
use bent.Provider.Fargate.Ecs.{answer, EcsCluster, EcsClient}
use Prim.Native.String
use mathlib.Core.List.{map-append}
use bent.Shared.{
  length, All, Map, insert, concat, ℕ, ◌≤◌, String, ◌≡◌, refl, ◌∙◌, none, List, [], ◌∷◌, ◌++◌, map,
  arith, string_key, nat_key,
}
use bent.Provider.Fargate.Calls.{
  ok, warned, list_cluster_arns, clusters_described, index_clusters, list_clusters,
  describe_clusters,
}

index_clusters-append :
    (cs ds : List EcsCluster) (m : Map String EcsCluster)
    → index_clusters (cs ++ ds) m ≡ index_clusters ds (index_clusters cs m)
unfolding index_clusters
index_clusters-append [] ds m = refl
index_clusters-append (x ∷ cs) ds m = index_clusters-append cs ds (insert x.cluster_arn x m)

abbrev pub explain_clusters : String → String
explain_clusters e = String.◌++◌ "could not retrieve ECS clusters: " e

module _ (c : EcsClient) (cluster_at : String → EcsCluster) where
  -- An ECS that has all the clusters: a call for at most a hundred answers with them, in the order of
  -- the request.
  abbrev pub DescribesClusters : Type 0
  DescribesClusters =
      (ids : List String) (s : c.State)
      → length ids ≤ 100
      → (s' : c.State) × (c.describe_clusters ids s
          ≡ (answer (record { found = map cluster_at ids; failures = [] }), s'))

  walk_all-describe_clusters :
      DescribesClusters
      → (windows : List (List String)) (m : Map String EcsCluster) (s : c.State)
      → All (Fits 100) windows
      → (s' : c.State) × (walk_all (describe_clusters c) windows (m, s)
          ≡ ok (index_clusters (map cluster_at (concat windows)) m, s'))
  unfolding describe_clusters clusters_described index_clusters warned
  walk_all-describe_clusters promise [] m s fits = (s, refl)
  walk_all-describe_clusters promise (ids ∷ windows) m s (fit, fits) =
      let (s1, e) = promise ids s fit.1 in
      let m1 = index_clusters (map cluster_at ids) m in
      let (s2, e') = walk_all-describe_clusters promise windows m1 s1 fits in
      (s2, rw (e, clusters_described, map-append, index_clusters-append) e')

  -- `listClusters` has the clusters of all pages under their ARNs.
  pub list_clusters_returns :
      DescribesClusters
      → (fuel : ℕ) {s s1 : c.State} {pages : List (List String)}
      → Serves c.list_clusters explain_clusters none s pages s1
      → length pages ≤ fuel
      → (s2 : c.State) × (list_clusters c fuel s
          ≡ ok (index_clusters (map cluster_at (concat pages)) [], s2))
  unfolding list_clusters list_cluster_arns
  list_clusters_returns promise fuel {s} {s1} {pages} served h =
      let arns = list_pages_lem c.list_clusters explain_clusters fuel served h in
      let (windows, together, fits, walked) =
        slice_walk_lem (describe_clusters c) 100 (concat pages) ([], s1) (omega arith) in
      let (s2, e) = walk_all-describe_clusters promise windows [] s1 fits in
      (s2, rw (arns, walked) (e ∙ rw together refl))
