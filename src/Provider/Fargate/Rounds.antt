-- ===== src/Provider/Fargate/Rounds.antt =====
-- A round of the updater on the Fargate provider, from ECS to the cache.
use bent.Cache.Simple.Current.{IsCurrent}
use bent.Cache.Simple.Sound.{IsSound}
use bent.Provider.Annotations.{value}
use bent.Provider.Fargate.Calls.{index_clusters, ok}
use bent.Provider.Fargate.{get_clusters}
use bent.Cache.Simple.{World}
use bent.Provider.Listener.{Marshal}
use bent.Provider.Fargate.Returns.{get_clusters_lem, is_node_of, IsServing}
use bent.Provider.Updater.Rounds.{run_once_lem, last_snapshot}
use bent.Provider.Fargate.Ecs.{Task, EcsCluster, EcsClient}
use bent.Provider.Updater.Nodes.{transform-AllWellFormed, AllWellFormed, nodes_in}
use bent.Provider.Node.{Node}
use bent.Provider.Fargate.Calls.Definitions.{is_in}
use bent.Provider.Updater.{done, clusters_in, run_once, transform, Orders, ProviderClusters}
use bent.Cache.Resource.{Resource}
use bent.Shared.{
  ==_iff, is_some, lookup, contains, concat, ℕ, suc, String, ◌≡◌, refl, sym, ap, true, not, ◌||◌,
  Option, List, [], ◌∷◌, ◌++◌, map, arith, string_key, nat_key,
}

contains-nodes_in :
    (node : String) (m : ProviderClusters) → contains node m ≡ is_in node (nodes_in m)
unfolding lookup
contains-nodes_in node [] = refl
contains-nodes_in node ((name, cs) ∷ m) = ground (arith, contains-nodes_in node m)

is_in-append : (a : String) (xs ys : List String) → is_in a (xs ++ ys) ≡ (is_in a xs || is_in a ys)
is_in-append a [] ys = refl
is_in-append a (x ∷ xs) ys = ground (arith, is_in-append a xs ys)

module _ (md5 : List (List ℕ) → String) (marshal : Resource → Option (List ℕ)) where
  -- Each name has the snapshot of its last node.
  last_snapshot-AllWellFormed :
      (os : ℕ → Orders) (name : String) (names : List String) (ns : List Node)
      → AllWellFormed names ns
      → is_some (last_snapshot md5 marshal os name ns) ≡ is_in name names
  last_snapshot-AllWellFormed os name [] [] v = refl
  last_snapshot-AllWellFormed os name [] (n ∷ ns) v = absurd v
  last_snapshot-AllWellFormed os name (x ∷ names) [] v = absurd v
  last_snapshot-AllWellFormed os name (x ∷ names) (n ∷ ns) v = ground (
    arith,
    last_snapshot-AllWellFormed (λ i. os (suc i)) name names ns v.1,
    v.0.named,
    ==_iff n.name name,
    ==_iff x name,
  )

  -- If ECS refuses no call, has every cluster, task and definition that it is asked for and answers in
  -- the order of the request, in no more pages than there is fuel, and `transform` returns, then a
  -- round of the updater, from `GetClusters` to the cache, ends, and the cache has a snapshot for each
  -- task with a valid ARN in any of the clusters; the two orders are ones in which the map of `GetClusters` can be gone
  -- through, and the world is sound and current before.
  pub run_once-get_clusters :
      (c : EcsClient) (fuel : ℕ) (cluster_pages : List (List String))
      (cluster_at : String → EcsCluster) (pages : String → List (List String))
      (task_at : String → Task)
      → IsServing c fuel cluster_pages cluster_at pages task_at
      → (s s' : c.State) (out first second : ProviderClusters) (message_to_any : Marshal)
        (os : ℕ → Orders) (ns : List Node) (w : World)
      → get_clusters c fuel s ≡ ok (out, s')
      → ((node : String) → contains node second ≡ contains node out)
      → transform message_to_any first second ≡ value ns
      → IsSound w
      → IsCurrent w
      → (w' : World) × (run_once message_to_any md5 marshal os (clusters_in first second) w
          ≡ done w')
        × ((node : String)
            → (not (
                  is_node_of c fuel cluster_pages cluster_at pages task_at node
                    (index_clusters (map cluster_at (concat cluster_pages)) []))
                || is_some (lookup node w'.snapshots))
              ≡ true)
  run_once-get_clusters c fuel cluster_pages cluster_at pages task_at v s s' out first second
        message_to_any os ns w got same made sound current =
      let (out', s2, e, spec) =
        get_clusters_lem c fuel cluster_pages cluster_at pages task_at v s in
      let (w', ended, stored) =
        run_once_lem md5 marshal message_to_any os first second ns w sound current made in
      let formed = transform-AllWellFormed message_to_any first second ns made in
      let one : out' ≡ out = ground (arith, e, got) in
      (
        w',
        ended,
        λ node.
            let names = nodes_in second ++ "ingress" ∷ [] in
            let all = last_snapshot-AllWellFormed os node names ns formed in
            let there : contains node out ≡ contains node out' =
              ap (λ (m : ProviderClusters). contains node m) (sym one) in
            rw (stored.snapshots node) (
              ground (
                arith,
                all,
                is_in-append node (nodes_in second) ("ingress" ∷ []),
                contains-nodes_in node second,
                same node,
                there,
                spec node,
              )),
      )
