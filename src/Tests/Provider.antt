-- ===== src/Tests/Provider.antt =====
-- The theorems on the provider's nodes, at two services.
use bent.Provider.Updater.{add_locals}
use bent.Provider.Listener.{Listener, new_listener}
use bent.Provider.Listener.Filters.{filter_names}
use bent.Provider.Updater.Filters.{filters_of_all, filter_names-add_locals}
use bent.Envoy.{ingress}
use bent.Provider.Updater.Returns.{transform_returns}
use bent.Provider.Updater.Rounds.{run_once_lem, IsStored}
use bent.Provider.Annotations.Range.{range_never_read}
use bent.Tests.{differ, waiting_cache-IsSound, waiting_cache, ask_clusters, empty_cache}
use bent.Provider.Updater.Nodes.{transform-AllWellFormed, AllWellFormed}
use bent.Cache.Simple.Sound.{IsSound}
use bent.Cache.Simple.Run.{run_returns, sets, watches, run, Command}
use bent.Provider.Cluster.Bounds.{weight_bounds}
use bent.Provider.Updater.{done, clusters_in, run_once, snapshot_of, transform, ProviderClusters}
use bent.Provider.Updater.Versions.{set_snapshot-snapshot_of, hashed}
use bent.Tests.Orders.{in_order, swapped}
use bent.Cache.Simple.Notify.{due}
use bent.Cache.Status.{Request}
use mathlib.Core.List.{Mem}
use bent.Provider.Node.{new_node, add_route, endpoints_of, Node}
use bent.Envoy.{VirtualHost}
use bent.Provider.Annotations.{
  nonneg, parse_int64_range_with_fallback, panic, split, value, atoi, Panics,
}
use bent.Cache.Simple.Current.{run-IsCurrent, IsCurrent}
use bent.Cache.Resource.{get_resource_name, Resource}
use bent.Provider.Listener.{Marshal}
use bent.Provider.Node.Routes.{new_node-IsUnique, add_route-IsUnique, IsUnique}
use bent.Provider.Cluster.{Cluster, endpoint_config}
use bent.Cache.Simple.{create_watch, new_snapshot_cache, set_snapshot, World}
use bent.Shared.{
  nat_eq, if◌then◌else◌, ◌==◌, lookup, insert, ℕ, ◌≤◌, String, ◌≡◌, refl, sym, ap, subst, ◌≢◌, ◌⊎◌,
  inl, inr, false, Option, none, some, List, [], ◌∷◌, ◌++◌, string_key, nat_key,
}

abbrev service : Cluster
service = record {
  name = "backend";
  endpoints =
      record { address = "10.0.0.1"; annotations = ("endpoint.weight", "200") ∷ []; port = 80 }
      ∷ [];
}

abbrev provided : ProviderClusters
provided = ("a", service ∷ []) ∷ ("b", service ∷ []) ∷ []

abbrev message_to_any : Marshal
message_to_any m = none

abbrev nodes_of : Panics (List Node) → List Node
nodes_of (value ns) = ns
nodes_of panic = []

abbrev pair_of : Panics (Node × Listener) → Node × Listener → Node × Listener
pair_of (value s) old = s
pair_of panic old = old

transform-AllWellFormed_example :
    AllWellFormed
      ("a" ∷ "b" ∷ "ingress" ∷ [])
      (nodes_of (transform message_to_any provided provided))
unfolding transform bent.Provider.Node.add_cluster bent.Provider.Cluster.make_egress_clusters
    bent.Shared.lookup new_node bent.Provider.Node.create_envoy_cluster
    bent.Provider.Cluster.cluster_config bent.Provider.Cluster.parse_cluster_annotations
    parse_int64_range_with_fallback bent.Provider.Cluster.merge_annotations
    bent.Provider.Cluster.make_egress_endpoints bent.Shared.insert bent.Provider.Node.add_endpoints
    add_route bent.Provider.Node.create_envoy_vhost bent.Provider.Listener.inject_health_check_cache
transform-AllWellFormed_example =
    transform-AllWellFormed message_to_any provided provided
      (nodes_of (transform message_to_any provided provided)) refl

range_never_read_example :
    parse_int64_range_with_fallback "200-399" (nonneg 200) (nonneg 400) ≡ panic
unfolding atoi split
range_never_read_example = range_never_read "200-399" (nonneg 200) (nonneg 400)

weight_bounds_example :
    (1
      ≤ (endpoint_config (record {
        address = "10.0.0.1";
        annotations = ("endpoint.weight", "200") ∷ [];
        port = 80;
      })).weight)
    × ((endpoint_config (record {
      address = "10.0.0.1";
      annotations = ("endpoint.weight", "200") ∷ [];
      port = 80;
    })).weight
        ≤ 128)
weight_bounds_example =
    weight_bounds
      (record { address = "10.0.0.1"; annotations = ("endpoint.weight", "200") ∷ []; port = 80 })

abbrev host : VirtualHost
host = record { name = "backend"; domains = "backend" ∷ []; routes = [] }

add_route-IsUnique_example : IsUnique (add_route (new_node "a") "egress_route" (host ∷ host ∷ []))
add_route-IsUnique_example =
    add_route-IsUnique (new_node "a") "egress_route" (host ∷ host ∷ []) (new_node-IsUnique "a")

-- A node of one service, with an assignment for its cluster and one for the local one.
abbrev assigned_node : Node
assigned_node = record (new_node "a") {
  endpoints =
      ("backend", record { cluster_name = "backend"; endpoints = [] })
      ∷ ("local_backend", record { cluster_name = "local_backend"; endpoints = [] })
      ∷ [];
}

-- The two assignments have different payloads, and the digest tells the first payload.
abbrev marshal : Resource → Option (List ℕ)
marshal r = some ((if get_resource_name r == "backend" then 1 else 2) ∷ [])

abbrev first_of : List ℕ → String
first_of [] = ""
first_of (b ∷ bytes) = if nat_eq b 1 then "1" else "2"

abbrev digest : List (List ℕ) → String
digest [] = ""
digest (p ∷ payloads) = first_of p

abbrev world_of : Option World → World
world_of none = empty_cache
world_of (some w) = w

abbrev ask_again : Request
ask_again = record ask_clusters { version_info = "1" }

-- The client has the version of the snapshot, and waits for the next.
abbrev stored : List Command
stored = sets "a" (snapshot_of digest marshal in_order assigned_node) ∷ watches ask_again 5 ∷ []

abbrev before : World
before = world_of (run (new_snapshot_cache false) stored)

before-IsCurrent : IsCurrent before
unfolding run bent.Cache.Simple.Run.step bent.Cache.Simple.create_watch bent.Shared.lookup
    new_snapshot_cache set_snapshot bent.Shared.insert bent.Cache.Simple.node_id
    bent.Cache.Snapshot.get_version snapshot_of bent.Cache.Snapshot.new_snapshot
    bent.Provider.Updater.compute_version bent.Provider.Updater.payloads
    bent.Cache.Resource.get_resource_name endpoints_of new_node
before-IsCurrent = run-IsCurrent false stored before refl

before-IsSound : IsSound before
before-IsSound = let (w, e, s) = run_returns false stored in subst IsSound (sym (ap world_of e)) s

-- Nothing of the node has changed but the order of the iteration: the client is answered again.
set_snapshot-snapshot_of_example :
    (w : World) × (set_snapshot "a" (snapshot_of digest marshal swapped assigned_node) before
      ≡ some w)
    × (((hashed digest marshal swapped assigned_node ≡ hashed digest marshal in_order assigned_node)
          × (w.channels.buffered ≡ before.channels.buffered))
        ⊎ ((hashed digest marshal swapped assigned_node
              ≢ hashed digest marshal in_order assigned_node)
            × Mem
                (
                  0,
                  due
                      (snapshot_of digest marshal swapped assigned_node)
                      (record { request = ask_again; response = 0 }),
                )
                w.channels.buffered))
unfolding bent.Shared.lookup run bent.Cache.Simple.Run.step bent.Cache.Simple.create_watch
    new_snapshot_cache set_snapshot bent.Shared.insert bent.Cache.Simple.node_id
    bent.Cache.Snapshot.get_version snapshot_of bent.Cache.Snapshot.new_snapshot
    bent.Provider.Updater.compute_version bent.Provider.Updater.payloads
    bent.Cache.Resource.get_resource_name endpoints_of new_node
set_snapshot-snapshot_of_example =
    set_snapshot-snapshot_of digest marshal in_order swapped assigned_node assigned_node before 1
      (record { request = ask_again; response = 0 }) before-IsSound before-IsCurrent refl refl refl
      (inr (inl refl)) (λ e. absurd (differ "2" "1" refl e))

waiting_cache-IsCurrent : IsCurrent waiting_cache
unfolding run bent.Cache.Simple.Run.step create_watch lookup new_snapshot_cache
waiting_cache-IsCurrent = run-IsCurrent false (watches ask_clusters 5 ∷ []) waiting_cache refl

run_once_lem_example :
    (w' : World) × (run_once message_to_any digest marshal
        (λ i. in_order)
        (clusters_in provided provided)
        waiting_cache
      ≡ done w')
    × IsStored digest marshal
        (λ i. in_order)
        (nodes_of (transform message_to_any provided provided))
        waiting_cache
        w'
unfolding transform bent.Provider.Node.add_cluster bent.Provider.Cluster.make_egress_clusters
    bent.Shared.lookup new_node bent.Provider.Node.create_envoy_cluster
    bent.Provider.Cluster.cluster_config bent.Provider.Cluster.parse_cluster_annotations
    parse_int64_range_with_fallback bent.Provider.Cluster.merge_annotations
    bent.Provider.Cluster.make_egress_endpoints bent.Shared.insert bent.Provider.Node.add_endpoints
    add_route bent.Provider.Node.create_envoy_vhost bent.Provider.Listener.inject_health_check_cache
run_once_lem_example =
    run_once_lem digest marshal message_to_any (λ i. in_order) provided provided
      (nodes_of (transform message_to_any provided provided)) waiting_cache waiting_cache-IsSound
      waiting_cache-IsCurrent refl

transform_returns_example :
    (ns : List Node) × (transform message_to_any provided provided ≡ value ns)
unfolding bent.Provider.Cluster.merge_annotations bent.Shared.lookup split insert
transform_returns_example =
    transform_returns message_to_any provided provided ((refl, tt), ((refl, tt), tt))
      ((refl, tt), ((refl, tt), tt))

abbrev ingress_listener : Listener
ingress_listener = new_listener message_to_any (record {
  name = "default-ingress";
  tracing_operation = ingress;
  target_route = "ingress_route";
  address = "0.0.0.0";
  port = 4100;
})

abbrev looped : Node × Listener
looped =
    pair_of (add_locals message_to_any (service ∷ []) ((new_node "a"), ingress_listener))
      ((new_node "a"), ingress_listener)

filter_names-add_locals_example :
    filter_names looped.1 ≡ filters_of_all (service ∷ []) ++ filter_names ingress_listener
unfolding new_listener add_locals bent.Provider.Node.add_cluster
    bent.Provider.Cluster.make_egress_clusters bent.Shared.lookup new_node
    bent.Provider.Node.create_envoy_cluster bent.Provider.Cluster.cluster_config
    bent.Provider.Cluster.parse_cluster_annotations parse_int64_range_with_fallback
    bent.Provider.Cluster.merge_annotations bent.Provider.Cluster.make_egress_endpoints
    bent.Shared.insert bent.Provider.Node.add_endpoints add_route
    bent.Provider.Node.create_envoy_vhost bent.Provider.Listener.inject_health_check_cache
filter_names-add_locals_example =
    filter_names-add_locals message_to_any (service ∷ []) (new_node "a") looped.0 ingress_listener
      looped.1 refl
