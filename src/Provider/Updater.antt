-- ===== src/Provider/Updater.antt =====
-- pkg/provider/updater.go: from the services of all nodes to a snapshot for each. Go goes through a
-- map in any order, and `transform` goes through its argument twice: the two orders are arguments.
-- So are the orders in which the maps of each node are listed for its snapshot.
pub mod Nodes
pub mod Versions
pub mod Typed
pub mod Rounds
pub mod Filters
pub mod Returns
use bent.Cache.Snapshot.{new_snapshot, Snapshot}
use bent.Provider.Annotations.{value, ◌>>=◌}
use bent.Provider.Node.{
  listeners_of, routes_of, clusters_of, endpoints_of, add_route, add_listener, new_node,
  add_cluster, create_envoy_vhost, Node, Order,
}
use bent.Provider.Annotations.{panic, Panics}
use bent.Cache.Resource.{Resource}
use bent.Provider.Cluster.{
  cluster_config, default_ingress_traffic_port, default_egress_traffic_port, make_egress_clusters,
  Cluster,
}
use bent.Provider.Listener.{
  inject_authz, inject_fault, resource, new_listener, inject_health_check_cache, Listener,
  ListenerConfig, Marshal,
}
use bent.Cache.Simple.{set_snapshot, World}
use bent.Envoy.{
  ingress, egress, VirtualHost, ClusterLoadAssignment, ClusterMessage, RouteConfiguration,
}
use Prim.Native.String
use bent.Shared.{Map, ℕ, suc, String, Option, none, some, List, [], ◌∷◌, ◌++◌}

abbrev pub egress_route : String
egress_route = "egress_route"

abbrev pub ingress_route : String
ingress_route = "ingress_route"

abbrev pub local_cluster_prefix : String
local_cluster_prefix = "local"

-- The services of each node.
abbrev pub ProviderClusters : Type 0
ProviderClusters = Map String (List Cluster)

vhosts_of : List Cluster → List VirtualHost
vhosts_of [] = []
vhosts_of (c ∷ cs) =
    create_envoy_vhost (record { hostname = c.name; cluster = c.name }) ∷ vhosts_of cs

-- The first loop: the services of all nodes, at their sidecars.
pub global_clusters : ProviderClusters → List Cluster
global_clusters [] = []
global_clusters ((node, cs) ∷ rest) = make_egress_clusters cs ++ global_clusters rest

pub global_vhosts : ProviderClusters → List VirtualHost
unfolding vhosts_of
global_vhosts [] = []
global_vhosts ((node, cs) ∷ rest) = vhosts_of cs ++ global_vhosts rest

pub local_cluster_name : String → String
local_cluster_name name = String.◌++◌ local_cluster_prefix (String.◌++◌ "_" name)

module _ (message_to_any : Marshal) where
  -- One round of the loop over the services of a node.
  unfoldable pub add_local : Cluster → Node × Listener → Panics (Node × Listener)
  unfolding local_cluster_name
  add_local c (n, l) = do
    n' ← add_cluster n (record { name = local_cluster_name c.name; endpoints = c.endpoints } ∷ [])
    l' ← inject_health_check_cache message_to_any c l
    cfg ← cluster_config c
    value (
      add_route n' ingress_route (
          create_envoy_vhost (record { hostname = c.name; cluster = local_cluster_name c.name })
          ∷ []),
      inject_fault message_to_any cfg.fault_config l',
    )

  unfoldable pub add_locals : List Cluster → Node × Listener → Panics (Node × Listener)
  unfolding add_local
  add_locals [] s = value s
  add_locals (c ∷ cs) s = do s' ← add_local c s; add_locals cs s'

  default_ingress : String → ListenerConfig
  default_ingress name = record {
    name = name;
    tracing_operation = ingress;
    target_route = ingress_route;
    address = "0.0.0.0";
    port = default_ingress_traffic_port;
  }

  default_egress : ListenerConfig
  default_egress = record {
    name = "default-egress";
    tracing_operation = egress;
    target_route = egress_route;
    address = "0.0.0.0";
    port = default_egress_traffic_port;
  }

  -- The proxy beside a task.
  pub make_node : List Cluster → List VirtualHost → String → List Cluster → Panics Node
  unfolding add_locals default_ingress default_egress
  make_node globals vhosts name clusters = do
    n ← add_cluster (new_node name) globals
    (n', l) ← add_locals clusters (
      add_route n egress_route vhosts,
      new_listener message_to_any (default_ingress "default-ingress"),
    )
    value (
        add_listener n' (
          resource message_to_any l
          ∷ resource message_to_any (new_listener message_to_any default_egress)
          ∷ []))

  pub make_nodes : List Cluster → List VirtualHost → ProviderClusters → Panics (List Node)
  unfolding make_node
  make_nodes globals vhosts [] = value []
  make_nodes globals vhosts ((name, clusters) ∷ rest) = do
    n ← make_node globals vhosts name clusters
    ns ← make_nodes globals vhosts rest
    value (n ∷ ns)

  -- The front proxy.
  pub make_ingress : List Cluster → List VirtualHost → Panics Node
  unfolding default_ingress
  make_ingress globals vhosts = do
    n ← add_cluster (new_node "ingress") globals
    value (
        add_listener (add_route n ingress_route vhosts) (
          resource message_to_any (
            inject_authz message_to_any (record { cluster = "authz" })
              (new_listener message_to_any (default_ingress "")))
          ∷ []))

  -- `first` and `second` are the provider's map in the orders of the two loops. The error that
  -- `transform` returns is always nil.
  unfoldable pub transform : ProviderClusters → ProviderClusters → Panics (List Node)
  unfolding global_clusters global_vhosts make_nodes make_ingress
  transform first second = do
    nodes ← make_nodes (global_clusters first) (global_vhosts first) second
    front ← make_ingress (global_clusters first) (global_vhosts first)
    value (nodes ++ front ∷ [])

-- What md5 and protobuf's marshaller make of the endpoints: the hash of a list of payloads, as the
-- text of its digits. A resource that cannot be marshalled is skipped.
unfoldable pub payloads : (Resource → Option (List ℕ)) → List Resource → List (List ℕ)
payloads marshal [] = []
payloads marshal (r ∷ rs) = elim (marshal r) [
  | none ↦ payloads marshal rs
  | some bytes ↦ bytes ∷ payloads marshal rs
]

unfoldable pub compute_version :
    (List (List ℕ) → String) → (Resource → Option (List ℕ)) → List Resource → String
unfolding payloads
compute_version md5 marshal resources = md5 (payloads marshal resources)

-- The orders of the four calls that list the maps of a node: that of the endpoints is called for
-- the version, and once more for the snapshot.
pub record Orders : Type 0 where
  pub hashed : Order ClusterLoadAssignment
  pub listed : Order ClusterLoadAssignment
  pub clusters : Order ClusterMessage
  pub routes : Order RouteConfiguration

module _ (md5 : List (List ℕ) → String) (marshal : Resource → Option (List ℕ)) where
  unfoldable pub snapshot_of : Orders → Node → Snapshot
  snapshot_of o n =
      new_snapshot (compute_version md5 marshal (endpoints_of o.hashed n)) (endpoints_of o.listed n)
        (clusters_of o.clusters n) (routes_of o.routes n) (listeners_of n)

  -- The loop of `Run` over the nodes, with the orders of each. `SetSnapshot` has no error.
  unfoldable pub set_snapshots : (ℕ → Orders) → List Node → World → Option World
  set_snapshots os [] w = some w
  set_snapshots os (n ∷ ns) w =
      let after = set_snapshot n.name (snapshot_of (os 0) n) w in
      elim after [ none ↦ none | some w' ↦ set_snapshots (λ i. os (suc i)) ns w' ]

-- A round of `Run` ends, blocks on a channel, or ends the program by a panic.
pub data Round : Type 0 where
  done : World → Round
  waiting : Round
  crashed : Round

-- What the provider returns: its map in the orders of the two loops, or an error.
pub data Provided : Type 0 where
  clusters_in : ProviderClusters → ProviderClusters → Provided
  provider_error : Provided

-- One round of the loop of `Run`, up to the wait of ten seconds.
unfoldable pub run_once :
    Marshal
    → (List (List ℕ) → String)
    → (Resource → Option (List ℕ))
    → (ℕ → Orders)
    → Provided
    → World
    → Round
run_once message_to_any md5 marshal os provider_error w = done w
run_once message_to_any md5 marshal os (clusters_in first second) w =
    elim (transform message_to_any first second) [
      | panic ↦ crashed
      | value nodes ↦ elim (set_snapshots md5 marshal os nodes w) [
        | none ↦ waiting
        | some w' ↦ done w'
      ]
    ]
