-- ===== src/Provider/Updater/Returns.antt =====
-- When `transform` does not panic.
use bent.Provider.Node.Returns.{add_cluster_returns}
use bent.Provider.Annotations.{value}
use bent.Envoy.{VirtualHost}
use bent.Provider.Node.{add_route, new_node, Node}
use bent.Provider.Cluster.{make_egress_clusters, merge_annotations, Cluster}
use bent.Provider.Cluster.Reading.{
  cluster_config_returns, IsReadable, make_egress_clusters-AllReadable, AllReadable-append,
  AllReadable,
}
use bent.Provider.Listener.{Listener, inject_health_check_cache, Marshal}
use bent.Provider.Updater.{
  default_ingress, egress_route, local_cluster_name, global_vhosts, add_local, make_ingress,
  transform, make_nodes, add_locals, make_node, ProviderClusters, global_clusters,
}
use bent.Provider.Listener.{new_listener}
use bent.Shared.{String, ◌≡◌, refl, List, [], ◌∷◌}

-- The annotations of every service of every node can be read.
abbrev pub AllProvidedReadable : ProviderClusters → Type 0
AllProvidedReadable [] = Unit
AllProvidedReadable ((node, cs) ∷ rest) = AllReadable cs × AllProvidedReadable rest

global_clusters-AllReadable :
    (m : ProviderClusters) → AllProvidedReadable m → AllReadable (global_clusters m)
unfolding global_clusters
global_clusters-AllReadable [] h = tt
global_clusters-AllReadable ((node, cs) ∷ m) h =
    AllReadable-append (make_egress_clusters cs) (global_clusters m)
      (make_egress_clusters-AllReadable cs h.0) (global_clusters-AllReadable m h.1)

module _ (message_to_any : Marshal) where
  add_local_returns :
      (c : Cluster) (n : Node) (l : Listener)
      → IsReadable c
      → (s : Node × Listener) × (add_local message_to_any c (n, l) ≡ value s)
  unfolding add_local inject_health_check_cache merge_annotations
  add_local_returns c n l h =
      let local : Cluster = record { name = local_cluster_name c.name; endpoints = c.endpoints } in
      let (n1, e) = add_cluster_returns (local ∷ []) n (h, tt) in
      let (cfg, e') = cluster_config_returns c h in
      rw (add_local, e, inject_health_check_cache, e') (_, refl)

  add_locals_returns :
      (cs : List Cluster) (n : Node) (l : Listener)
      → AllReadable cs
      → (s : Node × Listener) × (add_locals message_to_any cs (n, l) ≡ value s)
  unfolding add_locals
  add_locals_returns [] n l h = (_, refl)
  add_locals_returns (c ∷ cs) n l h =
      let ((n1, l1), e) = add_local_returns c n l h.0 in
      let (s, e') = add_locals_returns cs n1 l1 h.1 in (s, rw (add_locals, e) e')

  make_node_returns :
      (globals : List Cluster) (vhosts : List VirtualHost) (name : String) (cs : List Cluster)
      → AllReadable globals
      → AllReadable cs
      → (n : Node) × (make_node message_to_any globals vhosts name cs ≡ value n)
  unfolding make_node
  make_node_returns globals vhosts name cs g h =
      let (n1, e) = add_cluster_returns globals (new_node name) g in
      let ((n2, l2), e') =
        add_locals_returns cs (add_route n1 egress_route vhosts)
          (new_listener message_to_any (default_ingress message_to_any "default-ingress")) h in
      rw (make_node, e, e') (_, refl)

  make_nodes_returns :
      (globals : List Cluster) (vhosts : List VirtualHost) (m : ProviderClusters)
      → AllReadable globals
      → AllProvidedReadable m
      → (ns : List Node) × (make_nodes message_to_any globals vhosts m ≡ value ns)
  unfolding make_nodes
  make_nodes_returns globals vhosts [] g h = ([], refl)
  make_nodes_returns globals vhosts ((name, cs) ∷ m) g h =
      let (n, e) = make_node_returns globals vhosts name cs g h.0 in
      let (ns, e') = make_nodes_returns globals vhosts m g h.1 in
      (n ∷ ns, rw (make_nodes, e, e') refl)

  make_ingress_returns :
      (globals : List Cluster) (vhosts : List VirtualHost)
      → AllReadable globals
      → (n : Node) × (make_ingress message_to_any globals vhosts ≡ value n)
  unfolding make_ingress
  make_ingress_returns globals vhosts g =
      let (n1, e) = add_cluster_returns globals (new_node "ingress") g in
      rw (make_ingress, e) (_, refl)

  -- `transform` returns if no service has annotations that spell a range of statuses, in whatever
  -- orders the provider's map is gone through.
  pub transform_returns :
      (first second : ProviderClusters)
      → AllProvidedReadable first
      → AllProvidedReadable second
      → (ns : List Node) × (transform message_to_any first second ≡ value ns)
  unfolding transform
  transform_returns first second g h =
      let globals = global_clusters-AllReadable first g in
      let (nodes, e) =
        make_nodes_returns (global_clusters first) (global_vhosts first) second globals h in
      let (front, e') =
        make_ingress_returns (global_clusters first) (global_vhosts first) globals in
      rw (transform, e, e') (_, refl)
