-- ===== src/Provider/Node/Returns.antt =====
-- `AddCluster` does not panic on services whose annotations can be read.
use bent.Provider.Annotations.{value}
use bent.Provider.Cluster.Reading.{cluster_config_returns, IsReadable, AllReadable}
use bent.Provider.Cluster.{Cluster}
use bent.Provider.Node.{add_endpoints, Node, create_envoy_cluster, ensure_cluster, add_cluster}
use bent.Shared.{
  Bool-cases, contains, ◌≡◌, refl, inl, inr, List, [], ◌∷◌, arith, string_key, nat_key,
}

ensure_cluster_returns :
    (n : Node) (c : Cluster) → IsReadable c → (n' : Node) × (ensure_cluster n c ≡ value n')
unfolding ensure_cluster create_envoy_cluster
ensure_cluster_returns n c h = elim (Bool-cases (contains c.name n.clusters)) [
  | inl old ↦ (n, ground (arith, old))
  | inr new ↦
      let (cfg, e) = cluster_config_returns c h in
      rw (ensure_cluster, new, create_envoy_cluster, e) (_, refl)
]

pub add_cluster_returns :
    (cs : List Cluster) (n : Node) → AllReadable cs → (n' : Node) × (add_cluster n cs ≡ value n')
unfolding add_cluster
add_cluster_returns [] n h = (n, refl)
add_cluster_returns (c ∷ cs) n h =
    let (n1, e) = ensure_cluster_returns n c h.0 in
    let (n2, e') = add_cluster_returns cs (add_endpoints n1 c.name c.endpoints) h.1 in
    (n2, rw (add_cluster, e) e')
