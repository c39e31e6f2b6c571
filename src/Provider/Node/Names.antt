-- ===== src/Provider/Node/Names.antt =====
-- The operations of a node leave its name as it is.
use bent.Provider.Annotations.{Panics-cases, value}
use bent.Provider.Cluster.{Cluster}
use bent.Envoy.{ListenerMessage, VirtualHost}
use bent.Provider.Node.{
  add_endpoints, Node, ensure_route, add_vhost, add_route, add_vhosts, add_listener, ensure_cluster,
  add_cluster,
}
use bent.Shared.{String, ◌≡◌, refl, ◌∙◌, inl, inr, List, [], ◌∷◌, arith}

ensure_cluster_name :
    (n : Node) (c : Cluster) {n' : Node} → ensure_cluster n c ≡ value n' → n'.name ≡ n.name
unfolding ensure_cluster
ensure_cluster_name n c e = ground arith

pub add_cluster_name :
    (cs : List Cluster) (n n' : Node) → add_cluster n cs ≡ value n' → n'.name ≡ n.name
unfolding add_cluster add_endpoints
add_cluster_name [] n n' e = ground arith
add_cluster_name (c ∷ cs) n n' e = elim (Panics-cases (ensure_cluster n c)) [
  | inl crash ↦ absurd (ground (arith, crash))
  | inr (n1, ensured) ↦
      add_cluster_name cs (add_endpoints n1 c.name c.endpoints) n' (rw ensured at e)
      ∙ ensure_cluster_name n c ensured
]

add_vhosts_name :
    (r : String) (n : Node) (vs : List VirtualHost) → (add_vhosts r n vs).name ≡ n.name
unfolding add_vhosts add_vhost
add_vhosts_name r n [] = refl
add_vhosts_name r n (v ∷ vs) = ground (arith, add_vhosts_name r (add_vhost r n v) vs)

pub add_route_name :
    (n : Node) (r : String) (vs : List VirtualHost) → (add_route n r vs).name ≡ n.name
unfolding add_route ensure_route
add_route_name n r vs = ground (arith, add_vhosts_name r (ensure_route r n) vs)

pub add_listener_name : (n : Node) (ls : List ListenerMessage) → (add_listener n ls).name ≡ n.name
unfolding add_listener
add_listener_name n ls = refl
