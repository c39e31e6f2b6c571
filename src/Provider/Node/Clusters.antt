-- ===== src/Provider/Node/Clusters.antt =====
-- The clusters of a node and their endpoints.
use bent.Envoy.{ListenerMessage, VirtualHost}
use bent.Provider.Annotations.{Panics-cases, value}
use bent.Provider.Cluster.{Endpoint, Cluster}
use bent.Provider.Node.{
  add_vhost, add_listener, add_vhosts, ensure_route, create_envoy_cluster, add_cluster,
  add_endpoints, add_route, ensure_cluster, new_node, Node,
}
use bent.Shared.{
  ◌==◌, ==_iff, Bool-cases, lookup, contains, lookup-insert, String, ◌≡◌, refl, sym, ap, ◌∙◌, subst,
  inl, inr, ◌||◌, List, [], ◌∷◌, arith, string_key, nat_key,
}

-- Under every name a node has a cluster exactly if it has an assignment of endpoints.
abbrev pub IsPaired : Node → Type 0
IsPaired n = (name : String) → contains name n.clusters ≡ contains name n.endpoints

pub new_node-IsPaired : (name : String) → IsPaired (new_node name)
unfolding new_node lookup
new_node-IsPaired name k = refl

ensure_cluster-lookup :
    (n : Node) (c : Cluster) {n' : Node}
    → ensure_cluster n c ≡ value n'
    → (n'.endpoints ≡ n.endpoints)
      × ((k : String) → contains k n'.clusters ≡ (c.name == k || contains k n.clusters))
unfolding ensure_cluster
ensure_cluster-lookup n c {n'} e = elim (Bool-cases (contains c.name n.clusters)) [
  | inl old ↦ (ground (arith, old), λ k. ground (arith, old, ==_iff c.name k))
  | inr new ↦ elim (Panics-cases (create_envoy_cluster c)) [
    | inl crash ↦ absurd (ground (arith, new, crash))
    | inr (m, made) ↦ (
      ground (arith, new, made),
      λ k. ground (arith, new, made, lookup-insert c.name k m n.clusters),
    )
  ]
]

add_endpoints-lookup :
    (n : Node) (name : String) (eps : List Endpoint)
    → ((add_endpoints n name eps).clusters ≡ n.clusters)
      × ((k : String)
          → contains k (add_endpoints n name eps).endpoints ≡ (name == k || contains k n.endpoints))
unfolding add_endpoints
add_endpoints-lookup n name eps = (refl, λ k. rw lookup-insert (ground (arith, ==_iff name k)))

-- `AddCluster` adds a cluster and its endpoints under each of the names, so the node stays paired.
pub add_cluster-IsPaired :
    (cs : List Cluster) (n n' : Node) → IsPaired n → add_cluster n cs ≡ value n' → IsPaired n'
unfolding add_cluster
add_cluster-IsPaired [] n n' h e =
    subst (λ (m : Node). IsPaired m) {x = n} {y = n'} (ground arith) h
add_cluster-IsPaired (c ∷ cs) n n' h e = elim (Panics-cases (ensure_cluster n c)) [
  | inl crash ↦ absurd (ground (arith, crash))
  | inr (n1, ensured) ↦
      let (same, has) = ensure_cluster-lookup n c ensured in
      let (kept, got) = add_endpoints-lookup n1 c.name c.endpoints in
      add_cluster-IsPaired cs (add_endpoints n1 c.name c.endpoints) n'
        (λ k. ap (contains k) kept ∙ has k ∙ rw (h k) (sym (got k ∙ rw same))) (rw ensured at e)
]

add_vhosts_keeps :
    (route_name : String) (n : Node) (vs : List VirtualHost)
    → ((add_vhosts route_name n vs).clusters ≡ n.clusters)
      × ((add_vhosts route_name n vs).endpoints ≡ n.endpoints)
unfolding add_vhosts add_vhost
add_vhosts_keeps route_name n [] = (refl, refl)
add_vhosts_keeps route_name n (v ∷ vs) =
    ground (arith, add_vhosts_keeps route_name (add_vhost route_name n v) vs)

-- `AddRoute` leaves the clusters and the endpoints as they are.
pub add_route_keeps :
    (n : Node) (route_name : String) (vhosts : List VirtualHost)
    → ((add_route n route_name vhosts).clusters ≡ n.clusters)
      × ((add_route n route_name vhosts).endpoints ≡ n.endpoints)
unfolding add_route
add_route_keeps n route_name vhosts =
    ground (arith, add_vhosts_keeps route_name (ensure_route route_name n) vhosts)

pub add_route-IsPaired :
    (n : Node) (route_name : String) (vhosts : List VirtualHost)
    → IsPaired n
    → IsPaired (add_route n route_name vhosts)
add_route-IsPaired n route_name vhosts h k =
    let (cs, es) = add_route_keeps n route_name vhosts in
    ap (contains k) cs ∙ h k ∙ sym (ap (contains k) es)

pub add_listener-IsPaired :
    (n : Node) (ls : List ListenerMessage) → IsPaired n → IsPaired (add_listener n ls)
unfolding add_listener
add_listener-IsPaired n ls h = h
