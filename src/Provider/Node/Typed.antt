-- ===== src/Provider/Node/Typed.antt =====
-- The types of the resources of a node.
use bent.Cache.Resource.{
  route, cluster, endpoint, route_type, cluster_type, endpoint_type, listener, listener_type,
  Resource,
}
use bent.Cache.Snapshot.Typed.{resource_type, AllOf}
use bent.Envoy.{ListenerMessage, ClusterLoadAssignment, ClusterMessage, RouteConfiguration}
use bent.Provider.Node.{
  Order, Node, listeners_of, routes_of, clusters_of, resources_of, endpoints_of,
}
use bent.Shared.{Map, String, ◌≡◌, refl, List, [], ◌∷◌, map}

resources_of-AllOf :
    {A : Type 0} (url : String) (f : A → Resource) (m : Map String A)
    → ((a : A) → resource_type (f a) ≡ url)
    → AllOf url (resources_of f m)
unfolding resources_of
resources_of-AllOf url f [] h = tt
resources_of-AllOf url f ((name, a) ∷ m) h = (h a, resources_of-AllOf url f m h)

map-AllOf : (ls : List ListenerMessage) → AllOf listener_type (map listener ls)
map-AllOf [] = tt
map-AllOf (l ∷ ls) = (refl, map-AllOf ls)

-- Each list of resources that a node hands over is of one type.
pub node-AllOf :
    (e : Order ClusterLoadAssignment) (c : Order ClusterMessage) (r : Order RouteConfiguration)
    (n : Node)
    → AllOf endpoint_type (endpoints_of e n)
      × AllOf cluster_type (clusters_of c n)
      × AllOf route_type (routes_of r n)
      × AllOf listener_type (listeners_of n)
unfolding endpoints_of clusters_of routes_of listeners_of
node-AllOf e c r n = (
  resources_of-AllOf endpoint_type endpoint (e.ranged n.endpoints) (λ a. refl),
  resources_of-AllOf cluster_type cluster (c.ranged n.clusters) (λ a. refl),
  resources_of-AllOf route_type route (r.ranged n.routes) (λ a. refl),
  map-AllOf n.listeners,
)
