-- ===== src/Provider/Node/WellFormed.antt =====
-- A well-formed node, and the operations that keep it so.
use bent.Provider.Node.Names.{add_route_name, add_listener_name, add_cluster_name}
use bent.Provider.Node.Routes.{
  add_route-IsUnique, add_cluster-IsUnique, add_listener-IsUnique, new_node-IsUnique, IsUnique,
}
use bent.Provider.Node.Clusters.{
  add_listener-IsPaired, add_route-IsPaired, add_cluster-IsPaired, new_node-IsPaired, IsPaired,
}
use bent.Envoy.{ListenerMessage, VirtualHost}
use bent.Provider.Annotations.{value, Panics}
use bent.Provider.Node.{add_listener, add_route, add_cluster, new_node, Node}
use bent.Provider.Cluster.{Cluster}
use bent.Shared.{String, ◌≡◌, refl, ◌∙◌, subst, List, arith}

-- What holds of a node: it has the name that it was made with, clusters and assignments go by the
-- same names, and no route has two virtual hosts of one name.
pub record IsWellFormed (name : String) (n : Node) : Type 0 where
  pub named : n.name ≡ name
  pub paired : IsPaired n
  pub unique : IsUnique n

pub add_cluster-IsWellFormed :
    {name : String} (cs : List Cluster) (n n' : Node)
    → IsWellFormed name n
    → add_cluster n cs ≡ value n'
    → IsWellFormed name n'
add_cluster-IsWellFormed cs n n' v e = record {
  named = add_cluster_name cs n n' e ∙ v.named;
  paired = add_cluster-IsPaired cs n n' v.paired e;
  unique = add_cluster-IsUnique cs n n' v.unique e;
}

pub add_route-IsWellFormed :
    {name : String} (n : Node) (r : String) (vs : List VirtualHost)
    → IsWellFormed name n
    → IsWellFormed name (add_route n r vs)
add_route-IsWellFormed n r vs v = record {
  named = add_route_name n r vs ∙ v.named;
  paired = add_route-IsPaired n r vs v.paired;
  unique = add_route-IsUnique n r vs v.unique;
}

pub add_listener-IsWellFormed :
    {name : String} (n : Node) (ls : List ListenerMessage)
    → IsWellFormed name n
    → IsWellFormed name (add_listener n ls)
add_listener-IsWellFormed n ls v = record {
  named = add_listener_name n ls ∙ v.named;
  paired = add_listener-IsPaired n ls v.paired;
  unique = add_listener-IsUnique n ls v.unique;
}

pub new_node-IsWellFormed : (name : String) → IsWellFormed name (new_node name)
unfolding new_node
new_node-IsWellFormed name = record {
  named = refl;
  paired = new_node-IsPaired name;
  unique = new_node-IsUnique name;
}

pub IsWellFormed-of_value :
    {name : String} (n n' : Node)
    → ◌≡◌ {A = Panics Node} (value n) (value n')
    → IsWellFormed name n
    → IsWellFormed name n'
IsWellFormed-of_value {name} n n' e = subst (IsWellFormed name) {x = n} {y = n'} (ground arith)
