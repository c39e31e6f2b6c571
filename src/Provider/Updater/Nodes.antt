-- ===== src/Provider/Updater/Nodes.antt =====
-- The nodes that `transform` makes.
use bent.Provider.Node.WellFormed.{
  new_node-IsWellFormed, add_cluster-IsWellFormed, add_listener-IsWellFormed,
  add_route-IsWellFormed, IsWellFormed-of_value, IsWellFormed,
}
use bent.Provider.Updater.{
  default_egress, egress_route, ingress_route, global_vhosts, default_ingress, global_clusters,
  ProviderClusters, make_nodes, add_locals, make_node, make_ingress, transform, local_cluster_name,
  add_local,
}
use bent.Envoy.{VirtualHost}
use bent.Provider.Listener.{
  inject_authz, new_listener, inject_health_check_cache, resource, Listener, Marshal,
}
use bent.Provider.Node.{create_envoy_vhost, add_route, add_listener, add_cluster, Node, new_node}
use bent.Provider.Cluster.{cluster_config, Cluster}
use bent.Provider.Annotations.{Panics-cases, value, Panics}
use bent.Shared.{String, ◌≡◌, subst, inl, inr, List, [], ◌∷◌, ◌++◌, arith}

-- The nodes are well-formed, and they are as many as the names and go by them.
abbrev pub AllWellFormed : List String → List Node → Type 0
AllWellFormed [] [] = Unit
AllWellFormed [] (n ∷ ns) = ⊥
AllWellFormed (name ∷ names) [] = ⊥
AllWellFormed (name ∷ names) (n ∷ ns) = IsWellFormed name n × AllWellFormed names ns

-- The nodes that a provider has services for.
abbrev pub nodes_in : ProviderClusters → List String
nodes_in [] = []
nodes_in ((node, clusters) ∷ rest) = node ∷ nodes_in rest

module _ (message_to_any : Marshal) where
  add_local-IsWellFormed :
      {node : String} (c : Cluster) (n : Node) (l : Listener) (s' : Node × Listener)
      → IsWellFormed node n
      → add_local message_to_any c (n, l) ≡ value s'
      → IsWellFormed node s'.0
  unfolding add_local
  add_local-IsWellFormed c n l s' v e =
      let local : Cluster = record { name = local_cluster_name c.name; endpoints = c.endpoints } in
      let host =
        create_envoy_vhost (record { hostname = c.name; cluster = local_cluster_name c.name }) in
      elim (Panics-cases (add_cluster n (local ∷ []))) [
        | inl crash ↦ absurd (ground (arith, crash))
        | inr (n1, added) ↦ elim (Panics-cases (inject_health_check_cache message_to_any c l)) [
          | inl crash ↦ absurd (ground (arith, added, crash))
          | inr (l1, injected) ↦ elim (Panics-cases (cluster_config c)) [
            | inl crash ↦ absurd (ground (arith, added, injected, crash))
            | inr (cfg, read) ↦
                IsWellFormed-of_value (add_route n1 ingress_route (host ∷ [])) s'.0
                  (ground (arith, added, injected, read))
                  (add_route-IsWellFormed n1 ingress_route (host ∷ [])
                    (add_cluster-IsWellFormed (local ∷ []) n n1 v added))
          ]
        ]
      ]

  add_locals-IsWellFormed :
      {node : String} (cs : List Cluster) (n : Node) (l : Listener) (s' : Node × Listener)
      → IsWellFormed node n
      → add_locals message_to_any cs (n, l) ≡ value s'
      → IsWellFormed node s'.0
  unfolding add_locals
  add_locals-IsWellFormed [] n l s' v e = IsWellFormed-of_value n s'.0 (ground arith) v
  add_locals-IsWellFormed (c ∷ cs) n l s' v e =
      elim (Panics-cases (add_local message_to_any c (n, l))) [
        | inl crash ↦ absurd (ground (arith, crash))
        | inr ((n1, l1), added) ↦
            add_locals-IsWellFormed cs n1 l1 s' (add_local-IsWellFormed c n l (n1, l1) v added)
              (rw added at e)
      ]

  make_node-IsWellFormed :
      (globals : List Cluster) (vhosts : List VirtualHost) (name : String) (clusters : List Cluster)
      (n : Node)
      → make_node message_to_any globals vhosts name clusters ≡ value n
      → IsWellFormed name n
  unfolding make_node
  make_node-IsWellFormed globals vhosts name clusters n e =
      elim (Panics-cases (add_cluster (new_node name) globals)) [
        | inl crash ↦ absurd (ground (arith, crash))
        | inr (n1, added) ↦
            let l =
              new_listener message_to_any (default_ingress message_to_any "default-ingress") in
            let n2 = add_route n1 egress_route vhosts in
            let v2 = add_route-IsWellFormed n1 egress_route vhosts (
              add_cluster-IsWellFormed globals (new_node name) n1 (new_node-IsWellFormed name)
                added) in
            elim (Panics-cases (add_locals message_to_any clusters (n2, l))) [
              | inl crash ↦ absurd (ground (arith, added, crash))
              | inr ((n3, l3), looped) ↦
                  let ls =
                    resource message_to_any l3
                    ∷ resource message_to_any
                        (new_listener message_to_any (default_egress message_to_any))
                    ∷ [] in
                  IsWellFormed-of_value (add_listener n3 ls) n (ground (arith, added, looped)) (
                    add_listener-IsWellFormed n3 ls
                      (add_locals-IsWellFormed clusters n2 l (n3, l3) v2 looped))
            ]
      ]

  make_ingress-IsWellFormed :
      (globals : List Cluster) (vhosts : List VirtualHost) (n : Node)
      → make_ingress message_to_any globals vhosts ≡ value n
      → IsWellFormed "ingress" n
  unfolding make_ingress
  make_ingress-IsWellFormed globals vhosts n e =
      elim (Panics-cases (add_cluster (new_node "ingress") globals)) [
        | inl crash ↦ absurd (ground (arith, crash))
        | inr (n1, added) ↦
            let ls =
              resource message_to_any (
                inject_authz message_to_any (record { cluster = "authz" })
                  (new_listener message_to_any (default_ingress message_to_any "")))
              ∷ [] in
            IsWellFormed-of_value (add_listener (add_route n1 ingress_route vhosts) ls) n
              (ground (arith, added))
              (add_listener-IsWellFormed (add_route n1 ingress_route vhosts) ls (
                add_route-IsWellFormed n1 ingress_route vhosts (
                  add_cluster-IsWellFormed globals (new_node "ingress") n1
                    (new_node-IsWellFormed "ingress") added)))
      ]

  AllWellFormed-of_value :
      (names : List String) (ns ns' : List Node)
      → ◌≡◌ {A = Panics (List Node)} (value ns) (value ns')
      → AllWellFormed names ns
      → AllWellFormed names ns'
  AllWellFormed-of_value names ns ns' e =
      subst (AllWellFormed names) {x = ns} {y = ns'} (ground arith)

  make_nodes-AllWellFormed :
      (globals : List Cluster) (vhosts : List VirtualHost) (m : ProviderClusters) (ns : List Node)
      → make_nodes message_to_any globals vhosts m ≡ value ns
      → AllWellFormed (nodes_in m) ns
  unfolding make_nodes
  make_nodes-AllWellFormed globals vhosts [] ns e = AllWellFormed-of_value [] [] ns e tt
  make_nodes-AllWellFormed globals vhosts ((name, cs) ∷ m) ns e =
      elim (Panics-cases (make_node message_to_any globals vhosts name cs)) [
        | inl crash ↦ absurd (ground (arith, crash))
        | inr (n, made) ↦ elim (Panics-cases (make_nodes message_to_any globals vhosts m)) [
          | inl crash ↦ absurd (ground (arith, made, crash))
          | inr (rest, others) ↦
              AllWellFormed-of_value (name ∷ nodes_in m) (n ∷ rest) ns
                (ground (arith, made, others))
                (
                  make_node-IsWellFormed globals vhosts name cs n made,
                  make_nodes-AllWellFormed globals vhosts m rest others,
                )
        ]
      ]

  AllWellFormed-append :
      (names : List String) (name : String) (ns : List Node) (n : Node)
      → AllWellFormed names ns
      → IsWellFormed name n
      → AllWellFormed (names ++ name ∷ []) (ns ++ n ∷ [])
  AllWellFormed-append [] name [] n h v = (v, tt)
  AllWellFormed-append [] name (m ∷ ns) n h v = absurd h
  AllWellFormed-append (other ∷ names) name [] n h v = absurd h
  AllWellFormed-append (other ∷ names) name (m ∷ ns) n h v =
      (h.0, AllWellFormed-append names name ns n h.1 v)

  -- Whatever the providers hand over, and in whatever orders the map is gone through: if `transform`
  -- returns, then it returns one node for each node of the provider, under its name and in the
  -- order of the second loop, and last the front proxy; in each of them the clusters and the
  -- assignments of endpoints go by the same names, and no route has two virtual hosts of one name.
  pub transform-AllWellFormed :
      (first second : ProviderClusters) (ns : List Node)
      → transform message_to_any first second ≡ value ns
      → AllWellFormed (nodes_in second ++ "ingress" ∷ []) ns
  unfolding transform
  transform-AllWellFormed first second ns e =
      elim (Panics-cases
        (make_nodes message_to_any (global_clusters first) (global_vhosts first) second)) [
          | inl crash ↦ absurd (ground (arith, crash))
          | inr (nodes, made) ↦
              elim (Panics-cases
                (make_ingress message_to_any (global_clusters first) (global_vhosts first))) [
                  | inl crash ↦ absurd (ground (arith, made, crash))
                  | inr (front, last) ↦
                      AllWellFormed-of_value (nodes_in second ++ "ingress" ∷ [])
                        (nodes ++ front ∷ []) ns (ground (arith, made, last))
                        (AllWellFormed-append (nodes_in second) "ingress" nodes front
                          (make_nodes-AllWellFormed (global_clusters first) (global_vhosts first)
                            second nodes made)
                          (make_ingress-IsWellFormed (global_clusters first) (global_vhosts first)
                            front last))
                ]
        ]
