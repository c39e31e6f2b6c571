-- ===== src/Provider/Updater/Filters.antt =====
-- The filters of the ingress listener beside a task.
use bent.Provider.Listener.Filters.{
  filter_names-inject_health_check_cache, filter_names-inject_fault, filter_names, filters_for,
}
use bent.Provider.Node.{add_cluster, Node}
use bent.Provider.Updater.{local_cluster_name, add_locals, add_local}
use bent.Provider.Listener.{inject_fault, inject_health_check_cache, Listener, Marshal}
use bent.Provider.Annotations.{Panics-cases, panic, value, Panics}
use bent.Provider.Cluster.{cluster_config, ClusterConfig, Cluster}
use mathlib.Core.List.{append_assoc}
use bent.Shared.{String, ◌≡◌, sym, ap, ◌∙◌, inl, inr, List, [], ◌∷◌, ◌++◌, arith}

-- The filters of one service, if its annotations can be read.
abbrev pub filters_of : Panics ClusterConfig → List String
filters_of panic = []
filters_of (value cfg) = filters_for cfg

-- The filters of the services, those of the last service first.
abbrev pub filters_of_all : List Cluster → List String
filters_of_all [] = []
filters_of_all (c ∷ cs) = filters_of_all cs ++ filters_of (cluster_config c)

module _ (message_to_any : Marshal) where
  add_local-filters :
      (c : Cluster) (n n' : Node) (l l' : Listener)
      → add_local message_to_any c (n, l) ≡ value (n', l')
      → filter_names l' ≡ filters_of (cluster_config c) ++ filter_names l
  unfolding add_local
  add_local-filters c n n' l l' e =
      let local : Cluster = record { name = local_cluster_name c.name; endpoints = c.endpoints } in
      elim (Panics-cases (add_cluster n (local ∷ []))) [
        | inl crash ↦ absurd (ground (arith, crash))
        | inr (n1, added) ↦ elim (Panics-cases (inject_health_check_cache message_to_any c l)) [
          | inl crash ↦ absurd (ground (arith, added, crash))
          | inr (l1, injected) ↦ elim (Panics-cases (cluster_config c)) [
            | inl crash ↦ absurd (ground (arith, added, injected, crash))
            | inr (cfg, read) ↦
                let same : inject_fault message_to_any cfg.fault_config l1 ≡ l' =
                  ground (arith, added, injected, read) in
                rw (read, ← same)
                  (ground (
                    arith,
                    filter_names-inject_fault message_to_any cfg l1,
                    filter_names-inject_health_check_cache message_to_any c l l1 injected,
                  ))
          ]
        ]
      ]

  -- The loop of `transform` over the services of a node leaves the ingress listener with the filters
  -- of the services before those that it had: of each service a fault if its annotations enable it
  -- and then the cache of health checks, those of the last service first.
  pub filter_names-add_locals :
      (cs : List Cluster) (n n' : Node) (l l' : Listener)
      → add_locals message_to_any cs (n, l) ≡ value (n', l')
      → filter_names l' ≡ filters_of_all cs ++ filter_names l
  unfolding add_locals
  filter_names-add_locals [] n n' l l' e = ground arith
  filter_names-add_locals (c ∷ cs) n n' l l' e =
      elim (Panics-cases (add_local message_to_any c (n, l))) [
        | inl crash ↦ absurd (ground (arith, crash))
        | inr ((n1, l1), added) ↦
            filter_names-add_locals cs n1 n' l1 l' (rw added at e)
            ∙ ap (λ t. filters_of_all cs ++ t) (add_local-filters c n n1 l l1 added)
            ∙ sym
                (append_assoc (filters_of_all cs) (filters_of (cluster_config c)) (filter_names l))
      ]
