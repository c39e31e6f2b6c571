-- ===== src/Provider/Listener/Filters.antt =====
-- The order of the filters of a listener's connection manager.
use bent.Provider.Annotations.{Panics-cases, value}
use bent.Provider.Listener.{
  health_check_filter, inject_health_check_cache, inject_fault, fault_filter, Marshal, Listener,
}
use bent.Provider.Cluster.{cluster_config, Cluster, ClusterConfig}
use bent.Envoy.{HttpFilter}
use bent.Shared.{if◌then◌else◌, Bool-cases, String, ◌≡◌, refl, inl, inr, List, [], ◌∷◌, arith}

abbrev pub names_in : List HttpFilter → List String
names_in [] = []
names_in (f ∷ fs) = f.name ∷ names_in fs

abbrev pub filter_names : Listener → List String
filter_names l = names_in l.hcm.http_filters

-- The filters that a service puts before the others: a fault if that is enabled, then the cache of
-- health checks.
abbrev pub filters_for : ClusterConfig → List String
filters_for cfg =
    if cfg.fault_config.enabled
    then fault_filter ∷ health_check_filter ∷ []
    else health_check_filter ∷ []

module _ (message_to_any : Marshal) where
  pub filter_names-inject_fault :
      (cfg : ClusterConfig) (l : Listener)
      → filter_names (inject_fault message_to_any cfg.fault_config l)
        ≡ (if cfg.fault_config.enabled then fault_filter ∷ filter_names l else filter_names l)
  unfolding inject_fault
  filter_names-inject_fault cfg l = elim (Bool-cases cfg.fault_config.enabled) [
    | inl on ↦ rw on refl
    | inr off ↦ rw off refl
  ]

  pub filter_names-inject_health_check_cache :
      (c : Cluster) (l l' : Listener)
      → inject_health_check_cache message_to_any c l ≡ value l'
      → filter_names l' ≡ health_check_filter ∷ filter_names l
  unfolding inject_health_check_cache
  filter_names-inject_health_check_cache c l l' e = elim (Panics-cases (cluster_config c)) [
    | inl crash ↦ absurd (ground (arith, crash))
    | inr (cfg, read) ↦ ground (arith, read)
  ]
