-- ===== src/Provider/Cluster/Reading.antt =====
-- Which services have annotations that can be read.
use bent.Provider.Annotations.{nonneg, value, Annotations, split}
use bent.Provider.Annotations.Range.{range_never_read, starts_range}
use bent.Provider.Cluster.{
  config_for, merge_into, ClusterConfig, Endpoint, parse_cluster_annotations, merge_annotations,
  make_egress_endpoints, make_egress_clusters, cluster_config, Cluster, merge_endpoints,
}
use bent.Shared.{get_or, lookup, ◌≡◌, refl, false, List, [], ◌∷◌, ◌++◌, string_key, nat_key}

-- The merged annotations of a service do not spell a range of statuses.
abbrev pub IsReadable : Cluster → Type 0
IsReadable c =
    starts_range
      (split b'-' (get_or (lookup "healthcheck.expected-status" (merge_annotations c)) ""))
    ≡ false

abbrev pub AllReadable : List Cluster → Type 0
AllReadable [] = Unit
AllReadable (c ∷ cs) = IsReadable c × AllReadable cs

pub AllReadable-append :
    (cs ds : List Cluster) → AllReadable cs → AllReadable ds → AllReadable (cs ++ ds)
AllReadable-append [] ds h k = k
AllReadable-append (c ∷ cs) ds h k = (h.0, AllReadable-append cs ds h.1 k)

-- The configuration of a service can be read.
pub cluster_config_returns :
    (c : Cluster) → IsReadable c → (cfg : ClusterConfig) × (cluster_config c ≡ value cfg)
unfolding cluster_config parse_cluster_annotations
cluster_config_returns c h =
    let e =
      range_never_read (get_or (lookup "healthcheck.expected-status" (merge_annotations c)) "")
        (nonneg 200) (nonneg 400) in
    (
      config_for (merge_annotations c) (nonneg 200, nonneg 400),
      rw (cluster_config, parse_cluster_annotations, e, h) refl,
    )

merge_endpoints-make_egress_endpoints :
    (eps : List Endpoint) (out : Annotations)
    → merge_endpoints (make_egress_endpoints eps) out ≡ merge_endpoints eps out
unfolding merge_endpoints make_egress_endpoints
merge_endpoints-make_egress_endpoints [] out = refl
merge_endpoints-make_egress_endpoints (ep ∷ eps) out =
    merge_endpoints-make_egress_endpoints eps (merge_into ep.annotations out)

-- A service at its sidecars has the annotations of the service.
pub make_egress_clusters-AllReadable :
    (cs : List Cluster) → AllReadable cs → AllReadable (make_egress_clusters cs)
unfolding make_egress_clusters merge_annotations
make_egress_clusters-AllReadable [] h = tt
make_egress_clusters-AllReadable (c ∷ cs) h = (
  rw (merge_endpoints-make_egress_endpoints c.endpoints []) h.0,
  make_egress_clusters-AllReadable cs h.1,
)
