-- ===== src/Provider/Cluster/Bounds.antt =====
-- The bounds of the configuration that annotations spell.
use bent.Provider.Cluster.{endpoint_config, Endpoint}
use bent.Shared.{◌≤◌, arith}

-- Whatever its annotations say, the weight of an endpoint is between 1 and 128.
pub weight_bounds :
    (e : Endpoint) → (1 ≤ (endpoint_config e).weight) × ((endpoint_config e).weight ≤ 128)
unfolding endpoint_config
weight_bounds e = ground arith
