-- ===== src/Cache/Status.antt =====
-- pkg/cache/status.go and the types of pkg/cache/cache.go: what the cache keeps for each node.
use bent.Shared.{length, Map, ℕ, String, Option, List, []}
use bent.Envoy.{DiscoveryRequest, EnvoyNode}
use bent.Cache.Resource.{Resource}

abbrev pub Request : Type 0
Request = DiscoveryRequest

pub record Response : Type 0 where
  pub request : Request
  pub version : String
  pub resources : List Resource

-- The channel for the response is a number of Channels.antt.
pub record ResponseWatch : Type 0 where
  pub request : Request
  pub response : ℕ

-- Each method of the cache holds its mutex from beginning to end, so the mutex of a status record
-- adds no interleaving.
pub record StatusInfo : Type 0 where
  pub node : Option EnvoyNode
  pub watches : Map ℕ ResponseWatch
  pub last_watch_request_time : ℕ

-- `zero_time` is Go's zero time.
abbrev pub zero_time : ℕ
zero_time = 0

unfoldable pub new_status_info : Option EnvoyNode → StatusInfo
new_status_info node = record { node = node; watches = []; last_watch_request_time = zero_time }

unfoldable pub get_node : StatusInfo → Option EnvoyNode
get_node info = info.node

unfoldable pub get_num_watches : StatusInfo → ℕ
get_num_watches info = length info.watches

unfoldable pub get_last_watch_request_time : StatusInfo → ℕ
get_last_watch_request_time info = info.last_watch_request_time
