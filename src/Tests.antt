-- ===== src/Tests.antt =====
-- The theorems at concrete inputs: a small cache with one client, streams on it, and two nodes.
mod Server
mod Provider
mod Orders
mod Fargate
mod Rounds
mod System
mod Programs
use bent.Cache.Snapshot.Consistency.{consistent_iff, IsConsistent}
use bent.Cache.Simple.Meantime.{create_watch-set_snapshot, IsDelivered}
use bent.Cache.Simple.Fetching.{create_response-resources}
use bent.Cache.Snapshot.Index.{is_listed, lookup-index_resources_by_name}
use bent.Cache.Simple.Notify.{due, set_snapshot_lem, IsNotified}
use bent.Cache.Simple.Canceling.{watch_at-cancel_watch, watch_at}
use bent.Cache.Simple.Sound.{new_snapshot_cache-IsSound, create_watch_returns, IsSound}
use bent.Cache.Simple.Current.{run-IsCurrent, IsCurrent}
use bent.Cache.Resource.{Decoders, cluster, endpoint, get_resource_name, cluster_type}
use bent.Cache.Simple.Watched.{new_watch, create_watch-IsWatched, IsWatched}
use bent.Cache.Status.{Request}
use bent.Envoy.{
  unset, ingress, codec_auto, HttpConnectionManager, round_robin, v4_only, eds, ClusterMessage,
  ClusterLoadAssignment, EnvoyNode,
}
use bent.Cache.Snapshot.{
  missing_snapshot, consistent, get_resources, index_resources_by_name, superset, get_version,
  Snapshot, new_snapshot,
}
use bent.Cache.Simple.Run.{Command, run_returns, cancels, receives, sets, watches, step, run}
use bent.Cache.Simple.{
  refused, fetch, all_resources, cancel_watch, respond, create_response, held_back, node_id,
  set_snapshot, Cancel, create_watch, World, new_snapshot_cache,
}
use mathlib.Core.List.{Mem}
use bent.Cache.Channels.{receive, send}
use bent.Shared.{
  ◌==◌, ==_iff, get_or, keep_if, lookup, insert, ℕ, String, ◌≡◌, refl, subst, ◌≢◌, ◌↔◌, true, false,
  Option, none, some, List, [], ◌∷◌, arith, string_key, nat_key,
}

-- The client "a", which asks for its clusters.
abbrev pub client : EnvoyNode
client = record { id = "a" }

abbrev pub ask_clusters : Request
ask_clusters = record {
  version_info = "";
  node = some client;
  resource_names = [];
  type_url = cluster_type;
  response_nonce = "";
}

abbrev pub backend : ClusterMessage
backend = record {
  name = "backend";
  connect_timeout = 1;
  discovery_type = eds;
  dns_lookup_family = v4_only;
  lb_policy = round_robin;
  circuit_breakers = [];
  health_checks = [];
  eds_cluster_config = none;
}

abbrev pub backend_endpoints : ClusterLoadAssignment
backend_endpoints = record { cluster_name = "backend"; endpoints = [] }

-- One cluster and its endpoints.
abbrev pub first_snapshot : Snapshot
first_snapshot = new_snapshot "1" (endpoint backend_endpoints ∷ []) (cluster backend ∷ []) ([]) ([])

abbrev pub empty_cache : World
empty_cache = new_snapshot_cache false

abbrev pub watch_result : (ℕ × Option Cancel) × World
watch_result = get_or (create_watch ask_clusters 5 empty_cache) ((0, none), empty_cache)

abbrev pub handle_of_a : Cancel
handle_of_a = record { node = "a"; watch = 1 }

abbrev pub waiting_cache : World
waiting_cache = watch_result.1

abbrev pub answered_cache : World
answered_cache = get_or (set_snapshot "a" first_snapshot waiting_cache) waiting_cache

differ : (a b : String) → (a == b) ≡ false → a ≢ b
differ a b e same = ground (arith, ==_iff a b)

run_returns_example :
    (w : World) × (run
        (new_snapshot_cache true)
        (watches ask_clusters 5 ∷ sets "a" first_snapshot ∷ receives 0 ∷ cancels handle_of_a ∷ [])
      ≡ some w)
    × IsSound w
run_returns_example =
    run_returns true
      (watches ask_clusters 5 ∷ sets "a" first_snapshot ∷ receives 0 ∷ cancels handle_of_a ∷ [])

run-IsCurrent_example : IsCurrent answered_cache
unfolding run step create_watch lookup new_snapshot_cache set_snapshot insert node_id get_version
    respond send new_snapshot
run-IsCurrent_example =
    run-IsCurrent false (watches ask_clusters 5 ∷ sets "a" first_snapshot ∷ []) answered_cache refl

-- Another node gets its snapshot, and the client of the watch waits.
abbrev meantime : List Command
meantime = sets "b" first_snapshot ∷ receives 0 ∷ []

create_watch-set_snapshot_example :
    (w1 w2 : World) × (run waiting_cache meantime ≡ some w1)
    × (set_snapshot "a" first_snapshot w1 ≡ some w2)
    × IsDelivered false (record { request = ask_clusters; response = 0 }) first_snapshot w2
unfolding create_watch node_id get_version lookup new_snapshot_cache new_snapshot
create_watch-set_snapshot_example =
    create_watch-set_snapshot ask_clusters 5 empty_cache waiting_cache 0 handle_of_a meantime
      first_snapshot (new_snapshot_cache-IsSound false) (omega arith) refl
      (differ "b" "a" refl, (tt, tt)) (differ "1" "" refl)

create_watch-IsWatched_example : IsWatched ask_clusters 5 empty_cache watch_result.0 waiting_cache
unfolding create_watch lookup new_snapshot_cache
create_watch-IsWatched_example =
    create_watch-IsWatched ask_clusters 5 empty_cache {r = watch_result.0} {w' = waiting_cache} refl

pub waiting_cache-IsSound : IsSound waiting_cache
unfolding create_watch
waiting_cache-IsSound =
    let (r, w', e, s) =
      create_watch_returns ask_clusters 5 empty_cache (new_snapshot_cache-IsSound false) in
    subst IsSound {x = w'} {y = waiting_cache} (ground arith) s

set_snapshot_lem_example :
    (w' : World) × (set_snapshot "a" first_snapshot waiting_cache ≡ some w')
    × IsNotified "a" first_snapshot waiting_cache w'
set_snapshot_lem_example = set_snapshot_lem "a" first_snapshot waiting_cache waiting_cache-IsSound

watch_at-cancel_watch_example : watch_at handle_of_a (cancel_watch handle_of_a waiting_cache) ≡ none
unfolding create_watch
watch_at-cancel_watch_example = watch_at-cancel_watch handle_of_a handle_of_a waiting_cache

create_response-resources_example :
    (create_response
      (record ask_clusters { resource_names = "backend" ∷ "other" ∷ [] })
      (get_resources (some first_snapshot) cluster_type)
      "1").resources
    ≡ all_resources (
        keep_if
          (λ e. is_listed e.0 ("backend" ∷ "other" ∷ []))
          (get_resources (some first_snapshot) cluster_type))
create_response-resources_example =
    create_response-resources (record ask_clusters { resource_names = "backend" ∷ "other" ∷ [] })
      (get_resources (some first_snapshot) cluster_type) "1"

lookup-index_resources_by_name_example :
    lookup "backend" (index_resources_by_name (cluster backend ∷ endpoint backend_endpoints ∷ []))
    ≡ some (endpoint backend_endpoints)
unfolding get_resource_name
lookup-index_resources_by_name_example =
    lookup-index_resources_by_name "backend" (cluster backend ∷ endpoint backend_endpoints ∷ [])

abbrev pub manager : HttpConnectionManager
manager = record {
  codec_type = codec_auto;
  stat_prefix = "http";
  allow_absolute_url = true;
  access_log = [];
  tracing = ingress;
  route_specifier = unset;
  http_filters = [];
}

-- No listener of the snapshots here has a filter, so these are never asked.
abbrev decoders : Decoders
decoders = record { unmarshal_any = λ a. manager; struct_to_message = λ a. manager }

consistent_iff_example :
    (consistent decoders (some first_snapshot) ≡ none) ↔ IsConsistent decoders first_snapshot
consistent_iff_example = consistent_iff decoders first_snapshot
