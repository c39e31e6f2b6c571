-- ===== src/Cache/Simple.antt =====
-- pkg/cache/simple.go: the snapshot cache. Every method runs under the cache's mutex, so a method
-- is one step from a world to a world; `none` means that a send on a channel would block.
pub mod Usage
pub mod Sound
pub mod Run
pub mod Notify
pub mod Watched
pub mod Current
pub mod Canceling
pub mod Opening
pub mod Answering
pub mod Awaited
pub mod Held
pub mod Open
pub mod Meantime
pub mod Carrying
pub mod Typed
pub mod Delivery
pub mod Fetching
use bent.Shared.{
  nat_eq, if◌then◌else◌, ◌==◌, is_some, get_or, length, Map, lookup, insert, erase, contains, ℕ,
  ◌+◌, ◌%◌, ◌^◌, String, Bool, true, false, not, ◌&&◌, Option, none, some, List, [], ◌∷◌,
  string_key, nat_key, ◌>>=◌,
}
use bent.Envoy.{EnvoyNode}
use bent.Cache.Resource.{Resource}
use bent.Cache.Channels.{Channels, no_channels, make_channel, send}
use bent.Cache.Snapshot.{
  Snapshot, get_resources, get_version, name_set, superset, Error, version_up_to_date,
  missing_snapshot,
}
use bent.Cache.Status.{Request, Response, ResponseWatch, StatusInfo, new_status_info}

-- An int64 as its bit pattern.
abbrev pub int64_mod : ℕ
int64_mod = 2 ^ 64

pub record SnapshotCache : Type 0 where
  pub ads : Bool
  pub snapshots : Map String Snapshot
  pub status : Map String StatusInfo
  pub watch_count : ℕ

-- The cache and the channels that it shares with the streams.
pub record World : Type 0 where
  pub cache : SnapshotCache
  pub open cache use *
  pub channels : Channels Response

unfoldable pub new_snapshot_cache : Bool → World
new_snapshot_cache ads = record {
  cache = record { ads = ads; snapshots = []; status = []; watch_count = 0 };
  channels = no_channels;
}

-- The loop of `createResponse` over the resources that the request names.
pub named_resources : Map String Bool → Map String Resource → List Resource
named_resources set [] = []
named_resources set ((name, resource) ∷ rest) =
    if contains name set then resource ∷ named_resources set rest else named_resources set rest

pub all_resources : Map String Resource → List Resource
all_resources [] = []
all_resources ((name, resource) ∷ rest) = resource ∷ all_resources rest

unfoldable pub create_response : Request → Map String Resource → String → Response
create_response request resources version = record {
  request = request;
  version = version;
  resources =
      if not (nat_eq (length request.resource_names) 0)
      then named_resources (name_set request.resource_names) resources
      else all_resources resources;
}

-- ADS holds a response back until the request names every resource.
unfoldable pub held_back : Bool → Request → Map String Resource → Bool
held_back ads request resources =
    not (nat_eq (length request.resource_names) 0)
    && ads
    && is_some (superset (name_set request.resource_names) resources)

unfoldable pub respond :
    Bool
    → Request
    → ℕ
    → Map String Resource
    → String
    → Channels Response
    → Option (Channels Response)
unfolding held_back
respond ads request value resources version channels =
    if held_back ads request resources
    then some channels
    else send value (create_response request resources version) channels

-- One round of the loop of `SetSnapshot`: whether the watch stays open, and the channels.
pub offer : Bool → Snapshot → ResponseWatch → Channels Response → Option (Bool × Channels Response)
offer ads snapshot watch channels =
    let version = get_version (some snapshot) watch.request.type_url in
    if version == watch.request.version_info then some (true, channels) else (do
      channels' ←
          respond ads watch.request watch.response
            (get_resources (some snapshot) watch.request.type_url) version channels
      some (false, channels'))

pub trigger :
    Bool
    → Snapshot
    → Map ℕ ResponseWatch
    → Channels Response
    → Option (Map ℕ ResponseWatch × Channels Response)
unfolding offer
trigger ads snapshot [] channels = some ([], channels)
trigger ads snapshot ((id, watch) ∷ watches) channels = do
  (stays, channels') ← offer ads snapshot watch channels
  (kept, channels'') ← trigger ads snapshot watches channels'
  some (if stays then (id, watch) ∷ kept else kept, channels'')

trigger_status : String → Snapshot → Option StatusInfo → World → Option World
unfolding trigger
trigger_status node snapshot none w = some w
trigger_status node snapshot (some info) w = do
  (kept, channels) ← trigger w.ads snapshot info.watches w.channels
  some (record {
    cache = record w.cache { status = insert node (record info { watches = kept }) w.status };
    channels = channels;
  })

unfoldable pub set_snapshot : String → Snapshot → World → Option World
unfolding trigger_status
set_snapshot node snapshot w =
    trigger_status node snapshot (lookup node w.status)
      (record w { cache = record w.cache { snapshots = insert node snapshot w.snapshots } })

unfoldable pub clear_snapshot : String → World → World
clear_snapshot node w = record w {
  cache = record w.cache { snapshots = erase node w.snapshots; status = erase node w.status };
}

unfoldable pub node_id : Option EnvoyNode → String
node_id none = "node"
node_id (some n) = n.id

unfoldable pub next_watch_id : SnapshotCache → ℕ × SnapshotCache
next_watch_id cache =
    let id = (cache.watch_count + 1) % int64_mod in (id, record cache { watch_count = id })

-- The closure that `cancelWatch` returns: what it has captured.
pub record Cancel : Type 0 where
  pub node : String
  pub watch : ℕ

cancel_status : Cancel → Option StatusInfo → World → World
cancel_status c none w = w
cancel_status c (some info) w = record w {
  cache = record w.cache {
    status = insert c.node (record info { watches = erase c.watch info.watches }) w.status;
  };
}

unfoldable pub cancel_watch : Cancel → World → World
unfolding cancel_status
cancel_watch c w = cancel_status c (lookup c.node w.status) w

-- The status record of the request's node, made if it is missing, with its new time.
pub touch : Request → ℕ → SnapshotCache → StatusInfo
unfolding new_status_info
touch request now cache =
    record (get_or (lookup (node_id request.node) cache.status) (new_status_info request.node)) {
      last_watch_request_time = now;
    }

-- Leaves a watch open.
open_watch : Request → ℕ → StatusInfo → World → (ℕ × Option Cancel) × World
unfolding next_watch_id
open_watch request value info w =
    let node = node_id request.node in
    let (id, cache) = next_watch_id w.cache in
    let watch : ResponseWatch = record { request = request; response = value } in
    (
      (value, some (record { node = node; watch = id })),
      record w {
        cache = record cache {
          status =
              insert node (record info { watches = insert id watch info.watches }) cache.status;
        };
      },
    )

-- Answers at once; the cancel function is nil.
answer_watch : Request → ℕ → Snapshot → World → Option ((ℕ × Option Cancel) × World)
answer_watch request value snapshot w = do
  channels ←
      respond w.ads request value (get_resources (some snapshot) request.type_url)
        (get_version (some snapshot) request.type_url) w.channels
  some ((value, none), record w { channels = channels })

watch_snapshot :
    Request → ℕ → StatusInfo → Option Snapshot → World → Option ((ℕ × Option Cancel) × World)
unfolding open_watch answer_watch
watch_snapshot request value info none w = some (open_watch request value info w)
watch_snapshot request value info (some snapshot) w =
    if request.version_info == get_version (some snapshot) request.type_url
    then some (open_watch request value info w)
    else answer_watch request value snapshot w

unfoldable pub create_watch : Request → ℕ → World → Option ((ℕ × Option Cancel) × World)
unfolding touch make_channel watch_snapshot
create_watch request now w =
    let node = node_id request.node in
    let info = touch request now w.cache in
    let (value, channels) = make_channel w.channels in
    watch_snapshot request value info (lookup node w.snapshots) (record {
      cache = record w.cache { status = insert node info w.status };
      channels = channels;
    })

-- A fetched response, or the error.
pub data Fetched : Type 0 where
  fetched : Response → Fetched
  refused : Error → Fetched

fetch_from : Request → Option Snapshot → Fetched
fetch_from request none = refused (missing_snapshot (node_id request.node))
fetch_from request (some snapshot) =
    let version = get_version (some snapshot) request.type_url in
    if request.version_info == version
    then refused version_up_to_date
    else fetched (create_response request (get_resources (some snapshot) request.type_url) version)

unfoldable pub fetch : Request → SnapshotCache → Fetched
unfolding fetch_from
fetch request cache = fetch_from request (lookup (node_id request.node) cache.snapshots)

unfoldable pub get_status_info : String → SnapshotCache → Option StatusInfo
get_status_info node cache = lookup node cache.status

keys_of : Map String StatusInfo → List String
keys_of [] = []
keys_of ((id, info) ∷ rest) = id ∷ keys_of rest

unfoldable pub get_status_keys : SnapshotCache → List String
unfolding keys_of
get_status_keys cache = keys_of cache.status
