-- ===== src/Server.antt =====
-- pkg/server/server.go: the streaming xDS server. Its cache is an interface (`ConfigWatcher`), and
-- so are the callbacks; protobuf's marshalling is an argument. What a stream does that others can
-- see is recorded in a trace.
use bent.Cache.Simple.{Fetched}
use bent.Envoy.{Any, DiscoveryResponse}
use bent.Cache.Status.{Request, Response}
use bent.Cache.Snapshot.{Error}
use bent.Cache.Resource.{
  secret_type, listener_type, route_type, cluster_type, Resource, endpoint_type,
}
pub mod Process
pub mod Slots
pub mod Rpc
pub mod Watcher
use bent.Shared.{
  if◌then◌else◌, ◌==◌, ℕ, String, Option, none, some, List, [], ◌∷◌, string_key, nat_key, ◌>>=◌,
}

-- cache.Cache as the server uses it. `State` holds the channels too; `none` of `create_watch` means
-- that the call never returns, and `none` of `receive` that the channel is empty.
pub record ConfigWatcher : Type 1 where
  pub State : Type 0
  pub Canceler : Type 0
  pub create_watch : Request → ℕ → State → Option ((ℕ × Option Canceler) × State)
  pub cancel : Canceler → State → State
  pub receive : ℕ → State → Option (Response × State)
  pub fetch : Request → State → Fetched

-- The callbacks that can refuse; a refusal is its text.
pub record Callbacks : Type 0 where
  pub on_stream_open : ℕ → String → Option String
  pub on_stream_request : ℕ → Request → Option String
  pub on_fetch_request : Request → Option String

pub data Kind : Type 0 where
  endpoints clusters routes listeners secrets : Kind

abbrev pub type_url_of : Kind → String
type_url_of endpoints = endpoint_type
type_url_of clusters = cluster_type
type_url_of routes = route_type
type_url_of listeners = listener_type
type_url_of secrets = secret_type

-- The three fields of `watches` that belong to one kind of resource.
pub record Slot (C : Type 0) : Type 0 where
  pub channel : Option ℕ
  pub cancel : Option C
  pub nonce : String

pub record Watches (C : Type 0) : Type 0 where
  pub endpoints : Slot C
  pub clusters : Slot C
  pub routes : Slot C
  pub listeners : Slot C
  pub secrets : Slot C

pub data Status : Type 0 where
  unavailable : String → Status
  invalid_argument : String → Status
  -- An error of a callback, of the marshaller, of the stream's `Send`, or of the cache.
  callback_error : String → Status
  marshal_error : Status
  missing_response : Status
  send_error : Status
  cache_error : Error → Status

-- What the callbacks and the client see, in order.
pub data Output : Type 0 where
  stream_open : ℕ → String → Output
  stream_request : ℕ → Request → Output
  stream_response : ℕ → Request → DiscoveryResponse → Output
  stream_closed : ℕ → Output
  fetch_request : Request → Output
  fetch_response : Request → Option DiscoveryResponse → Output
  sent : DiscoveryResponse → Output

abbrev empty_slot : {C : Type 0} → Slot C
empty_slot = record { channel = none; cancel = none; nonce = "" }

module _ {C : Type 0} where
  abbrev pub no_watches : Watches C
  no_watches = record {
    endpoints = empty_slot;
    clusters = empty_slot;
    routes = empty_slot;
    listeners = empty_slot;
    secrets = empty_slot;
  }

  abbrev pub slot : Kind → Watches C → Slot C
  slot endpoints ws = ws.endpoints
  slot clusters ws = ws.clusters
  slot routes ws = ws.routes
  slot listeners ws = ws.listeners
  slot secrets ws = ws.secrets

  abbrev pub put_slot : Kind → Slot C → Watches C → Watches C
  put_slot endpoints s ws = record ws { endpoints = s }
  put_slot clusters s ws = record ws { clusters = s }
  put_slot routes s ws = record ws { routes = s }
  put_slot listeners s ws = record ws { listeners = s }
  put_slot secrets s ws = record ws { secrets = s }

-- The kind of a type URL, by the order of the switch of `process`.
unfoldable pub kind_of : String → Option Kind
kind_of url =
    if url == endpoint_type
    then some endpoints
    else if url == cluster_type
    then some clusters
    else if url == route_type
    then some routes
    else if url == listener_type
    then some listeners
    else if url == secret_type
    then some secrets
    else none

-- The marshalled resources, or `none` at the first that cannot be marshalled.
pub marshal_all : (Resource → Option (List ℕ)) → String → List Resource → Option (List Any)
marshal_all marshal type_url [] = some []
marshal_all marshal type_url (r ∷ rs) = do
  bytes ← marshal r
  rest ← marshal_all marshal type_url rs
  some (record { type_url = type_url; value = bytes } ∷ rest)

pub data Created : Type 0 where
  created : DiscoveryResponse → Created
  uncreated : Status → Created

-- The response for the marshalled resources.
discovery_response : Response → String → Option (List Any) → Created
discovery_response resp type_url none = uncreated marshal_error
discovery_response resp type_url (some resources) =
    created (record {
      version_info = resp.version;
      resources = resources;
      type_url = type_url;
      nonce = "";
    })

-- `createResponse`; `none` is the nil response.
unfoldable pub create_discovery_response :
    (Resource → Option (List ℕ)) → Option Response → String → Created
unfolding discovery_response marshal_all
create_discovery_response marshal none type_url = uncreated missing_response
create_discovery_response marshal (some resp) type_url =
    discovery_response resp type_url (marshal_all marshal type_url resp.resources)
