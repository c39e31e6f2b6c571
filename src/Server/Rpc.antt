-- ===== src/Server/Rpc.antt =====
-- The RPC methods of pkg/server/server.go: the streams of each kind, and the fetches. Each method
-- hands the type of its service to the common code.
pub mod Fetching
use bent.Envoy.{DiscoveryResponse}
use bent.Cache.Simple.{fetched, refused, Fetched}
use bent.Cache.Resource.{
  listener_type, any_type, endpoint_type, cluster_type, route_type, secret_type, Resource,
}
use bent.Cache.Status.{Request}
use bent.Shared.{if◌then◌else◌, is_some, ℕ, String, Option, none, some, List, [], ◌∷◌, ◌++◌}
use bent.Server.{
  fetch_response, create_discovery_response, callback_error, unavailable, cache_error, created,
  uncreated, fetch_request, Created, Output, Callbacks, ConfigWatcher,
}
use bent.Server.Process.{process, hangup, request, Outcome, Event}

-- What `stream.Recv()` returns: a message, or an error.
pub data Recv : Type 0 where
  message : Option Request → ℕ → Recv
  failure : Recv

-- The goroutine of `handler`: it hands requests on until the first error, and then closes the
-- channel. `others` are the events of the channels of the cache that come before each receive.
unfoldable pub pump : {c : ConfigWatcher} → List (List (Event c) × Recv) → List (Event c)
pump [] = []
pump ((others, message req now) ∷ rest) = others ++ request req now ∷ pump rest
pump ((others, failure) ∷ rest) = others ++ hangup ∷ []

module _ (c : ConfigWatcher) (marshal : Resource → Option (List ℕ))
    (callbacks : Option Callbacks) where
  unfoldable pub handler : String → ℕ → c.State → List (List (Event c) × Recv) → Outcome c
  handler type_url stream_count state input =
      process c marshal callbacks type_url stream_count state (pump input)

  unfoldable pub stream_aggregated_resources :
      ℕ → c.State → List (List (Event c) × Recv) → Outcome c
  unfolding handler
  stream_aggregated_resources = handler any_type

  unfoldable pub stream_endpoints : ℕ → c.State → List (List (Event c) × Recv) → Outcome c
  unfolding handler
  stream_endpoints = handler endpoint_type

  unfoldable pub stream_clusters : ℕ → c.State → List (List (Event c) × Recv) → Outcome c
  unfolding handler
  stream_clusters = handler cluster_type

  unfoldable pub stream_routes : ℕ → c.State → List (List (Event c) × Recv) → Outcome c
  unfolding handler
  stream_routes = handler route_type

  unfoldable pub stream_listeners : ℕ → c.State → List (List (Event c) × Recv) → Outcome c
  unfolding handler
  stream_listeners = handler listener_type

  unfoldable pub stream_secrets : ℕ → c.State → List (List (Event c) × Recv) → Outcome c
  unfolding handler
  stream_secrets = handler secret_type

  refuse_fetch : Option Callbacks → Request → Option String
  refuse_fetch none req = none
  refuse_fetch (some cb) req = cb.on_fetch_request req

  note_fetch : Output → List Output
  note_fetch o = if is_some callbacks then o ∷ [] else []

  response_of : Created → Option DiscoveryResponse
  response_of (created out) = some out
  response_of (uncreated e) = none

  -- The answer of the cache, made into a response; the response callback sees failures too.
  fetch_answer : Request → Fetched → Created × List Output
  unfolding note_fetch response_of
  fetch_answer req (refused e) = (uncreated (cache_error e), [])
  fetch_answer req (fetched resp) =
      let out = create_discovery_response marshal (some resp) req.type_url in
      (out, note_fetch (fetch_response req (response_of out)))

  fetch_accepted : Option String → Request → c.State → Created × List Output
  unfolding fetch_answer
  fetch_accepted (some e) req state = (uncreated (callback_error e), [])
  fetch_accepted none req state = fetch_answer req (c.fetch req state)

  -- `Fetch`: the result, and what the callbacks see.
  unfoldable pub fetch : Request → c.State → Created × List Output
  unfolding fetch_accepted refuse_fetch note_fetch
  fetch req state =
      let answer = fetch_accepted (refuse_fetch callbacks req) req state in
      (answer.0, note_fetch (fetch_request req) ++ answer.1)

  fetch_typed : String → Option Request → c.State → Created × List Output
  unfolding fetch
  fetch_typed type_url none state = (uncreated (unavailable "empty request"), [])
  fetch_typed type_url (some req) state = fetch (record req { type_url = type_url }) state

  unfoldable pub fetch_endpoints : Option Request → c.State → Created × List Output
  unfolding fetch_typed
  fetch_endpoints = fetch_typed endpoint_type

  unfoldable pub fetch_clusters : Option Request → c.State → Created × List Output
  unfolding fetch_typed
  fetch_clusters = fetch_typed cluster_type

  unfoldable pub fetch_routes : Option Request → c.State → Created × List Output
  unfolding fetch_typed
  fetch_routes = fetch_typed route_type

  unfoldable pub fetch_listeners : Option Request → c.State → Created × List Output
  unfolding fetch_typed
  fetch_listeners = fetch_typed listener_type

  unfoldable pub fetch_secrets : Option Request → c.State → Created × List Output
  unfolding fetch_typed
  fetch_secrets = fetch_typed secret_type
