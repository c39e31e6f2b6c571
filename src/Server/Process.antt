-- ===== src/Server/Process.antt =====
-- The event loop of a stream: `process` and its closure `send` of pkg/server/server.go. What the
-- `select` statement can see is an event; a history of the stream is a list of events.
pub mod Nonces
pub mod Numbered
pub mod Requests
pub mod Closing
pub mod Kept
pub mod Held
pub mod Guarded
pub mod Unblocked
pub mod Turns
pub mod Cancels
pub mod Sending
use bent.Cache.Simple.{int64_mod}
use bent.Cache.Status.{Response, Request}
use bent.Cache.Resource.{any_type, Resource}
use bent.Shared.{
  if◌then◌else◌, ◌==◌, is_some, format_int64, ℕ, ◌+◌, ◌%◌, String, Bool, ◌||◌, Option, none, some,
  List, [], ◌∷◌, ◌++◌, string_key, nat_key,
}
use bent.Server.{
  send_error, sent, stream_response, endpoints, clusters, routes, listeners, secrets, created,
  uncreated, no_watches, create_discovery_response, kind_of, Created, type_url_of, stream_open,
  stream_request, stream_closed, slot, unavailable, invalid_argument, callback_error, put_slot,
  Output, Callbacks, Kind, Status, Watches, ConfigWatcher,
}

pub record Stream (c : ConfigWatcher) : Type 0 where
  pub state : c.State
  pub stream_id : ℕ
  pub stream_nonce : ℕ
  pub values : Watches c.Canceler
  pub trace : List Output

pub data Outcome (c : ConfigWatcher) : Type 0 where
  running : Stream c → Outcome c
  returned : Option Status → Stream c → Outcome c
  -- A call of the cache that never returns.
  blocked : Outcome c

pub data Event (c : ConfigWatcher) : Type 0 where
  -- The channel of a kind is chosen; the flag says whether `Send` succeeds.
  ready : Kind → Bool → Event c
  -- The channel of a kind was closed by the cache.
  closed : Kind → Event c
  -- A request of the client, and its time; `none` is a nil request.
  request : Option Request → ℕ → Event c
  -- The other goroutines have brought the cache to this state.
  meanwhile : c.State → Event c
  -- The input ended.
  hangup : Event c

pub data Sent : Type 0 where
  nonce_of : String → Sent
  failed : Status → Sent

abbrev pub watch_failed : Kind → String
watch_failed endpoints = "endpoints watch failed"
watch_failed clusters = "clusters watch failed"
watch_failed routes = "routes watch failed"
watch_failed listeners = "listeners watch failed"
watch_failed secrets = "secrets watch failed"

-- `GetResponseNonce() == nonce`, or no response was sent yet.
unfoldable pub nonce_matches : String → Request → Bool
nonce_matches nonce req = nonce == "" || nonce == req.response_nonce

-- The type URL is implicit but for ADS; `none` if it is missing there.
unfoldable pub with_type_url : String → Request → Option Request
with_type_url default_type_url req =
    if default_type_url == any_type
    then (if req.type_url == "" then none else some req)
    else some (if req.type_url == "" then record req { type_url = default_type_url } else req)

module _ (c : ConfigWatcher) (marshal : Resource → Option (List ℕ))
    (callbacks : Option Callbacks) where
  -- A callback that cannot refuse, if there are callbacks.
  pub observe : Output → Stream c → Stream c
  observe o s = if is_some callbacks then record s { trace = s.trace ++ o ∷ [] } else s

  asked_open : Option Callbacks → ℕ → String → Option String
  asked_open none id type_url = none
  asked_open (some cb) id type_url = cb.on_stream_open id type_url

  unfoldable pub asked_request : Option Callbacks → ℕ → Request → Option String
  asked_request none id req = none
  asked_request (some cb) id req = cb.on_stream_request id req

  -- The closure `send`, once the response is created.
  pub send_created : Response → Bool → Created → Stream c → Stream c × Sent
  unfolding observe
  send_created resp ok (uncreated e) s = (s, failed e)
  send_created resp ok (created out) s =
      let n = (s.stream_nonce + 1) % int64_mod in
      let out' = record out { nonce = format_int64 n } in
      let s' =
        observe (stream_response s.stream_id resp.request out') (record s { stream_nonce = n }) in
      (
        record s' { trace = s'.trace ++ sent out' ∷ [] },
        if ok then nonce_of out'.nonce else failed send_error,
      )

  unfoldable pub send : Response → String → Bool → Stream c → Stream c × Sent
  unfolding send_created
  send resp type_url ok s =
      send_created resp ok (create_discovery_response marshal (some resp) type_url) s

  record_nonce : Kind → Stream c × Sent → Outcome c
  record_nonce k (s, failed e) = returned (some e) s
  record_nonce k (s, nonce_of n) =
      running (record s { values = put_slot k (record (slot k s.values) { nonce = n }) s.values })

  -- A response came out of the channel of a kind.
  on_response : Kind → Bool → Response → Stream c → Outcome c
  unfolding send record_nonce
  on_response k ok resp s = record_nonce k (send resp (type_url_of k) ok s)

  -- An empty channel, or a nil one, is never ready.
  on_received : Kind → Bool → Option (Response × c.State) → Stream c → Outcome c
  unfolding on_response
  on_received k ok none s = running s
  on_received k ok (some (resp, state)) s = on_response k ok resp (record s { state = state })

  pub on_channel : Kind → Bool → Option ℕ → Stream c → Outcome c
  unfolding on_received
  on_channel k ok none s = running s
  on_channel k ok (some ch) s = on_received k ok (c.receive ch s.state) s

  -- A nil channel is never closed.
  on_closed : Kind → Option ℕ → Stream c → Outcome c
  on_closed k none s = running s
  on_closed k (some ch) s = returned (some (unavailable (watch_failed k))) s

  unfoldable pub cancel_slot : Option c.Canceler → c.State → c.State
  cancel_slot none state = state
  cancel_slot (some f) state = c.cancel f state

  watch_created : Kind → Option ((ℕ × Option c.Canceler) × c.State) → Stream c → Outcome c
  watch_created k none s = blocked
  watch_created k (some ((ch, f), state)) s = running (record s {
    state = state;
    values = put_slot k (record (slot k s.values) { channel = some ch; cancel = f }) s.values;
  })

  -- Cancels the watch of a kind and creates the new one, unless the nonce is stale.
  renew : Kind → Request → ℕ → Stream c → Outcome c
  unfolding cancel_slot watch_created
  renew k req now s =
      if nonce_matches (slot k s.values).nonce req
      then watch_created k (c.create_watch req now (cancel_slot (slot k s.values).cancel s.state)) s
      else running s

  -- The switch on the type URL.
  dispatch : Option Kind → Request → ℕ → Stream c → Outcome c
  unfolding renew
  dispatch none req now s = running s
  dispatch (some k) req now s = renew k req now s

  accepted : Option String → Request → ℕ → Stream c → Outcome c
  unfolding dispatch
  accepted (some e) req now s = returned (some (callback_error e)) s
  accepted none req now s = dispatch (kind_of req.type_url) req now s

  typed : Option Request → ℕ → Stream c → Outcome c
  unfolding accepted observe asked_request
  typed none now s = returned (some (invalid_argument "type URL is required for ADS")) s
  typed (some req) now s =
      accepted (asked_request callbacks s.stream_id req) req now
        (observe (stream_request s.stream_id req) s)

  on_request : String → Option Request → ℕ → Stream c → Outcome c
  unfolding typed
  on_request default_type_url none now s = returned (some (unavailable "empty request")) s
  on_request default_type_url (some req) now s = typed (with_type_url default_type_url req) now s

  -- One round of the loop.
  unfoldable pub handle : String → Event c → Stream c → Outcome c
  unfolding on_channel on_closed on_request
  handle default_type_url (ready k ok) s = on_channel k ok (slot k s.values).channel s
  handle default_type_url (closed k) s = on_closed k (slot k s.values).channel s
  handle default_type_url (request req now) s = on_request default_type_url req now s
  handle default_type_url (meanwhile state) s = running (record s { state = state })
  handle default_type_url hangup s = returned none s

  -- The loop goes on until it returns or the events end.
  unfoldable pub loop : String → List (Event c) → Outcome c → Outcome c
  loop default_type_url [] o = o
  loop default_type_url (e ∷ es) (running s) =
      loop default_type_url es (handle default_type_url e s)
  loop default_type_url (e ∷ es) (returned status s) = returned status s
  loop default_type_url (e ∷ es) blocked = blocked

  -- `Cancel` of the collection of watches.
  unfoldable pub cancel_all : Watches c.Canceler → c.State → c.State
  unfolding cancel_slot
  cancel_all ws state = cancel_slot ws.secrets.cancel (
      cancel_slot ws.listeners.cancel (
        cancel_slot ws.routes.cancel
          (cancel_slot ws.clusters.cancel (cancel_slot ws.endpoints.cancel state))))

  -- The deferred function runs when the loop has returned.
  unfoldable pub finish : Outcome c → Outcome c
  unfolding observe
  finish (running s) = running s
  finish blocked = blocked
  finish (returned status s) =
      returned status
        (observe (stream_closed s.stream_id) (record s { state = cancel_all s.values s.state }))

  opened : Option String → Stream c → Outcome c
  opened (some e) s = returned (some (callback_error e)) s
  opened none s = running s

  -- A new stream: its number, no watches, and the callback.
  unfoldable pub start : String → ℕ → c.State → Outcome c
  unfolding opened observe asked_open
  start default_type_url stream_count state =
      let id = (stream_count + 1) % int64_mod in
      opened (asked_open callbacks id default_type_url) (
        observe (stream_open id default_type_url) (record {
          state = state;
          stream_id = id;
          stream_nonce = 0;
          values = no_watches;
          trace = [];
        }))

  unfoldable pub process : String → ℕ → c.State → List (Event c) → Outcome c
  process default_type_url stream_count state events =
      finish (loop default_type_url events (start default_type_url stream_count state))
