-- ===== src/Tests/Server.antt =====
-- The theorems on streams, at a stream that asks for its clusters.
use bent.Cache.Simple.Sound.{new_snapshot_cache-IsSound}
use bent.Server.Process.Unblocked.{IsUnblocked, process-IsUnblocked}
use bent.Server.Process.Requests.{IsRenewed, handle_request}
use bent.Server.{clusters, no_watches}
use bent.Server.Process.Closing.{process_closes}
use bent.Tests.{waiting_cache-IsSound, waiting_cache, ask_clusters, handle_of_a, empty_cache}
use bent.Server.Watcher.{snapshot_watcher}
use bent.Cache.Simple.Canceling.{watch_at}
use bent.Cache.Resource.{Resource}
use bent.Server.Process.Nonces.{process-NumberedTo}
use bent.Server.Process.Numbered.{NumberedTo}
use bent.Server.Process.{
  nonce_matches, hangup, ready, blocked, meanwhile, returned, request, running, observe, process,
  Event, Stream, Outcome, handle,
}
use bent.Server.Rpc.Fetching.{IsFetched, fetch_of, fetch_of-IsFetched}
use bent.Tests.{answered_cache}
use bent.Shared.{
  lookup, ℕ, String, ◌≡◌, refl, ◌≢◌, ◌⊎◌, true, false, Option, none, some, List, [], ◌∷◌, arith,
  string_key, nat_key,
}

abbrev marshal : Resource → Option (List ℕ)
marshal r = some (1 ∷ [])

abbrev stream : Stream snapshot_watcher
stream = record {
  state = empty_cache;
  stream_id = 1;
  stream_nonce = 0;
  values = no_watches;
  trace = [];
}

abbrev asks : List (Event snapshot_watcher)
asks = request (some ask_clusters) 5 ∷ ready clusters true ∷ hangup ∷ []

abbrev outcome : Outcome snapshot_watcher
outcome = process snapshot_watcher marshal none "" 0 empty_cache asks

abbrev last_of : Outcome snapshot_watcher → Stream snapshot_watcher
last_of (running s) = s
last_of (returned status s) = s
last_of blocked = stream

process-NumberedTo_example :
    NumberedTo 3 (process snapshot_watcher marshal none "" 0 empty_cache asks)
process-NumberedTo_example =
    process-NumberedTo snapshot_watcher marshal none "" 0 empty_cache asks (omega arith)

process_closes_example : watch_at handle_of_a (last_of outcome).state ≡ none
unfolding process bent.Server.Process.finish bent.Server.Process.loop bent.Server.Process.start
    handle bent.Server.Process.with_type_url bent.Server.kind_of bent.Server.Process.nonce_matches
    bent.Cache.Simple.create_watch bent.Shared.lookup bent.Cache.Simple.new_snapshot_cache
    bent.Cache.Channels.receive bent.Cache.Simple.node_id
process_closes_example =
    process_closes marshal none "" 0 empty_cache asks none (last_of outcome) clusters handle_of_a
      refl refl

abbrev after_request : Stream snapshot_watcher
after_request =
    last_of (handle snapshot_watcher marshal none "" (request (some ask_clusters) 5) stream)

handle_request_example :
    ((◌≢◌ {A = String} "" "") × ("" ≢ ask_clusters.response_nonce) × (after_request ≡ stream))
    ⊎ ((◌≡◌ {A = String} "" "" ⊎ ("" ≡ ask_clusters.response_nonce))
        × IsRenewed snapshot_watcher marshal none clusters ask_clusters 5 stream after_request)
unfolding handle bent.Server.Process.with_type_url bent.Server.kind_of nonce_matches
    bent.Cache.Simple.create_watch bent.Shared.lookup bent.Cache.Simple.new_snapshot_cache
handle_request_example =
    handle_request snapshot_watcher marshal none "" ask_clusters ask_clusters clusters 5 stream
      after_request refl refl refl refl

process-IsUnblocked_example :
    IsUnblocked
      (process snapshot_watcher marshal none "" 0 empty_cache (meanwhile waiting_cache ∷ asks))
process-IsUnblocked_example =
    process-IsUnblocked marshal none "" 0 empty_cache (meanwhile waiting_cache ∷ asks)
      (new_snapshot_cache-IsSound false) (waiting_cache-IsSound, tt)

-- The node has a snapshot, and the client has no version of it.
fetch_of-IsFetched_example :
    IsFetched marshal none clusters ask_clusters answered_cache
      (fetch_of marshal none clusters (some ask_clusters) answered_cache).0
fetch_of-IsFetched_example = fetch_of-IsFetched marshal none clusters ask_clusters answered_cache
