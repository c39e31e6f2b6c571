-- ===== src/Tests/System.antt =====
-- The theorems on the whole program, at a client that asks for its clusters, gets them and leaves.
use bent.System.Slots.{stream_at}
use bent.Cache.Channels.{receive, make_channel}
use bent.Cache.Snapshot.{
  get_version, get_resources, index_resources_by_name, new_resources, new_snapshot,
}
use bent.Provider.Node.{listeners_of, routes_of, clusters_of, endpoints_of, new_node, Node}
use bent.Provider.Updater.{compute_version, snapshot_of}
use bent.Server.Watcher.{snapshot_watcher}
use bent.Cache.Simple.{
  all_resources, respond, held_back, create_response, create_response, set_snapshot,
  new_snapshot_cache, create_watch, node_id, cancel_watch,
}
use bent.Server.Process.{
  blocked, returned, running, Outcome, cancel_slot, Stream, asked_request, cancel_all,
  nonce_matches, with_type_url, handle, start, finish,
}
use bent.Server.{type_url_of, no_watches, kind_of, clusters}
use bent.Tests.{first_snapshot, ask_clusters, handle_of_a}
use bent.System.Sound.{run_system_returns, IsHealthy, Keeps}
use bent.System.Closing.{run_system-IsOwned, run_system_closes}
use bent.System.Streams.{run_system-AllProcesses, AllProcesses, histories}
use bent.Cache.Simple.Canceling.{watch_at}
use bent.Cache.Resource.{get_resource_name, cluster, any_type, Resource}
use bent.System.Owned.{IsOwned}
use bent.System.Numbering.{run_system-AllNumbered, AllNumbered}
use bent.System.{
  advance, move_at, move, flushes, stores, arrives, ends, new_system, moves, connects, run_system,
  Action, System,
}
use bent.System.Updated.{request-AnsweredAt, AnsweredAt}
use bent.System.Delivered.{receive-AllOf}
use bent.Tests.{backend}
use bent.Tests.Orders.{in_order}
use bent.Cache.Snapshot.Typed.{AllOf}
use bent.Shared.{
  erase, lookup, insert, ℕ, String, ◌≡◌, refl, true, false, Option, none, some, List, [], ◌∷◌,
  arith, string_key, nat_key,
}

abbrev marshal : Resource → Option (List ℕ)
marshal r = some (1 ∷ [])

abbrev session : List Action
session =
    connects any_type
    ∷ moves 0 (arrives (some ask_clusters) 5)
    ∷ stores "a" first_snapshot
    ∷ moves 0 (flushes clusters true)
    ∷ moves 0 (arrives (some (record ask_clusters { version_info = "1"; response_nonce = "1" })) 6)
    ∷ []

run_system_returns_example :
    (sys : System) × (run_system marshal none session (new_system false) ≡ some sys)
    × Keeps IsHealthy sys
run_system_returns_example = run_system_returns marshal none false session

abbrev after : System
after = run_system_returns_example.0

run_system-IsOwned_example : IsOwned after
run_system-IsOwned_example =
    run_system-IsOwned marshal none false session after run_system_returns_example.1

run_system-AllProcesses_example :
    AllProcesses marshal none 5 after.world (histories session) after.served
run_system-AllProcesses_example =
    run_system-AllProcesses marshal none false session after run_system_returns_example.1

run_system-AllNumbered_example : AllNumbered 5 after.served
run_system-AllNumbered_example =
    run_system-AllNumbered marshal none false session after (omega arith)
      run_system_returns_example.1

-- The client leaves while its watch is open.
abbrev short : List Action
short = connects any_type ∷ moves 0 (arrives (some ask_clusters) 5) ∷ moves 0 ends ∷ []

abbrev system_of : Option System → System
system_of none = new_system false
system_of (some sys) = sys

run_system_closes_example :
    watch_at handle_of_a (system_of (run_system marshal none short (new_system false))).world ≡ none
unfolding run_system lookup new_system finish start handle with_type_url kind_of nonce_matches
    create_watch new_snapshot_cache insert node_id advance move_at move cancel_watch cancel_all
    erase
run_system_closes_example =
    run_system_closes marshal none false short
      (system_of (run_system marshal none short (new_system false))) handle_of_a refl refl

-- A client opens a stream and asks for its clusters; the updater stores them, while another client
-- comes and goes.
abbrev joined : List Action
joined = connects any_type ∷ []

abbrev joined_stream : Stream snapshot_watcher
joined_stream = record {
  state = (new_system false).world;
  stream_id = 1;
  stream_nonce = 0;
  values = no_watches;
  trace = [];
}

abbrev meanwhile : List Action
meanwhile = stores "a" first_snapshot ∷ connects any_type ∷ moves 1 ends ∷ []

marshal_total : (r : Resource) → (bytes : List ℕ) × (marshal r ≡ some bytes)
marshal_total r = (1 ∷ [], refl)

request-AnsweredAt_example :
    (sys : System) × (run_system marshal none
        (moves 0 (arrives (some ask_clusters) 5) ∷ meanwhile)
        (system_of (run_system marshal none joined (new_system false)))
      ≡ some sys)
    × AnsweredAt marshal none 0 clusters sys
unfolding run_system new_system finish start with_type_url kind_of nonce_matches new_snapshot_cache
    advance asked_request
request-AnsweredAt_example =
    request-AnsweredAt marshal none joined meanwhile
      (system_of (run_system marshal none joined (new_system false))) 0 any_type joined_stream
      ask_clusters ask_clusters 5 clusters marshal_total (omega arith) refl refl refl refl refl refl
      (tt, (tt, (tt, tt)))

abbrev hash : List (List ℕ) → String
hash bytes = "1"

-- The updater stores the clusters of a node, which has one; its client has asked for them.
abbrev node_a : Node
node_a = record (new_node "a") { clusters = ("backend", backend) ∷ [] }

abbrev updated : List Action
updated =
    connects any_type
    ∷ moves 0 (arrives (some ask_clusters) 5)
    ∷ stores "a" (snapshot_of hash marshal in_order node_a)
    ∷ []

abbrev updated_system : System
updated_system = system_of (run_system marshal none updated (new_system false))

abbrev stream_of : Option (String × Outcome snapshot_watcher) → Stream snapshot_watcher
stream_of none = joined_stream
stream_of (some (url, running s)) = s
stream_of (some (url, returned status s)) = s
stream_of (some (url, blocked)) = joined_stream

receive-AllOf_example :
    (ask_clusters.type_url ≡ type_url_of clusters)
    × AllOf (type_url_of clusters) (all_resources (("backend", cluster backend) ∷ []))
unfolding run_system advance move_at move finish start handle with_type_url kind_of nonce_matches
    asked_request cancel_slot create_watch set_snapshot new_snapshot_cache new_system insert lookup
    erase snapshot_of new_snapshot new_resources index_resources_by_name get_resources get_version
    endpoints_of clusters_of routes_of listeners_of compute_version create_response
    get_resource_name node_id make_channel bent.Cache.Channels.send respond receive held_back
    new_node
receive-AllOf_example =
    receive-AllOf hash marshal none updated updated_system 0 any_type
      (stream_of (stream_at 0 updated_system.served)) clusters 0
      (record {
        request = ask_clusters;
        version = "1";
        resources = all_resources (("backend", cluster backend) ∷ []);
      })
      (record { next = 1; buffered = [] }) (omega arith) (tt, (tt, ((in_order, node_a, refl), tt)))
      refl refl refl refl
