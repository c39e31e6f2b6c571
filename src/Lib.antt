-- ===== src/Lib.antt =====
-- A model of bent, a control plane for Envoy proxies, and what holds of it.
--
-- The program. A provider (pkg/provider/fargate, pkg/provider/file) lists the services that run
-- beside each proxy. The updater (pkg/provider/updater.go) turns them into nodes: the clusters,
-- endpoints, routes and listeners of one proxy each, built by pkg/provider/node.go, listener.go and
-- cluster.go from the services and their annotations. It stores them as a versioned snapshot for
-- each node in the snapshot cache (pkg/cache). Proxies connect to the xDS server (pkg/server), one
-- stream each; a stream asks the cache for a watch, the cache answers it at once or when the next
-- snapshot comes, and the stream sends the answer with a nonce that the proxy repeats.
--
-- The files.
--   * Shared, with Shared/Tests, Shared/Maps, Shared/Slices, Shared/Text and Shared/Decimal: Boolean
--     tests, association lists for Go's maps, slices, strings.Split and its kin, and numerals.
--   * Envoy: the protobuf messages as records of the fields that the repository uses.
--   * Cache/Resource: pkg/cache/resource.go. `get_resource_references` is GetResourceReferences.
--   * Cache/Snapshot: pkg/cache/snapshot.go, and superset and nameSet of simple.go. Its children
--     hold the lemmas on the index and on the check `consistent`.
--   * Cache/Channels: Go's channels of capacity 1.
--   * Cache/Status: pkg/cache/status.go and the types of pkg/cache/cache.go.
--   * Cache/Simple: pkg/cache/simple.go. Each method holds the cache's mutex from beginning to end,
--     so it is one function from a world (the cache and the channels) to a world: `set_snapshot`,
--     `clear_snapshot`, `create_watch`, `cancel_watch`, `fetch`. A method whose send would block
--     is `none`. Its children: Usage and Sound (what each method does to the use of a channel), Run
--     (histories of calls), Notify and Watched (what SetSnapshot and CreateWatch have done),
--     Current, Delivery, Canceling, Opening, Fetching, Answering and Awaited (a channel that a
--     client waits on), Open, Held and Meantime (from a request to the next snapshot), Carrying (what
--     all watches and responses have in common), Typed.
--   * Server: the types and createResponse of pkg/server/server.go. Server/Process: the closure
--     `send`, the select loop and the deferred function of `process`; what the select can see is an
--     event, a history of a stream is a list of events, and what callbacks and client see is a trace.
--     Server/Process/Numbered, Nonces, Requests, Kept (any property that the cache's methods keep),
--     Unblocked, Closing, Held and Guarded (the watches that a stream holds), Turns (what a round
--     does, by cases), Cancels and Sending hold the lemmas.
--     Server/Slots: the slots of the five kinds.
--     Server/Rpc: the RPCs, with Fetching. Server/Watcher: the cache as the server's `ConfigWatcher`.
--   * Provider/AnnotationNames: the constants of pkg/provider/provider.go.
--   * Provider/Annotations: pkg/provider/util.go and the readers of pkg/provider/cluster.go, with
--     the functions of strconv and strings that they call. A call can panic.
--   * Provider/Cluster: the rest of cluster.go and util.go, and endpoint.go. Provider/Node: node.go.
--     Provider/Listener: listener.go. Provider/Updater: updater.go (`transform`, `compute_version`,
--     and `run_once`, a round of Run). Their children hold the lemmas.
--   * Provider/Fargate: pkg/provider/fargate. `get_clusters` is GetClusters; Labels: the docker labels
--     of a task's definition and the node of a task (fargate.go); Calls: tasks.go, clusters.go and
--     util.go; Ecs: the client of the AWS SDK as an interface. Nodes, Crashes, Loading, Returns,
--     Rounds (with the updater), Labels/NodeIds, Labels/Services, Calls/Paging, Calls/Windows,
--     Calls/Grouping, Calls/Listing, Calls/Clusters and Calls/Definitions hold the lemmas.
--   * Provider/File: pkg/provider/file/file.go.
--   * System: cmd/bent/main.go joins the cache, the updater and the streams; an action is a call of
--     SetSnapshot, a new stream, or a round of a stream, and a run is a list of actions. Its children:
--     Sound, Owned and Closing (the watches), Processes, Streams and Numbering (each stream beside
--     the others), Updates (the rounds of the updater), and, for a client that waits: Slots, Effects
--     and Apart (how often a channel or a watch is held), Spared, Waiting, Meanwhile, Reachable,
--     Answered and Updated; Carried, Kinds, Serving, Typed and Delivered say what the channel of a
--     kind carries.
--   * Util: pkg/util/struct.go.
--   * Metadata: cmd/envoy/metadata.go, with Metadata/Retries, Bodies and NodeIds.
--   * TraceFwd: cmd/trace-fwd/main.go, with TraceFwd/Headers and Targets.
--   * Tests, with Tests/Server, Tests/Provider, Tests/Orders, Tests/Fargate, Tests/Rounds,
--     Tests/System and Tests/Programs: the theorems at concrete inputs.
--
-- Choices. A Go map is an association list. Where Go goes through a map whose order matters to what
-- is computed, the order is an argument: `transform`, which goes through its argument twice, takes
-- the map in the two orders, and the methods of a node that list its maps take an `Order`, which may
-- be another at each call, so that `snapshot_of` takes four and a round of Run four for each node.
-- Elsewhere the order is that of the list, which the theorems leave open.
-- Numbers are natural numbers: an int64 counter is its bit pattern, with the wrap-around at 2 ^
-- 64 written out, and the numbers that strconv reads carry their sign. The fuel of the decimal
-- printer is the number itself and one more, which is enough because a number has no more
-- digits than that. The pages of an answer of ECS have no bound in the source: their loop takes
-- fuel, and a page costs one. The loop of sliceWalk takes the length of the slice, which is
-- enough because each round takes one element at least. The other loops are structural.
-- Parameters stand for code that is not in the repository: protobuf's marshalling and decoding,
-- md5 (of the list of the payloads), the callbacks of the server, the ECS client, and, of the small programs, the HTTP
-- client, the JSON, YAML and URL parsers, the file system, the spelling of header names and the
-- dump of a request. Pointers in the answers of ECS are not nil, except a next token, the
-- fields of a failure and a definition that is looked up in a map.
--
-- Not modelled: the session of the AWS SDK; the flags and the gRPC setup of cmd/bent; logging; the
-- names of pkg/util/wellknown.go that nothing uses; NewServer, which only fills its struct; and the
-- Incremental RPCs, which only return an error. In a single stream the other goroutines appear as an
-- event that brings the cache to any state; in System they are the updater and the other streams.
-- There the round of a request, which cancels a watch and opens one in two calls of the cache, is
-- one step.
pub mod Shared
pub mod Envoy
pub mod Cache
pub mod Server
pub mod System
pub mod Metadata
pub mod TraceFwd
pub mod Provider
pub mod Util
mod Tests
