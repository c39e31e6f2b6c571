-- ===== src/System.antt =====
-- cmd/bent/main.go: one cache, which the updater fills, and the streams that the server serves from
-- it. The cache is under a mutex, so the program's runs are the interleavings of the updater's calls
-- of `SetSnapshot` with the rounds of the streams. The round of a request cancels a watch and opens
-- one, in two calls of the cache; here it is one step.
pub mod Sound
pub mod Owned
pub mod Closing
pub mod Processes
pub mod Streams
pub mod Updates
pub mod Numbering
pub mod Slots
pub mod Effects
pub mod Apart
pub mod Spared
pub mod Waiting
pub mod Meanwhile
pub mod Reachable
pub mod Answered
pub mod Updated
pub mod Carried
pub mod Kinds
pub mod Serving
pub mod Typed
pub mod Delivered
use bent.Cache.Resource.{Resource}
use bent.Cache.Simple.{World, new_snapshot_cache, set_snapshot, int64_mod}
use bent.Cache.Snapshot.{Snapshot}
use bent.Cache.Status.{Request}
use bent.Provider.Node.{Node}
use bent.Provider.Updater.{snapshot_of}
use bent.Server.{Kind, Callbacks}
use bent.Server.Process.{
  Event, Outcome, running, returned, blocked, ready, closed, request, hangup, start, handle, finish,
}
use bent.Server.Watcher.{snapshot_watcher}
use bent.Shared.{
  if◌then◌else◌, ◌==◌, ℕ, zero, suc, ◌+◌, ◌%◌, String, Bool, Option, none, some, List, [], ◌∷◌,
  ◌++◌, string_key, nat_key, ◌>>=◌,
}

-- The providers that the flag names; any other name ends the program in a panic, and so does an AWS
-- session that cannot be made.
pub data ProviderType : Type 0 where
  fargate : ProviderType
  file : ProviderType

-- `has_session` tells whether `fargate.NewProvider` has no error; `file.NewProvider` has none.
unfoldable pub provider_of : String → Bool → Option ProviderType
provider_of provider_type has_session =
    if provider_type == "fargate"
    then (if has_session then some fargate else none)
    else if provider_type == "file"
    then some file
    else none

-- What can happen to a stream that is not a call of another goroutine.
pub data Move : Type 0 where
  arrives : Option Request → ℕ → Move
  flushes : Kind → Bool → Move
  breaks : Kind → Move
  ends : Move

abbrev pub event_of : Move → Event snapshot_watcher
event_of (arrives req now) = request req now
event_of (flushes k ok) = ready k ok
event_of (breaks k) = closed k
event_of ends = hangup

-- The streams in the order in which they were opened, each with the type URL of its service; one
-- that has returned stays in the list.
pub record System : Type 0 where
  pub world : World
  pub stream_count : ℕ
  pub served : List (String × Outcome snapshot_watcher)

unfoldable pub new_system : Bool → System
new_system ads = record { world = new_snapshot_cache ads; stream_count = 0; served = [] }

pub data Action : Type 0 where
  -- The updater stores the snapshot of a node.
  stores : String → Snapshot → Action
  -- A client opens a stream of the service with this type URL.
  connects : String → Action
  -- A stream, by its position.
  moves : ℕ → Move → Action

-- The cache as a stream has left it.
abbrev pub world_of : World → Outcome snapshot_watcher → World
world_of w (running s) = s.state
world_of w (returned status s) = s.state
world_of w blocked = w

abbrev pub stored : System → Option World → Option System
stored sys none = none
stored sys (some w) = some (record sys { world = w })

module _ (marshal : Resource → Option (List ℕ)) (callbacks : Option Callbacks) where
  -- One round of a stream on the shared cache, and what `process` does when the loop has returned.
  unfoldable pub move : String → Move → World → Outcome snapshot_watcher → Outcome snapshot_watcher
  move url m w (running s) =
      finish snapshot_watcher marshal callbacks
        (handle snapshot_watcher marshal callbacks url (event_of m) (record s { state = w }))
  move url m w (returned status s) = returned status s
  move url m w blocked = blocked

  abbrev pub moved : String → Move → World → Outcome snapshot_watcher → World
  moved url m w (running s) = world_of w (move url m w (running s))
  moved url m w (returned status s) = w
  moved url m w blocked = w

  -- The stream at a position, if there is one, moves.
  unfoldable pub move_at :
      ℕ
      → Move
      → World
      → List (String × Outcome snapshot_watcher)
      → List (String × Outcome snapshot_watcher) × World
  unfolding move
  move_at i m w [] = ([], w)
  move_at zero m w ((url, o) ∷ rest) = ((url, move url m w o) ∷ rest, moved url m w o)
  move_at (suc i) m w ((url, o) ∷ rest) =
      let (rest', w') = move_at i m w rest in ((url, o) ∷ rest', w')

  abbrev pub opened : String → System → Outcome snapshot_watcher
  opened url sys =
      finish snapshot_watcher marshal callbacks
        (start snapshot_watcher marshal callbacks url sys.stream_count sys.world)

  -- `none` is a call of the updater that never returns.
  unfoldable pub advance : Action → System → Option System
  unfolding move_at
  advance (stores node snapshot) sys = stored sys (set_snapshot node snapshot sys.world)
  advance (connects url) sys = some (record {
    world = world_of sys.world (opened url sys);
    stream_count = (sys.stream_count + 1) % int64_mod;
    served = sys.served ++ (url, opened url sys) ∷ [];
  })
  advance (moves i m) sys = some (record sys {
    world = (move_at i m sys.world sys.served).1;
    served = (move_at i m sys.world sys.served).0;
  })

  unfoldable pub run_system : List Action → System → Option System
  unfolding advance
  run_system [] sys = some sys
  run_system (a ∷ rest) sys = do sys' ← advance a sys; run_system rest sys'
