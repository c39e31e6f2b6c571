-- ===== src/Server/Process/Held.antt =====
-- The watches that a stream holds: the ones it has opened and not cancelled yet.
use bent.Cache.Simple.Opening.{is_open, is_for}
use bent.Server.Watcher.{snapshot_watcher}
use bent.Server.Process.{
  hangup, meanwhile, request, closed, ready, Event, blocked, returned, running, Stream, Outcome,
}
use bent.Server.{
  stream_open, no_watches, stream_closed, stream_request, kind_of, type_url_of,
  create_discovery_response, created, uncreated, Created, listeners, routes, clusters, endpoints,
  slot, put_slot, Output, Slot, Kind, Watches, Callbacks,
}
use bent.Cache.Simple.{Cancel}
use bent.Shared.{String, ◌≡◌, refl, Bool, true, false, not, ◌&&◌, ◌||◌, arith}

-- One of the five watches of a stream is the one that a cancel function is for.
abbrev pub has_cancel : Cancel → Watches Cancel → Bool
has_cancel d ws =
    is_for d ws.endpoints.cancel
    || is_for d ws.clusters.cancel
    || is_for d ws.routes.cancel
    || is_for d ws.listeners.cancel
    || is_for d ws.secrets.cancel

-- A step from a cache to another opens no watch but those that are owned after it, and leaves none
-- open that was owned before it but is not owned any more.
abbrev pub guards : (before owned after owned' : Bool) → Bool
guards before owned after owned' = not after || owned' || before && not owned

pub is_for-put_slot :
    (d : Cancel) (k : Kind) (s : Slot Cancel) (ws : Watches Cancel)
    → (is_for d s.cancel
        || not (has_cancel d ws)
        || is_for d (slot k ws).cancel
        || has_cancel d (put_slot k s ws))
      ≡ true
is_for-put_slot d endpoints s ws = ground arith
is_for-put_slot d clusters s ws = ground arith
is_for-put_slot d routes s ws = ground arith
is_for-put_slot d listeners s ws = ground arith
is_for-put_slot d bent.Server.secrets s ws = ground arith

pub has_cancel-put_slot :
    (d : Cancel) (k : Kind) (s : Slot Cancel) (ws : Watches Cancel)
    → (not (is_for d s.cancel) || has_cancel d (put_slot k s ws)) ≡ true
has_cancel-put_slot d endpoints s ws = ground arith
has_cancel-put_slot d clusters s ws = ground arith
has_cancel-put_slot d routes s ws = ground arith
has_cancel-put_slot d listeners s ws = ground arith
has_cancel-put_slot d bent.Server.secrets s ws = ground arith

-- Between `s` and `o` no watch is opened that the stream does not hold, and none is dropped.
abbrev pub Guarded : Cancel → Stream snapshot_watcher → Outcome snapshot_watcher → Type 0
Guarded d s (running s') =
    guards (is_open d s.state) (has_cancel d s.values) (is_open d s'.state) (has_cancel d s'.values)
    ≡ true
Guarded d s (returned status s') =
    guards (is_open d s.state) (has_cancel d s.values) (is_open d s'.state) (has_cancel d s'.values)
    ≡ true
Guarded d s blocked = Unit

pub booleans : (here held : Bool) → guards here held here held ≡ true
booleans here held = ground arith

abbrev pub is_own : Event snapshot_watcher → Bool
is_own (ready k ok) = true
is_own (closed k) = true
is_own (request req now) = true
is_own (meanwhile w) = false
is_own hangup = true

abbrev pub still_holds : Cancel → Outcome snapshot_watcher → Bool
still_holds d (running s) = has_cancel d s.values
still_holds d (returned status s) = false
still_holds d blocked = false

-- The same when the stream has given back what it held, if it has returned.
abbrev pub Released : Cancel → Stream snapshot_watcher → Outcome snapshot_watcher → Type 0
Released d s (running s') =
    guards (is_open d s.state) (has_cancel d s.values) (is_open d s'.state) (has_cancel d s'.values)
    ≡ true
Released d s (returned status s') =
    guards (is_open d s.state) (has_cancel d s.values) (is_open d s'.state) false ≡ true
Released d s blocked = Unit

pub released :
    (here held after held' last : Bool)
    → guards here held after held' ≡ true
    → last ≡ (after && not held')
    → guards here held last false ≡ true
released here held after held' last g e = ground (arith, g, e)

-- What a renewed watch takes from the old one: `mine` and `new` tell whether the old and the new
-- cancel function is for the watch, `between` whether it is open between the two calls.
pub renewed :
    (here held between after held' mine new : Bool)
    → (not after || new || between) ≡ true
    → between ≡ (here && not mine)
    → (not new || held') ≡ true
    → (new || not held || mine || held') ≡ true
    → guards here held after held' ≡ true
renewed here held between after held' mine new a b c d = ground (arith, a, b, c, d)

pub has_cancel-nonce :
    (d : Cancel) (k : Kind) (n : String) (ws : Watches Cancel)
    → has_cancel d (put_slot k (record (slot k ws) { nonce = n }) ws) ≡ has_cancel d ws
has_cancel-nonce d endpoints n ws = refl
has_cancel-nonce d clusters n ws = refl
has_cancel-nonce d routes n ws = refl
has_cancel-nonce d listeners n ws = refl
has_cancel-nonce d bent.Server.secrets n ws = refl
