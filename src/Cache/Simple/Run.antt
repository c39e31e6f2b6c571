-- ===== src/Cache/Simple/Run.antt =====
-- Histories of the cache: any sequence of calls by the updater and the streams, in the order in
-- which they take the mutex, with what the streams receive in between.
use bent.Shared.{
  Option-cases, ℕ, String, ◌≡◌, refl, inl, inr, Bool, Option, none, some, List, [], ◌∷◌, ◌>>=◌,
}
use bent.Cache.Channels.{Channels, receive}
use bent.Cache.Snapshot.{Snapshot}
use bent.Cache.Status.{Request, Response}
use bent.Cache.Simple.Sound.{
  IsSound, new_snapshot_cache-IsSound, clear_snapshot-IsSound, cancel_watch-IsSound,
  receive-IsSound, set_snapshot_returns, create_watch_returns,
}
use bent.Cache.Simple.{
  World, Cancel, new_snapshot_cache, set_snapshot, clear_snapshot, cancel_watch, create_watch,
}

pub data Command : Type 0 where
  sets : String → Snapshot → Command
  clears : String → Command
  -- A request, and the time of the call.
  watches : Request → ℕ → Command
  cancels : Cancel → Command
  receives : ℕ → Command

-- A receive from an empty channel waits, and changes nothing.
after_receive : World → Option (Response × Channels Response) → World
after_receive w none = w
after_receive w (some (r, chs)) = record w { channels = chs }

unfoldable pub step : World → Command → Option World
unfolding after_receive
step w (sets node snapshot) = set_snapshot node snapshot w
step w (clears node) = some (clear_snapshot node w)
step w (watches request now) = do (r, w') ← create_watch request now w; some w'
step w (cancels c) = some (cancel_watch c w)
step w (receives c) = some (after_receive w (receive c w.channels))

unfoldable pub run : World → List Command → Option World
run w [] = some w
run w (c ∷ cs) = do w' ← step w c; run w' cs

pub step_returns :
    (w : World) (c : Command) → IsSound w → (w' : World) × (step w c ≡ some w') × IsSound w'
unfolding step
step_returns w (sets node snapshot) v = set_snapshot_returns node snapshot w v
step_returns w (clears node) v = (_, refl, clear_snapshot-IsSound node v)
step_returns w (watches request now) v =
    let (r, w', e, s) = create_watch_returns request now w v in (w', rw e, s)
step_returns w (cancels c) v = (_, refl, cancel_watch-IsSound c v)
step_returns w (receives c) v = elim (Option-cases (receive c w.channels)) [
  | inl empty ↦ (w, rw empty, v)
  | inr ((r, chs), got) ↦ (record w { channels = chs }, rw got, receive-IsSound c v got)
]

pub run_returns_from :
    (w : World) (cs : List Command) → IsSound w → (w' : World) × (run w cs ≡ some w') × IsSound w'
unfolding run
run_returns_from w [] v = (w, refl, v)
run_returns_from w (c ∷ cs) v =
    let (w', e, s) = step_returns w c v in
    let (w'', e', s') = run_returns_from w' cs s in (w'', rw e e', s')

-- From an empty cache, whatever calls the updater and the streams make and in whatever order, no
-- method of the cache ever blocks on a channel, and in the world that is reached each channel
-- serves one open watch or holds one response, never both.
pub run_returns :
    (ads : Bool) (cs : List Command)
    → (w : World) × (run (new_snapshot_cache ads) cs ≡ some w) × IsSound w
run_returns ads cs = run_returns_from (new_snapshot_cache ads) cs (new_snapshot_cache-IsSound ads)
