-- ===== src/System/Sound.antt =====
-- No goroutine of the program is ever stuck in a call of the cache, and what the cache's methods
-- keep holds in every run.
use bent.Cache.Simple.Notify.{set_snapshot-IsNotified}
use bent.Cache.Simple.Watched.{create_watch-IsWatched}
use bent.Cache.Snapshot.{Snapshot}
use bent.Server.{Callbacks}
use bent.Server.Watcher.{snapshot_watcher}
use bent.Server.Process.Kept.{start-Holds, loop-Holds, finish-Holds, Holds, AllHold, IsKept}
use bent.Cache.Simple.Current.{
  IsNotified-IsCurrent, new_snapshot_cache-IsCurrent, IsWatched-IsCurrent, IsCurrent,
  cancel_watch-IsCurrent,
}
use bent.System.{
  moves, ends, opened, breaks, flushes, connects, stores, arrives, Action, event_of, world_of, move,
  move_at, run_system, moved, advance, new_system, System, Move,
}
use bent.Cache.Resource.{Resource}
use bent.Server.Process.{blocked, Stream, returned, running, loop, Outcome}
use bent.Cache.Simple.{set_snapshot, World}
use bent.Cache.Simple.Sound.{
  set_snapshot_returns, receive-IsSound, new_snapshot_cache-IsSound, create_watch_returns, IsSound,
  cancel_watch-IsSound,
}
use bent.Shared.{ℕ, zero, suc, String, ◌≡◌, refl, Bool, Option, some, List, [], ◌∷◌, ◌++◌}

abbrev pub IsUnstuck : Outcome snapshot_watcher → Type 0
IsUnstuck o = Holds (λ w. Unit) o

abbrev pub NoneStuck : List (String × Outcome snapshot_watcher) → Type 0
NoneStuck [] = Unit
NoneStuck ((url, o) ∷ rest) = IsUnstuck o × NoneStuck rest

-- A property of the cache holds, and no stream is stuck.
pub record Keeps (P : World → Type 0) (sys : System) : Type 0 where
  pub world : P sys.world
  pub streams : NoneStuck sys.served

-- A property that the calls of the updater keep too.
pub record IsStable (P : World → Type 0) : Type 0 where
  pub kept : IsKept P
  pub stores :
      (node : String) (snapshot : Snapshot) (w : World)
      → P w
      → (w' : World) × (set_snapshot node snapshot w ≡ some w') × P w'

NoneStuck-append :
    (served : List (String × Outcome snapshot_watcher)) (url : String)
    (o : Outcome snapshot_watcher)
    → NoneStuck served
    → IsUnstuck o
    → NoneStuck (served ++ (url, o) ∷ [])
NoneStuck-append [] url o h u = (u, tt)
NoneStuck-append ((other, p) ∷ served) url o h u = (h.0, NoneStuck-append served url o h.1 u)

module _ (P : World → Type 0) where
  Holds-IsUnstuck : (o : Outcome snapshot_watcher) → Holds P o → IsUnstuck o
  Holds-IsUnstuck (running s) h = tt
  Holds-IsUnstuck (returned status s) h = tt
  Holds-IsUnstuck blocked h = h

  Holds-world_of : (w : World) (o : Outcome snapshot_watcher) → Holds P o → P (world_of w o)
  Holds-world_of w (running s) h = h
  Holds-world_of w (returned status s) h = h
  Holds-world_of w blocked h = absurd h

  own_moves : (m : Move) → AllHold P (event_of m ∷ [])
  own_moves (arrives req now) = tt
  own_moves (flushes k ok) = tt
  own_moves (breaks k) = tt
  own_moves ends = tt

module _ (P : World → Type 0) (stable : IsStable P) (marshal : Resource → Option (List ℕ))
    (callbacks : Option Callbacks) where
  move-Holds :
      (url : String) (m : Move) (w : World) (s : Stream snapshot_watcher)
      → P w
      → Holds P (move marshal callbacks url m w (running s))
  unfolding move loop
  move-Holds url m w s v =
      let s' : Stream snapshot_watcher = record s { state = w } in
      finish-Holds P stable.kept marshal callbacks _ (
        loop-Holds P stable.kept marshal callbacks url (event_of m ∷ []) (running s')
          (own_moves P m) v)

  move-IsUnstuck :
      (url : String) (m : Move) (w : World) (o : Outcome snapshot_watcher)
      → P w
      → IsUnstuck o
      → IsUnstuck (move marshal callbacks url m w o)
  unfolding move
  move-IsUnstuck url m w (running s) v u = Holds-IsUnstuck P _ (move-Holds url m w s v)
  move-IsUnstuck url m w (returned status s) v u = tt
  move-IsUnstuck url m w blocked v u = u

  moved-kept :
      (url : String) (m : Move) (w : World) (o : Outcome snapshot_watcher)
      → P w
      → P (moved marshal callbacks url m w o)
  moved-kept url m w (running s) v = Holds-world_of P w _ (move-Holds url m w s v)
  moved-kept url m w (returned status s) v = v
  moved-kept url m w blocked v = v

  move_at-kept :
      (i : ℕ) (m : Move) (w : World) (served : List (String × Outcome snapshot_watcher))
      → P w
      → NoneStuck served
      → P (move_at marshal callbacks i m w served).1
        × NoneStuck (move_at marshal callbacks i m w served).0
  unfolding move_at
  move_at-kept i m w [] v h = (v, tt)
  move_at-kept zero m w ((url, o) ∷ rest) v h =
      (moved-kept url m w o v, (move-IsUnstuck url m w o v h.0, h.1))
  move_at-kept (suc i) m w ((url, o) ∷ rest) v h =
      let (v', h') = move_at-kept i m w rest v h.1 in (v', (h.0, h'))

  pub advance-Keeps :
      (a : Action) (sys : System)
      → Keeps P sys
      → (sys' : System) × (advance marshal callbacks a sys ≡ some sys') × Keeps P sys'
  unfolding advance
  advance-Keeps (stores node snapshot) sys k =
      let (w', e, v) = stable.stores node snapshot sys.world k.world in
      let sys' : System = record sys { world = w' } in
      (sys', rw e refl, record { world = v; streams = k.streams })
  advance-Keeps (connects url) sys k =
      let started =
        start-Holds P stable.kept marshal callbacks url sys.stream_count sys.world k.world in
      let h = finish-Holds P stable.kept marshal callbacks _ started in
      (
        _,
        refl,
        record {
          world = Holds-world_of P sys.world (opened marshal callbacks url sys) h;
          streams =
              NoneStuck-append sys.served url (opened marshal callbacks url sys) k.streams
                (Holds-IsUnstuck P _ h);
        },
      )
  advance-Keeps (moves i m) sys k =
      let (v, h) = move_at-kept i m sys.world sys.served k.world k.streams in
      (_, refl, record { world = v; streams = h })

  pub run_system-Keeps :
      (actions : List Action) (sys : System)
      → Keeps P sys
      → (sys' : System) × (run_system marshal callbacks actions sys ≡ some sys') × Keeps P sys'
  unfolding run_system
  run_system-Keeps [] sys k = (sys, refl, k)
  run_system-Keeps (a ∷ actions) sys k =
      let (sys1, e, k1) = advance-Keeps a sys k in
      let (sys2, e', k2) = run_system-Keeps actions sys1 k1 in (sys2, rw e e', k2)

-- The cache is sound, and no open watch is behind the cache.
abbrev pub IsHealthy : World → Type 0
IsHealthy w = IsSound w × IsCurrent w

pub IsHealthy-IsStable : IsStable IsHealthy
IsHealthy-IsStable = record {
  kept = record {
    cancels = λ f w v. (cancel_watch-IsSound f v.0, cancel_watch-IsCurrent f w v.1);
    creates = λ req now w v.
        let (r, w', e, v') = create_watch_returns req now w v.0 in
        (r, w', e, (v', IsWatched-IsCurrent (create_watch-IsWatched req now w e) v.1));
    receives = λ ch w resp chs v got. (receive-IsSound ch v.0 got, v.1);
  };
  stores = λ node snapshot w v.
      let (w', e, v') = set_snapshot_returns node snapshot w v.0 in
      (w', e, (v', IsNotified-IsCurrent (set_snapshot-IsNotified node snapshot w w' e) v.1));
}

module _ (marshal : Resource → Option (List ℕ)) (callbacks : Option Callbacks) where
  -- Whatever the updater stores, and whatever the clients of all streams send and however their
  -- streams end, in any interleaving: no call of the cache ever blocks the updater or a stream, and
  -- after each run the cache is sound and the client of every open watch has the version that the
  -- cache has for its node.
  pub run_system_returns :
      (ads : Bool) (actions : List Action)
      → (sys : System) × (run_system marshal callbacks actions (new_system ads) ≡ some sys)
        × Keeps IsHealthy sys
  unfolding new_system
  run_system_returns ads actions =
      run_system-Keeps IsHealthy IsHealthy-IsStable marshal callbacks actions (new_system ads)
        (record {
          world = (new_snapshot_cache-IsSound ads, new_snapshot_cache-IsCurrent ads);
          streams = tt;
        })
