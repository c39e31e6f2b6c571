-- ===== src/System/Closing.antt =====
-- What the streams of the program leave behind in the cache: nothing.
use bent.System.Owned.{
  move_at-guards, joined, owned-append, IsOwned-step, NoneStuck-last, opened-guards, IsOwned, owned,
}
use bent.Cache.Simple.Current.{new_snapshot_cache-IsCurrent}
use bent.Cache.Simple.Sound.{new_snapshot_cache-IsSound}
use bent.Cache.Simple.Canceling.{watch_at}
use bent.Cache.Snapshot.{Snapshot}
use bent.System.Sound.{IsHealthy-IsStable, advance-Keeps, IsHealthy, Keeps, NoneStuck}
use bent.Server.Process.Held.{still_holds}
use bent.Server.Watcher.{snapshot_watcher}
use bent.Cache.Simple.Opening.{is_open-set_snapshot, is_open}
use bent.Server.{Callbacks}
use bent.Server.Process.{blocked, returned, running, Outcome}
use bent.Cache.Resource.{Resource}
use bent.System.{
  stored, new_system, run_system, moves, connects, stores, Action, opened, advance, world_of,
  move_at, System,
}
use bent.Cache.Simple.{new_snapshot_cache, set_snapshot, World, Cancel}
use bent.Shared.{
  Option-cases, lookup, ℕ, String, ◌≡◌, refl, subst, inl, inr, Bool, true, false, Option, none,
  some, List, [], ◌∷◌, ◌++◌, arith, string_key, nat_key,
}

-- The invariant, if no stream is stuck.
abbrev WhenDone : Option System → Type 0
WhenDone none = Unit
WhenDone (some sys) = NoneStuck sys.served → IsOwned sys

module _ (marshal : Resource → Option (List ℕ)) (callbacks : Option Callbacks) where
  stored-IsOwned :
      (node : String) (snapshot : Snapshot) (sys : System) (w : World)
      → set_snapshot node snapshot sys.world ≡ some w
      → IsOwned sys
      → WhenDone (stored sys (some w))
  stored-IsOwned node snapshot sys w e h u d =
      ground (arith, is_open-set_snapshot d node snapshot sys.world w e, h d)

  advance-IsOwned :
      (a : Action) (sys : System) → IsOwned sys → WhenDone (advance marshal callbacks a sys)
  unfolding advance
  advance-IsOwned (stores node snapshot) sys h =
      elim (Option-cases (set_snapshot node snapshot sys.world)) [
        | inl stuck ↦ rw stuck tt
        | inr (w, stored) ↦ rw stored (stored-IsOwned node snapshot sys w stored h)
      ]
  advance-IsOwned (connects url) sys h = λ u d.
      let o = opened marshal callbacks url sys in
      let g = opened-guards marshal callbacks d url sys (NoneStuck-last sys.served url o u) in
      IsOwned-step (is_open d sys.world) (owned d sys.served) (is_open d (world_of sys.world o))
        (owned d (sys.served ++ (url, o) ∷ []))
        (rw (owned-append d sys.served url o) (
          joined (is_open d sys.world) (owned d sys.served) (is_open d (world_of sys.world o))
            (still_holds d o) g))
        (h d)
  advance-IsOwned (moves i m) sys h = λ u d.
      let next = move_at marshal callbacks i m sys.world sys.served in
      IsOwned-step (is_open d sys.world) (owned d sys.served) (is_open d next.1) (owned d next.0)
        (move_at-guards marshal callbacks d i m sys.world sys.served u) (h d)

  run_system-IsOwned_from :
      (actions : List Action) (sys sys' : System)
      → Keeps IsHealthy sys
      → IsOwned sys
      → run_system marshal callbacks actions sys ≡ some sys'
      → IsOwned sys'
  unfolding run_system
  run_system-IsOwned_from [] sys sys' k h e = subst IsOwned {x = sys} {y = sys'} (ground arith) h
  run_system-IsOwned_from (a ∷ actions) sys sys' k h e =
      let (sys1, e1, k1) = advance-Keeps IsHealthy IsHealthy-IsStable marshal callbacks a sys k in
      run_system-IsOwned_from actions sys1 sys' k1
        (subst WhenDone e1 (advance-IsOwned a sys h) k1.streams) (ground (arith, e1))

  -- Whatever the updater stores, and whatever the clients of all streams send and however their
  -- streams end, in any interleaving: each watch that is open in the cache is one that a stream
  -- which has not ended can still cancel.
  pub run_system-IsOwned :
      (ads : Bool) (actions : List Action) (sys : System)
      → run_system marshal callbacks actions (new_system ads) ≡ some sys
      → IsOwned sys
  unfolding new_system new_snapshot_cache lookup
  run_system-IsOwned ads actions sys e =
      run_system-IsOwned_from actions (new_system ads) sys
        (record {
          world = (new_snapshot_cache-IsSound ads, new_snapshot_cache-IsCurrent ads);
          streams = tt;
        })
        (λ d. refl) e

abbrev pub all_returned : List (String × Outcome snapshot_watcher) → Bool
all_returned [] = true
all_returned ((url, running s) ∷ rest) = false
all_returned ((url, returned status s) ∷ rest) = all_returned rest
all_returned ((url, blocked) ∷ rest) = false

all_returned-owned :
    (d : Cancel) (served : List (String × Outcome snapshot_watcher))
    → all_returned served ≡ true
    → owned d served ≡ false
all_returned-owned d [] e = refl
all_returned-owned d ((url, running s) ∷ rest) e = absurd (ground arith)
all_returned-owned d ((url, returned status s) ∷ rest) e = all_returned-owned d rest e
all_returned-owned d ((url, blocked) ∷ rest) e = absurd (ground arith)

-- When every stream of a run has ended, no watch is open in the cache.
pub run_system_closes :
    (marshal : Resource → Option (List ℕ)) (callbacks : Option Callbacks) (ads : Bool)
    (actions : List Action) (sys : System) (d : Cancel)
    → run_system marshal callbacks actions (new_system ads) ≡ some sys
    → all_returned sys.served ≡ true
    → watch_at d sys.world ≡ none
run_system_closes marshal callbacks ads actions sys d e ended = ground (
  arith,
  run_system-IsOwned marshal callbacks ads actions sys e d,
  all_returned-owned d sys.served ended,
)
