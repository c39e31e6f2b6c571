-- ===== src/System/Updates.antt =====
-- A round of the updater among the streams.
use bent.Cache.Simple.{set_snapshot}
use bent.Provider.Updater.{snapshot_of, set_snapshots, Orders}
use bent.Provider.Node.{Node}
use bent.System.{stored, System, stores, Action, advance, run_system}
use bent.Server.{Callbacks}
use bent.Cache.Resource.{Resource}
use bent.Shared.{Option-cases, ℕ, suc, String, ◌≡◌, refl, inl, inr, Option, List, [], ◌∷◌}

module _ (md5 : List (List ℕ) → String) (marshal : Resource → Option (List ℕ))
    (callbacks : Option Callbacks) where
  -- The calls that the loop of `Run` makes for its nodes.
  abbrev pub stores_of : (ℕ → Orders) → List Node → List Action
  stores_of os [] = []
  stores_of os (n ∷ ns) =
      stores n.name (snapshot_of md5 marshal (os 0) n) ∷ stores_of (λ i. os (suc i)) ns

  -- The loop of `Run` over its nodes does to the cache what the single calls of `SetSnapshot` do one
  -- after the other among the streams: the streams stay as they are, and it blocks where one of the
  -- calls blocks.
  pub run_system-stores_of :
      (os : ℕ → Orders) (ns : List Node) (sys : System)
      → run_system marshal callbacks (stores_of os ns) sys
        ≡ stored sys (set_snapshots md5 marshal os ns sys.world)
  unfolding run_system advance set_snapshots
  run_system-stores_of os [] sys = refl
  run_system-stores_of os (n ∷ ns) sys =
      elim (Option-cases (set_snapshot n.name (snapshot_of md5 marshal (os 0) n) sys.world)) [
        | inl stuck ↦ rw (set_snapshots, stuck) refl
        | inr (w, put) ↦
            rw (set_snapshots, put)
              (run_system-stores_of (λ i. os (suc i)) ns (record sys { world = w }))
      ]
