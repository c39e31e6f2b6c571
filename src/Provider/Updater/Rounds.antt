-- ===== src/Provider/Updater/Rounds.antt =====
-- What a round of the updater leaves in the cache.
use bent.Provider.Annotations.{value}
use bent.Cache.Simple.Current.{IsNotified-IsCurrent, IsCurrent}
use bent.Cache.Simple.Sound.{set_snapshot_returns, IsSound}
use bent.Cache.Snapshot.{Snapshot}
use bent.Cache.Simple.{World}
use bent.Provider.Listener.{Marshal}
use bent.Provider.Updater.{
  done, clusters_in, transform, snapshot_of, ProviderClusters, set_snapshots, run_once, Orders,
}
use bent.Provider.Node.{Node}
use bent.Cache.Resource.{Resource}
use bent.Cache.Simple.Notify.{set_snapshot-IsNotified}
use bent.Shared.{
  if◌then◌else◌, ◌==◌, is_some, lookup, ℕ, suc, String, ◌≡◌, refl, Option, none, some, List, [],
  ◌∷◌, arith, string_key, nat_key,
}

module _ (md5 : List (List ℕ) → String) (marshal : Resource → Option (List ℕ)) where
  -- The snapshot of the last node of a name.
  abbrev pub last_snapshot : (ℕ → Orders) → String → List Node → Option Snapshot
  last_snapshot os name [] = none
  last_snapshot os name (n ∷ ns) =
      let later = last_snapshot (λ i. os (suc i)) name ns in
      if is_some later
      then later
      else if n.name == name
      then some (snapshot_of md5 marshal (os 0) n)
      else none

  -- The cache holds the snapshots of the nodes, and under every other name what it held before.
  pub record IsStored (os : ℕ → Orders) (ns : List Node) (w w' : World) : Type 0 where
    pub sound : IsSound w'
    pub current : IsCurrent w'
    pub snapshots :
        (name : String)
        → lookup name w'.snapshots ≡ (
            if is_some (last_snapshot os name ns)
            then last_snapshot os name ns
            else lookup name w.snapshots)

  pub set_snapshots_lem :
      (os : ℕ → Orders) (ns : List Node) (w : World)
      → IsSound w
      → IsCurrent w
      → (w' : World) × (set_snapshots md5 marshal os ns w ≡ some w') × IsStored os ns w w'
  unfolding set_snapshots
  set_snapshots_lem os [] w v c =
      (w, refl, record { sound = v; current = c; snapshots = λ name. refl })
  set_snapshots_lem os (n ∷ ns) w v c =
      let snapshot = snapshot_of md5 marshal (os 0) n in
      let (w1, e, s) = set_snapshot_returns n.name snapshot w v in
      let first = set_snapshot-IsNotified n.name snapshot w w1 e in
      let (w2, e', rest) =
        set_snapshots_lem (λ i. os (suc i)) ns w1 s (IsNotified-IsCurrent first c) in
      (
        w2,
        rw (set_snapshots, e) e',
        record {
          sound = rest.sound;
          current = rest.current;
          snapshots = λ name. ground (arith, rest.snapshots name, first.snapshots name);
        },
      )

  -- If `transform` returns, a round of `Run` ends and does not block on any channel: the cache holds
  -- the snapshot of each node under its name, no client waits for a version that the cache has, and
  -- no other node's snapshot has changed. It is assumed that the world is sound and current
  -- before, as every history of calls leaves it.
  pub run_once_lem :
      (message_to_any : Marshal) (os : ℕ → Orders) (first second : ProviderClusters)
      (ns : List Node) (w : World)
      → IsSound w
      → IsCurrent w
      → transform message_to_any first second ≡ value ns
      → (w' : World) × (run_once message_to_any md5 marshal os (clusters_in first second) w
          ≡ done w')
        × IsStored os ns w w'
  unfolding run_once
  run_once_lem message_to_any os first second ns w v c made =
      let (w', e, stored) = set_snapshots_lem os ns w v c in
      (w', rw (run_once, made, e) refl, stored)
