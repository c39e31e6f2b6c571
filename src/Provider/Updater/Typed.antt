-- ===== src/Provider/Updater/Typed.antt =====
-- The types of the resources in the snapshots that the updater stores.
use bent.Provider.Node.Typed.{node-AllOf}
use bent.Cache.Snapshot.Typed.{new_snapshot-IsTyped, IsTyped}
use bent.Provider.Node.{listeners_of, routes_of, clusters_of, endpoints_of, Node}
use bent.Cache.Resource.{Resource}
use bent.Provider.Updater.{compute_version, snapshot_of, Orders}
use bent.Shared.{ℕ, String, Option, List}

pub snapshot_of-IsTyped :
    (hash : List (List ℕ) → String) (marshal : Resource → Option (List ℕ)) (o : Orders) (n : Node)
    → IsTyped (snapshot_of hash marshal o n)
unfolding snapshot_of
snapshot_of-IsTyped hash marshal o n =
    let (h, c, r, l) = node-AllOf o.hashed o.clusters o.routes n in
    let (e, c', r', l') = node-AllOf o.listed o.clusters o.routes n in
    new_snapshot-IsTyped (compute_version hash marshal (endpoints_of o.hashed n))
      (endpoints_of o.listed n) (clusters_of o.clusters n) (routes_of o.routes n) (listeners_of n) e
      c r l
