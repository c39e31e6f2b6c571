-- ===== src/Cache/Simple/Current.antt =====
-- No client is left waiting while the cache has a newer version for it.
use bent.Cache.Simple.Watched.{
  create_watch-IsWatched, new_watch, new_id, touched, IsWatched, has_news,
}
use bent.Cache.Simple.Run.{receives, cancels, watches, clears, sets, step, Command, run}
use bent.Cache.Channels.{receive}
use bent.Cache.Simple.Notify.{
  set_snapshot-IsNotified, notified, current_watches, is_current, IsNotified,
}
use bent.Cache.Simple.{
  new_snapshot_cache, node_id, cancel_status, Cancel, cancel_watch, clear_snapshot, create_watch,
  touch, World,
}
use bent.Cache.Snapshot.{Snapshot}
use bent.Cache.Status.{Request, new_status_info, StatusInfo, ResponseWatch}
use bent.Shared.{
  ◌==◌, ==_iff, Bool-cases, Option-cases, Map, lookup, insert, erase, lookup-insert, lookup-erase,
  ℕ, String, ◌≡◌, subst, inl, inr, Bool, true, false, Option, none, some, List, [], ◌∷◌, arith,
  string_key, nat_key,
}

module _ {ℓ} (P : ResponseWatch → Type ℓ) where
  abbrev pub AllWatches : Map ℕ ResponseWatch → Type ℓ
  AllWatches [] = Unit
  AllWatches ((id, w) ∷ ws) = P w × AllWatches ws

  pub AllWatches-insert :
      (id : ℕ) (w : ResponseWatch) (ws : Map ℕ ResponseWatch)
      → P w
      → AllWatches ws
      → AllWatches (insert id w ws)
  unfolding insert
  AllWatches-insert id w [] p h = (p, tt)
  AllWatches-insert id w ((i, v) ∷ ws) p h = ground (arith, AllWatches-insert id w ws p h.1)

  pub AllWatches-erase :
      (id : ℕ) (ws : Map ℕ ResponseWatch) → AllWatches ws → AllWatches (erase id ws)
  unfolding erase
  AllWatches-erase id [] h = tt
  AllWatches-erase id ((i, v) ∷ ws) h = ground (arith, AllWatches-erase id ws h.1)

current_watches-AllWatches :
    (snapshot : Snapshot) (ws : Map ℕ ResponseWatch)
    → AllWatches (λ w. is_current snapshot w ≡ true) (current_watches snapshot ws)
current_watches-AllWatches snapshot [] = tt
current_watches-AllWatches snapshot ((id, w) ∷ ws) =
    ground (arith, current_watches-AllWatches snapshot ws)

-- The client of each open watch of a node has the version that the cache has for the node.
abbrev pub CurrentAt : Option Snapshot → Option StatusInfo → Type 0
CurrentAt none info = Unit
CurrentAt (some snapshot) none = Unit
CurrentAt (some snapshot) (some info) = AllWatches (λ w. is_current snapshot w ≡ true) info.watches

abbrev pub IsCurrent : World → Type 0
IsCurrent w = (node : String) → CurrentAt (lookup node w.snapshots) (lookup node w.status)

pub new_snapshot_cache-IsCurrent : (ads : Bool) → IsCurrent (new_snapshot_cache ads)
unfolding new_snapshot_cache lookup
new_snapshot_cache-IsCurrent ads node = tt

notified-CurrentAt :
    (snapshot : Snapshot) (old : Option StatusInfo)
    → CurrentAt (some snapshot) (notified snapshot old)
notified-CurrentAt snapshot none = tt
notified-CurrentAt snapshot (some old) = current_watches-AllWatches snapshot old.watches

pub IsNotified-IsCurrent :
    {node : String} {snapshot : Snapshot} {w w' : World}
    → IsNotified node snapshot w w'
    → IsCurrent w
    → IsCurrent w'
IsNotified-IsCurrent {node} {snapshot} {w} {w'} n h other =
    rw (n.snapshots other, n.status other)
      (elim (Bool-cases (node == other)) [
        | inl same ↦ rw same (notified-CurrentAt snapshot (lookup node w.status))
        | inr differ ↦ rw differ (h other)
      ])

-- To put a record whose watches are current.
CurrentAt-insert :
    (node other : String) (info : StatusInfo) (snapshots : Map String Snapshot)
    (status : Map String StatusInfo)
    → CurrentAt (lookup node snapshots) (some info)
    → CurrentAt (lookup other snapshots) (lookup other status)
    → CurrentAt (lookup other snapshots) (lookup other (insert node info status))
CurrentAt-insert node other info snapshots status here there =
    rw (lookup-insert node other info status) (elim (Bool-cases (node == other)) [
      | inl same ↦ rw (same, ← (==_iff node other).0 same) here
      | inr differ ↦ rw differ there
    ])

pub clear_snapshot-IsCurrent :
    (node : String) (w : World) → IsCurrent w → IsCurrent (clear_snapshot node w)
unfolding clear_snapshot
clear_snapshot-IsCurrent node w h other =
    rw (lookup-erase node other w.snapshots, lookup-erase node other w.status)
      (elim (Bool-cases (node == other)) [
        | inl same ↦ rw same tt
        | inr differ ↦ rw differ (h other)
      ])

erase-CurrentAt :
    (id : ℕ) (snapshot : Option Snapshot) (info : StatusInfo)
    → CurrentAt snapshot (some info)
    → CurrentAt snapshot (some (record info { watches = erase id info.watches }))
erase-CurrentAt id none info h = tt
erase-CurrentAt id (some snapshot) info h =
    AllWatches-erase (λ w. is_current snapshot w ≡ true) id info.watches h

pub cancel_watch-IsCurrent : (c : Cancel) (w : World) → IsCurrent w → IsCurrent (cancel_watch c w)
unfolding cancel_watch
cancel_watch-IsCurrent c w h = elim (Option-cases (lookup c.node w.status)) [
  | inl missing ↦ rw (missing, cancel_status) h
  | inr (info, found) ↦
      rw (found, cancel_status)
        λ other.
          CurrentAt-insert c.node other (record info { watches = erase c.watch info.watches })
            w.snapshots w.status
            (erase-CurrentAt c.watch (lookup c.node w.snapshots) info (rw found at (h c.node)))
            (h other)
]

-- A record that was just looked up or made.
touch-CurrentAt :
    (request : Request) (now : ℕ) (w : World)
    → IsCurrent w
    → CurrentAt (lookup (node_id request.node) w.snapshots) (some (touch request now w.cache))
unfolding touch new_status_info
touch-CurrentAt request now w h = elim (Option-cases (lookup (node_id request.node) w.snapshots)) [
  | inl missing ↦ rw missing tt
  | inr (snapshot, stored) ↦ elim (Option-cases (lookup (node_id request.node) w.status)) [
    | inl missing ↦ rw (stored, missing) tt
    | inr (info, found) ↦ rw (stored, found) (rw (stored, found) at (h (node_id request.node)))
  ]
]

insert-CurrentAt :
    (id : ℕ) (w : ResponseWatch) (snapshot : Option Snapshot) (info : StatusInfo)
    → has_news snapshot w ≡ false
    → CurrentAt snapshot (some info)
    → CurrentAt snapshot (some (record info { watches = insert id w info.watches }))
insert-CurrentAt id w none info e h = tt
insert-CurrentAt id w (some snapshot) info e h =
    AllWatches-insert (λ v. is_current snapshot v ≡ true) id w info.watches (ground (arith, e)) h

pub IsWatched-IsCurrent :
    {request : Request} {now : ℕ} {w : World} {r : ℕ × Option Cancel} {w' : World}
    → IsWatched request now w r w'
    → IsCurrent w
    → IsCurrent w'
IsWatched-IsCurrent {request} {now} {w} {r} {w'} v h other =
    let node = node_id request.node in
    let info = touched request now w in
    let here = touch-CurrentAt request now w h in
    let first = CurrentAt-insert node other info w.snapshots w.status here (h other) in
    elim v.outcome [
      | inl o ↦
          rw (v.snapshots, o.status)
            (CurrentAt-insert node other _ w.snapshots _
              (insert-CurrentAt (new_id request now w) (new_watch request now w)
                (lookup node w.snapshots) info o.wanted here)
              first)
      | inr a ↦ rw (v.snapshots, a.status) first
    ]

IsCurrent-of_some :
    (w w' : World) → ◌≡◌ {A = Option World} (some w) (some w') → IsCurrent w → IsCurrent w'
IsCurrent-of_some w w' e = subst IsCurrent {x = w} {y = w'} (ground arith)

step-IsCurrent : (w w' : World) (c : Command) → step w c ≡ some w' → IsCurrent w → IsCurrent w'
unfolding step
step-IsCurrent w w' (sets node snapshot) e h =
    IsNotified-IsCurrent (set_snapshot-IsNotified node snapshot w w' e) h
step-IsCurrent w w' (clears node) e h = IsCurrent-of_some _ w' e (clear_snapshot-IsCurrent node w h)
step-IsCurrent w w' (watches request now) e h = elim (Option-cases (create_watch request now w)) [
  | inl blocked ↦ absurd (ground (arith, blocked))
  | inr ((r, w''), made) ↦
      IsCurrent-of_some w'' w' (ground (arith, made))
        (IsWatched-IsCurrent (create_watch-IsWatched request now w made) h)
]
step-IsCurrent w w' (cancels c) e h = IsCurrent-of_some _ w' e (cancel_watch-IsCurrent c w h)
step-IsCurrent w w' (receives c) e h = elim (Option-cases (receive c w.channels)) [
  | inl empty ↦ IsCurrent-of_some w w' (ground (arith, empty)) h
  | inr ((r, chs), got) ↦ IsCurrent-of_some (record w { channels = chs }) w' (ground (arith, got)) h
]

run-IsCurrent_from :
    (w w' : World) (cs : List Command) → run w cs ≡ some w' → IsCurrent w → IsCurrent w'
unfolding run
run-IsCurrent_from w w' [] e h = IsCurrent-of_some w w' e h
run-IsCurrent_from w w' (c ∷ cs) e h = elim (Option-cases (step w c)) [
  | inl blocked ↦ absurd (ground (arith, blocked))
  | inr (w1, moved) ↦
      run-IsCurrent_from w1 w' cs (ground (arith, moved)) (step-IsCurrent w w1 c moved h)
]

-- Whatever calls were made from an empty cache, and in whatever order: where the cache has a
-- snapshot for a node, the client of each open watch of that node has the snapshot's version.
pub run-IsCurrent :
    (ads : Bool) (cs : List Command) (w : World)
    → run (new_snapshot_cache ads) cs ≡ some w
    → IsCurrent w
run-IsCurrent ads cs w e =
    run-IsCurrent_from (new_snapshot_cache ads) w cs e (new_snapshot_cache-IsCurrent ads)
