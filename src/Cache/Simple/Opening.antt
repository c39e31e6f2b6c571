-- ===== src/Cache/Simple/Opening.antt =====
-- Which calls open a watch, and which watches they open.
use bent.Cache.Simple.Watched.{create_watch-IsWatched, new_watch, new_id, touched}
use bent.Cache.Simple.Notify.{current_watches, set_snapshot-IsNotified}
use bent.Cache.Simple.Canceling.{watch_at, same_watch}
use bent.Cache.Snapshot.{Snapshot}
use bent.Cache.Status.{StatusInfo, new_status_info, ResponseWatch, Request}
use bent.Cache.Simple.{node_id, touch, set_snapshot, create_watch, World, Cancel}
use bent.Shared.{
  ◌==◌, ==_iff, Bool-cases, Option-cases, is_some, Map, lookup, insert, lookup-insert, ℕ, String,
  ◌≡◌, refl, inl, inr, Bool, true, false, not, ◌||◌, Option, none, some, [], ◌∷◌, arith, string_key,
  nat_key,
}

abbrev pub is_open : Cancel → World → Bool
is_open d w = is_some (watch_at d w)

abbrev pub is_for : Cancel → Option Cancel → Bool
is_for d none = false
is_for d (some c) = same_watch c d

pub touched_watches :
    (request : Request) (now : ℕ) (w : World) (id : ℕ)
    → lookup id (touched request now w).watches
      ≡ watch_at (record { node = node_id request.node; watch = id }) w
unfolding touch new_status_info lookup
touched_watches request now w id = elim (Option-cases (lookup (node_id request.node) w.status)) [
  | inl missing ↦ rw missing refl
  | inr (info, found) ↦ rw found refl
]

-- `CreateWatch` opens no watch but the one that it returns the cancel function of.
pub is_open-create_watch :
    (d : Cancel) (request : Request) (now : ℕ) (w : World) {r : ℕ × Option Cancel} {w' : World}
    → create_watch request now w ≡ some (r, w')
    → (not (is_open d w') || is_for d r.1 || is_open d w) ≡ true
is_open-create_watch d request now w {r} {w'} e =
    let node = node_id request.node in
    let info = touched request now w in
    let id = new_id request now w in
    let info' : StatusInfo = record info {
      watches = insert id (new_watch request now w) info.watches;
    } in
    let first = lookup-insert node d.node info w.status in
    let here = touched_watches request now w d.watch in
    let v = create_watch-IsWatched request now w e in
    elim v.outcome [
      | inl o ↦
          rw (o.status, o.cancels)
            (ground (
              arith,
              first,
              here,
              ==_iff node d.node,
              lookup-insert id d.watch (new_watch request now w) info.watches,
              lookup-insert node d.node info' (insert node info w.status),
            ))
      | inr a ↦ rw a.status (ground (arith, first, here, ==_iff node d.node))
    ]

lookup-current_watches :
    (snapshot : Snapshot) (id : ℕ) (ws : Map ℕ ResponseWatch)
    → (not (is_some (lookup id (current_watches snapshot ws))) || is_some (lookup id ws)) ≡ true
unfolding lookup
lookup-current_watches snapshot id [] = refl
lookup-current_watches snapshot id ((other, w) ∷ ws) =
    ground (arith, lookup-current_watches snapshot id ws)

-- `SetSnapshot` opens no watch.
pub is_open-set_snapshot :
    (d : Cancel) (node : String) (snapshot : Snapshot) (w w' : World)
    → set_snapshot node snapshot w ≡ some w'
    → (not (is_open d w') || is_open d w) ≡ true
is_open-set_snapshot d node snapshot w w' e =
    let n = set_snapshot-IsNotified node snapshot w w' e in
    rw (n.status d.node) (elim (Bool-cases (node == d.node)) [
      | inl same ↦
          rw (same, (==_iff node d.node).0 same)
            (elim (Option-cases (lookup d.node w.status)) [
              | inl missing ↦ rw missing refl
              | inr (info, found) ↦ rw found (lookup-current_watches snapshot d.watch info.watches)
            ])
      | inr differ ↦ rw differ (ground arith)
    ])
