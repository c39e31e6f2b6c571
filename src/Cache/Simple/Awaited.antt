-- ===== src/Cache/Simple/Awaited.antt =====
-- A channel that a client waits on: it holds its response, or an open watch will send it one.
use bent.Cache.Simple.Delivery.{IsOpened-watch_at}
use bent.Cache.Simple.Watched.{new_id, new_watch, touched, create_watch-IsWatched}
use bent.Cache.Simple.Opening.{touched_watches, is_for}
use bent.Cache.Simple.Notify.{
  due, info_answers, set_snapshot-IsNotified, is_held_back, answers, is_current,
}
use bent.Cache.Simple.Canceling.{cancel_watch-counters, watch_at-cancel_watch, watch_at}
use bent.Cache.Channels.{receive-pending, receive, Channels, pending}
use bent.Cache.Snapshot.{Snapshot}
use bent.Cache.Simple.{node_id, create_watch, int64_mod, set_snapshot, cancel_watch, World, Cancel}
use bent.Cache.Status.{StatusInfo, Request, ResponseWatch, Response}
use bent.Cache.Simple.Answering.{
  pending_in-++, is_held_back-false, lookup-current_watches-some, answers-pending,
}
use bent.Shared.{
  nat_eq, if◌then◌else◌, ◌==◌, ==_iff, Bool-cases, Option-cases, lookup, insert, lookup-insert, ℕ,
  ◌+◌, ◌≤◌, ◌<◌, String, ◌≡◌, ◌⊎◌, inl, inr, Bool, true, false, not, Option, none, some, [], ◌∷◌,
  arith, string_key, nat_key,
}

-- The watch of a cancel function is open, and sends to the channel.
abbrev pub Watching : ℕ → Option Cancel → World → Type 0
Watching ch none w = ⊥
Watching ch (some d) w = (v : ResponseWatch) × (watch_at d w ≡ some v) × (v.response ≡ ch)

abbrev pub Awaits : ℕ → Option Cancel → World → Type 0
Awaits ch f w = (1 ≤ pending ch w.channels) ⊎ Watching ch f w

-- Two cancel functions are not for the same watch.
abbrev pub is_clear : Option Cancel → Option Cancel → Bool
is_clear none g = true
is_clear (some c) g = not (is_for c g)

-- The watch was made by a call before.
abbrev pub IsOld : Option Cancel → ℕ → Type 0
IsOld none count = Unit
IsOld (some c) count = c.watch ≤ count

pub create_watch-watch_at :
    (req : Request) (now : ℕ) (d : Cancel) (w w' : World) {r : ℕ × Option Cancel}
    {v : ResponseWatch}
    → d.watch ≤ w.watch_count
    → w.watch_count + 1 < int64_mod
    → create_watch req now w ≡ some (r, w')
    → watch_at d w ≡ some v
    → watch_at d w' ≡ some v
create_watch-watch_at req now d w w' {r} {v} old few e at =
    let node = node_id req.node in
    let info = touched req now w in
    let id = new_id req now w in
    let next : id ≡ w.watch_count + 1 = omega (arith, few) in
    let differ : (id == d.watch) ≡ false = ground (arith, next, old) in
    let info' : StatusInfo = record info {
      watches = insert id (new_watch req now w) info.watches;
    } in
    let first = lookup-insert node d.node info w.status in
    let here = touched_watches req now w d.watch in
    elim (create_watch-IsWatched req now w e).outcome [
      | inl o ↦ rw o.status (
          ground (
            arith,
            first,
            here,
            at,
            differ,
            ==_iff node d.node,
            lookup-insert id d.watch (new_watch req now w) info.watches,
            lookup-insert node d.node info' (insert node info w.status),
          ))
      | inr a ↦ rw a.status (ground (arith, first, here, at, ==_iff node d.node))
    ]

module _ (ch : ℕ) where
  pub Awaits-cancel_watch :
      (c : Cancel) (f : Option Cancel) (w : World)
      → is_clear f (some c) ≡ true
      → Awaits ch f w
      → Awaits ch f (cancel_watch c w)
  Awaits-cancel_watch c f w clear (inl here) = inl (rw (cancel_watch-counters c w).0 here)
  Awaits-cancel_watch c none w clear (inr h) = absurd h
  Awaits-cancel_watch c (some d) w clear (inr (v, at, same)) =
      inr (v, ground (arith, clear, at, watch_at-cancel_watch c d w), same)

  -- A receive from another channel.
  pub Awaits-receive :
      (d : ℕ) (f : Option Cancel) (w : World) {a : Response} {chs : Channels Response}
      → nat_eq d ch ≡ false
      → receive d w.channels ≡ some (a, chs)
      → Awaits ch f w
      → Awaits ch f (record w { channels = chs })
  Awaits-receive d f w other got (inl here) =
      inl (ground (arith, other, here, receive-pending ch d w.channels got))
  Awaits-receive d none w other got (inr h) = absurd h
  Awaits-receive d (some c) w other got (inr h) = inr h

  set_snapshot_at :
      (node : String) (snapshot : Snapshot) (d : Cancel) (info : StatusInfo) (v : ResponseWatch)
      (w w' : World)
      → w.ads ≡ false
      → set_snapshot node snapshot w ≡ some w'
      → lookup d.node w.status ≡ some info
      → lookup d.watch info.watches ≡ some v
      → v.response ≡ ch
      → Awaits ch (some d) w'
  set_snapshot_at node snapshot d info v w w' mode e found at same =
      let n = set_snapshot-IsNotified node snapshot w w' e in
      elim (Bool-cases (node == d.node)) [
        | inl here ↦
            let there : lookup node w.status ≡ some info =
              ground (arith, found, ==_iff node d.node) in
            elim (Bool-cases (is_current snapshot v)) [
              | inl current ↦
                  let stays =
                    lookup-current_watches-some snapshot d.watch v info.watches at current in
                  inr (v, rw (n.status d.node, here, there) stays, same)
              | inr stale ↦
                  let sent = answers-pending snapshot d.watch v info.watches at stale in
                  inl (
                    rw
                      (
                        n.sent,
                        mode,
                        there,
                        pending_in-++ ch w.channels.buffered (answers false snapshot info.watches),
                      )
                      (ground (arith, same, sent)))
            ]
        | inr differ ↦ inr (v, rw (n.status d.node, differ, found) at, same)
      ]

  -- A new snapshot answers the watch, or leaves it open.
  pub Awaits-set_snapshot :
      (node : String) (snapshot : Snapshot) (f : Option Cancel) (w w' : World)
      → w.ads ≡ false
      → set_snapshot node snapshot w ≡ some w'
      → Awaits ch f w
      → Awaits ch f w'
  Awaits-set_snapshot node snapshot f w w' mode e (inl here) =
      let n = set_snapshot-IsNotified node snapshot w w' e in
      inl (
        rw
          (
            n.sent,
            pending_in-++ ch w.channels.buffered
                (info_answers w.ads snapshot (lookup node w.status)),
          )
          (omega (arith, here)))
  Awaits-set_snapshot node snapshot none w w' mode e (inr h) = absurd h
  Awaits-set_snapshot node snapshot (some d) w w' mode e (inr (v, at, same)) =
      elim (Option-cases (lookup d.node w.status)) [
        | inl missing ↦ absurd (ground (arith, missing, at))
        | inr (info, found) ↦
            set_snapshot_at node snapshot d info v w w' mode e found (ground (arith, found, at))
              same
      ]

  -- A call of `CreateWatch` for another watch.
  pub Awaits-create_watch :
      (req : Request) (now : ℕ) (f : Option Cancel) (w w' : World) {r : ℕ × Option Cancel}
      → IsOld f w.watch_count
      → w.watch_count + 1 < int64_mod
      → create_watch req now w ≡ some (r, w')
      → Awaits ch f w
      → Awaits ch f w'
  Awaits-create_watch req now f w w' old few e (inl here) =
      let v = create_watch-IsWatched req now w e in
      elim v.outcome [
        | inl o ↦ inl (rw o.quiet here)
        | inr a ↦ inl (
            rw
              (
                a.sent,
                pending_in-++ ch w.channels.buffered (
                    if is_held_back w.ads a.snapshot (new_watch req now w)
                    then []
                    else (w.channels.next, due a.snapshot (new_watch req now w)) ∷ []),
              )
              (omega (arith, here)))
      ]
  Awaits-create_watch req now none w w' old few e (inr h) = absurd h
  Awaits-create_watch req now (some d) w w' old few e (inr (v, at, same)) =
      inr (v, create_watch-watch_at req now d w w' old few e at, same)

-- A call of `CreateWatch` answers the request, or leaves a watch open that will.
pub create_watch-Awaits :
    (req : Request) (now : ℕ) (w w' : World) {ch : ℕ} {f : Option Cancel}
    → w.ads ≡ false
    → create_watch req now w ≡ some ((ch, f), w')
    → Awaits ch f w'
create_watch-Awaits req now w w' {ch} {f} mode e =
    let v = create_watch-IsWatched req now w e in
    elim v.outcome [
      | inl o ↦
          rw o.cancels
            (inr (new_watch req now w, IsOpened-watch_at req now w o, ground (arith, v.value)))
      | inr a ↦ inl (
          rw
            (
              a.sent,
              mode,
              is_held_back-false a.snapshot (new_watch req now w),
              v.value,
              pending_in-++ w.channels.next w.channels.buffered
                  ((w.channels.next, due a.snapshot (new_watch req now w)) ∷ []),
            )
            (ground arith))
    ]
