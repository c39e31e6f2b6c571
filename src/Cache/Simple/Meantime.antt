-- ===== src/Cache/Simple/Meantime.antt =====
-- From the request of a client to the next snapshot of its node, whatever is called in between.
use bent.Cache.Simple.Delivery.{answers-Mem, IsOpened-watch_at}
use bent.Cache.Simple.Held.{IsFree, IsHeld, held_back-cases, answers_held}
use bent.Cache.Simple.Watched.{create_watch-IsWatched, new_id}
use bent.Cache.Simple.Notify.{set_snapshot-IsNotified, answers, due, is_current}
use bent.Cache.Simple.Answering.{pending_in-++}
use bent.Cache.Simple.Run.{run, run_returns_from, Command}
use bent.Cache.Simple.Sound.{IsSound, create_watch_returns, set_snapshot_returns}
use bent.Cache.Simple.Usage.{info_uses-le}
use bent.Cache.Simple.{node_id, set_snapshot, create_watch, int64_mod, Cancel, World}
use bent.Cache.Channels.{pending}
use bent.Cache.Snapshot.{get_version, get_resources, Snapshot}
use bent.Cache.Status.{Request, ResponseWatch}
use mathlib.Core.List.{Mem, mem-append_right}
use bent.Cache.Simple.Open.{IsOpen, AllAside, run-IsOpen}
use bent.Shared.{
  ==_iff, Option-cases, length, lookup, ℕ, ◌+◌, ◌≤◌, ◌<◌, ◌≡◌, ap, subst, ◌≢◌, ◌⊎◌, inl, inr, Bool,
  false, some, List, arith, string_key, nat_key,
}

-- What the next snapshot of the node does with the watch, if the client has not its version.
abbrev pub IsDelivered : Bool → ResponseWatch → Snapshot → World → Type 0
IsDelivered ads v snapshot w =
    let resources = get_resources (some snapshot) v.request.type_url in
    (IsFree ads v.request resources × Mem (v.response, due snapshot v) w.channels.buffered)
    ⊎ (IsHeld ads v.request resources × (pending v.response w.channels ≡ 0))

IsOpen-IsDelivered :
    (d : Cancel) (v : ResponseWatch) (ads : Bool) (snapshot : Snapshot) (n : ℕ) (w w' : World)
    → IsOpen d v ads n w
    → is_current snapshot v ≡ false
    → set_snapshot d.node snapshot w ≡ some w'
    → IsDelivered ads v snapshot w'
IsOpen-IsDelivered d v ads snapshot n w w' h stale set =
    let sent = (set_snapshot-IsNotified d.node snapshot w w' set).sent in
    let at = h.at in
    let c = v.response in
    elim (Option-cases (lookup d.node w.status)) [
      | inl missing ↦ absurd (ground (arith, missing, at))
      | inr (info, found) ↦
          let here : lookup d.watch info.watches ≡ some v = ground (arith, found, at) in
          elim (held_back-cases ads v.request (get_resources (some snapshot) v.request.type_url)) [
            | inl (free, why) ↦ inl (
              why,
              rw (sent, found, h.mode)
                  (mem-append_right w.channels.buffered
                    (answers-Mem ads snapshot d.watch v info.watches here stale free)),
            )
            | inr (held, why) ↦
                let quiet = answers_held ads snapshot d.watch v info.watches here held in
                let used = info_uses-le c d.node w.status in
                let once = h.sound.once c in
                inr (
                  why,
                  rw
                      (
                        sent,
                        found,
                        h.mode,
                        pending_in-++ c w.channels.buffered (answers ads snapshot info.watches),
                      )
                      (ground (arith, quiet, used, once, found)),
                )
          ]
    ]

create_watch-IsOpen :
    (request : Request) (now n : ℕ) (w w' : World) (ch : ℕ) (d : Cancel)
    → IsSound w
    → w.watch_count ≤ n
    → n + 1 < int64_mod
    → create_watch request now w ≡ some ((ch, some d), w')
    → (d.node ≡ node_id request.node)
      × IsOpen d (record { request = request; response = ch }) w.ads (n + 1) w'
create_watch-IsOpen request now n w w' ch d sound known bound made =
    let v = create_watch-IsWatched request now w made in
    let (r, w1, e, s) = create_watch_returns request now w sound in
    let same : w1 ≡ w' = ground (arith, e, made) in
    let value : ch ≡ w.channels.next = v.value in
    elim v.outcome [
      | inl o ↦
          let cancel = o.cancels in
          let count = o.count in
          let it : d ≡ record { node = node_id request.node; watch = new_id request now w } = cc in
          (
            ap (λ (c : Cancel). c.node) it,
            record {
              at = rw (it, value) (IsOpened-watch_at request now w o);
              mode = v.mode;
              old = rw (it, count) (omega arith);
              few = omega (arith, count, known, bound);
              sound = subst IsSound same s;
            },
          )
      | inr a ↦ absurd (cc (a.cancels))
    ]

-- No update is missed. In a sound cache a call of `CreateWatch` has left a watch open; whatever other
-- calls follow, fewer in all than the identifiers, as long as none cancels this watch and none stores
-- or clears a snapshot of its node, they and the next call of `SetSnapshot` for the node return, and
-- if that snapshot has another version of the requested type, then `SetSnapshot` puts that snapshot's response on the channel that `CreateWatch`
-- returned, if ADS is off, or the request names no resource, or it names each that there is; or
-- else, under ADS with a resource that the request does not name, the channel stays empty.
pub create_watch-set_snapshot :
    (request : Request) (now : ℕ) (w w' : World) (ch : ℕ) (d : Cancel) (between : List Command)
    (snapshot : Snapshot)
    → IsSound w
    → w.watch_count + 1 + length between < int64_mod
    → create_watch request now w ≡ some ((ch, some d), w')
    → AllAside d between
    → get_version (some snapshot) request.type_url ≢ request.version_info
    → (w1 w2 : World) × (run w' between ≡ some w1)
      × (set_snapshot (node_id request.node) snapshot w1 ≡ some w2)
      × IsDelivered w.ads (record { request = request; response = ch }) snapshot w2
create_watch-set_snapshot request now w w' ch d between snapshot sound bound made aside stale =
    let v : ResponseWatch = record { request = request; response = ch } in
    let (node, begun) =
      create_watch-IsOpen request now w.watch_count w w' ch d sound (omega arith)
        (omega (arith, bound)) made in
    let (w1, ran, kept) = run_returns_from w' between begun.sound in
    let (w2, set, s) = set_snapshot_returns (node_id request.node) snapshot w1 kept in
    let later = run-IsOpen d v w.ads between (w.watch_count + 1) w' w1 bound aside begun ran in
    let old : is_current snapshot v ≡ false =
      ground (
        arith,
        stale,
        ==_iff (get_version (some snapshot) request.type_url) request.version_info,
      ) in
    (
      w1,
      w2,
      ran,
      set,
      IsOpen-IsDelivered d v w.ads snapshot (w.watch_count + 1 + length between) w1 w2 later old
          (rw node set),
    )
