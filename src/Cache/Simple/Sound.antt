-- ===== src/Cache/Simple/Sound.antt =====
-- No method of the cache ever blocks on a channel: the invariant, and each method.
use bent.Shared.{
  ◌==◌, ==_refl, Bool-cases, Option-cases, lookup, insert, erase, lookup-insert, ℕ, ◌+◌, ◌≤◌, ◌<◌,
  String, ◌≡◌, refl, inl, inr, Bool, Option, none, some, arith, string_key, nat_key,
}
use bent.Cache.Channels.{Channels, pending, make_channel, receive, receive-pending}
use bent.Cache.Snapshot.{Snapshot, get_version, get_resources}
use bent.Cache.Status.{Request, Response, ResponseWatch, StatusInfo, new_status_info}
use bent.Cache.Simple.Usage.{
  uses, info_uses, status_uses, uses-insert, uses-erase, status_uses-insert, status_uses-erase,
  info_uses-le, respond_returns, trigger_returns,
}
use bent.Cache.Simple.{
  World, Cancel, new_snapshot_cache, trigger_status, set_snapshot, clear_snapshot, cancel_status,
  cancel_watch, node_id, next_watch_id, touch, open_watch, answer_watch, watch_snapshot,
  create_watch,
}

-- A channel serves one open watch or holds one value, never both, and a number that no channel has
-- yet is not in use.
pub record IsSound (w : World) : Type 0 where
  pub once : (c : ℕ) → status_uses c w.status + pending c w.channels ≤ 1
  pub fresh : (c : ℕ) → w.channels.next ≤ c → status_uses c w.status + pending c w.channels ≡ 0

pub new_snapshot_cache-IsSound : (ads : Bool) → IsSound (new_snapshot_cache ads)
unfolding new_snapshot_cache
new_snapshot_cache-IsSound ads = record { once = λ c. omega arith; fresh = λ c h. omega arith }

-- The invariant depends on the counts alone.
IsSound-of_le :
    {w w' : World}
    → IsSound w
    → w'.channels.next ≡ w.channels.next
    → ((c : ℕ)
        → status_uses c w'.status + pending c w'.channels
          ≤ status_uses c w.status + pending c w.channels)
    → IsSound w'
IsSound-of_le v n le = record {
  once = λ c. omega (arith, le c, v.once c);
  fresh = λ c h. omega (arith, le c, v.fresh c (omega (arith, n)));
}

pub clear_snapshot-IsSound :
    (node : String) {w : World} → IsSound w → IsSound (clear_snapshot node w)
unfolding clear_snapshot
clear_snapshot-IsSound node {w} v =
    IsSound-of_le v refl λ c. omega (arith, status_uses-erase c node w.status)

pub cancel_watch-IsSound : (c : Cancel) {w : World} → IsSound w → IsSound (cancel_watch c w)
unfolding cancel_watch
cancel_watch-IsSound c {w} v = elim (Option-cases (lookup c.node w.status)) [
  | inl missing ↦ rw (missing, cancel_status) v
  | inr (info, found) ↦
      rw (found, cancel_status)
        (IsSound-of_le v refl λ d. ground (
          arith,
          found,
          uses-erase d c.watch info.watches,
          status_uses-insert d c.node (record info { watches = erase c.watch info.watches })
              w.status,
        ))
]

-- What a stream receives from a channel only lowers the counts.
pub receive-IsSound :
    (c : ℕ) {w : World} {r : Response} {chs : Channels Response}
    → IsSound w
    → receive c w.channels ≡ some (r, chs)
    → IsSound (record w { channels = chs })
receive-IsSound c {w} v e =
    let counted = λ (d : ℕ). receive-pending d c w.channels e in
    IsSound-of_le v (counted 0).1 λ d. omega (arith, (counted d).0)

trigger_status_returns :
    (node : String) (snapshot : Snapshot) (info : Option StatusInfo) {w : World}
    → IsSound w
    → lookup node w.status ≡ info
    → (w' : World) × (trigger_status node snapshot info w ≡ some w') × IsSound w'
unfolding trigger_status
trigger_status_returns node snapshot none {w} v found = (w, refl, v)
trigger_status_returns node snapshot (some info) {w} v found =
    let once = λ (c : ℕ).
      let p = info_uses-le c node w.status in
      let q = v.once c in
      let r : uses c info.watches + pending c w.channels ≤ 1 = ground (arith, found, p, q) in r in
    let (kept, chs, e, n, le) = trigger_returns w.ads snapshot info.watches w.channels once in
    let info' : StatusInfo = record info { watches = kept } in
    (
      record { cache = record w.cache { status = insert node info' w.status }; channels = chs },
      rw e,
      IsSound-of_le v n λ c. ground (arith, found, le c, status_uses-insert c node info' w.status),
    )

-- `SetSnapshot` never blocks on a watch's channel.
pub set_snapshot_returns :
    (node : String) (snapshot : Snapshot) (w : World)
    → IsSound w
    → (w' : World) × (set_snapshot node snapshot w ≡ some w') × IsSound w'
unfolding set_snapshot
set_snapshot_returns node snapshot w v =
    trigger_status_returns node snapshot (lookup node w.status)
      (record { once = v.once; fresh = v.fresh }) refl

-- A world in which a channel has just been made, and is not used yet.
pub record IsReady (value : ℕ) (w : World) : Type 0 where
  pub sound : IsSound w
  pub unused : status_uses value w.status + pending value w.channels ≡ 0
  pub made : value < w.channels.next

open_watch-IsSound :
    (request : Request) (value : ℕ) (info : StatusInfo) {w : World}
    → IsReady value w
    → lookup (node_id request.node) w.status ≡ some info
    → IsSound (open_watch request value info w).1
unfolding open_watch
open_watch-IsSound request value info {w} v found =
    let id = (next_watch_id w.cache).0 in
    let watch : ResponseWatch = record { request = request; response = value } in
    let watches = insert id watch info.watches in
    let count = λ (c : ℕ).
      status_uses-insert c (node_id request.node) (record info { watches = watches }) w.status in
    let le = λ (c : ℕ). uses-insert c id watch info.watches in
    unfold next_watch_id in
    record {
      once = λ c. ground (arith, found, count c, le c, v.sound.once c, v.unused);
      fresh = λ c h. ground (arith, found, count c, le c, v.sound.fresh c h, v.made);
    }

answer_watch_returns :
    (request : Request) (value : ℕ) (snapshot : Snapshot) {w : World}
    → IsReady value w
    → (r : ℕ × Option Cancel) × (w' : World) × (answer_watch request value snapshot w
        ≡ some (r, w'))
      × IsSound w'
unfolding answer_watch
answer_watch_returns request value snapshot {w} v =
    let (chs, e, n, le) =
      respond_returns w.ads request value (get_resources (some snapshot) request.type_url)
        (get_version (some snapshot) request.type_url) w.channels (omega (arith, v.unused)) in
    (
      (value, none),
      record w { channels = chs },
      rw e,
      record {
        once = λ c. ground (arith, le c, v.sound.once c, v.unused);
        fresh = λ c h. ground (arith, le c, n, v.sound.fresh c, v.made);
      },
    )

watch_snapshot_returns :
    (request : Request) (value : ℕ) (info : StatusInfo) (snapshot : Option Snapshot) {w : World}
    → IsReady value w
    → lookup (node_id request.node) w.status ≡ some info
    → (r : ℕ × Option Cancel) × (w' : World) × (watch_snapshot request value info snapshot w
        ≡ some (r, w'))
      × IsSound w'
unfolding watch_snapshot
watch_snapshot_returns request value info none {w} v found =
    (_, _, refl, open_watch-IsSound request value info v found)
watch_snapshot_returns request value info (some snapshot) {w} v found =
    elim (Bool-cases (request.version_info == get_version (some snapshot) request.type_url)) [
      | inl current ↦ (
        (open_watch request value info w).0,
        (open_watch request value info w).1,
        rw current,
        open_watch-IsSound request value info v found,
      )
      | inr stale ↦
          let (r, w', e, s) = answer_watch_returns request value snapshot v in
          (r, w', rw stale e, s)
    ]

-- To make a missing record changes no count.
uses-touch :
    (c : ℕ) (request : Request) (now : ℕ) (w : World)
    → uses c (touch request now w.cache).watches
      ≡ info_uses c (lookup (node_id request.node) w.status)
unfolding touch new_status_info
uses-touch c request now w = ground arith

-- `CreateWatch` never blocks.
pub create_watch_returns :
    (request : Request) (now : ℕ) (w : World)
    → IsSound w
    → (r : ℕ × Option Cancel) × (w' : World) × (create_watch request now w ≡ some (r, w'))
      × IsSound w'
unfolding create_watch make_channel
create_watch_returns request now w v =
    let node = node_id request.node in
    let info = touch request now w.cache in
    let count = λ (c : ℕ). status_uses-insert c node info w.status in
    let same = λ (c : ℕ). uses-touch c request now w in
    watch_snapshot_returns request w.channels.next info (lookup node w.snapshots)
      (record {
        sound = record {
          once = λ c. omega (arith, count c, same c, v.once c);
          fresh = λ c h. omega (arith, count c, same c, v.fresh c (omega arith));
        };
        unused = omega (
          arith,
          count w.channels.next,
          same w.channels.next,
          v.fresh w.channels.next (omega arith),
        );
        made = omega arith;
      })
      (rw (lookup-insert, ==_refl))
