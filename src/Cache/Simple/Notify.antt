-- ===== src/Cache/Simple/Notify.antt =====
-- What `SetSnapshot` does with the open watches, said without the loop.
use bent.Cache.Simple.Sound.{set_snapshot_returns, IsSound}
use bent.Shared.{
  if◌then◌else◌, ◌==◌, ==_iff, Bool-cases, Option-cases, keep_if, Map, lookup, lookup-insert, ℕ,
  String, ◌≡◌, inl, inr, Bool, ◌||◌, Option, none, some, List, [], ◌∷◌, ◌++◌, arith, string_key,
  nat_key,
}
use mathlib.Core.List.{append-nil, append_assoc}
use bent.Cache.Resource.{Resource}
use bent.Cache.Channels.{Channels, send}
use bent.Cache.Snapshot.{Snapshot, get_version, get_resources}
use bent.Cache.Status.{StatusInfo, Request, Response, ResponseWatch}
use bent.Cache.Simple.{
  trigger_status, World, set_snapshot, held_back, respond, create_response, offer, trigger,
}

-- The client of the watch has the snapshot's version of the resources.
abbrev pub is_current : Snapshot → ResponseWatch → Bool
is_current snapshot w = get_version (some snapshot) w.request.type_url == w.request.version_info

-- The response that a watch is due.
abbrev pub due : Snapshot → ResponseWatch → Response
due snapshot w =
    create_response w.request (get_resources (some snapshot) w.request.type_url)
      (get_version (some snapshot) w.request.type_url)

abbrev pub is_held_back : Bool → Snapshot → ResponseWatch → Bool
is_held_back ads snapshot w =
    held_back ads w.request (get_resources (some snapshot) w.request.type_url)

abbrev pub current_watches : Snapshot → Map ℕ ResponseWatch → Map ℕ ResponseWatch
current_watches snapshot ws = keep_if (λ e. is_current snapshot e.1) ws

-- The values that the channels of the watches receive, in the order of the loop.
abbrev pub answers : Bool → Snapshot → Map ℕ ResponseWatch → List (ℕ × Response)
answers ads snapshot [] = []
answers ads snapshot ((id, w) ∷ ws) =
    let more = answers ads snapshot ws in
    if is_current snapshot w || is_held_back ads snapshot w
    then more
    else (w.response, due snapshot w) ∷ more

pub respond_lem :
    (ads : Bool) (request : Request) (value : ℕ) (resources : Map String Resource)
    (version : String) (chs : Channels Response) {chs' : Channels Response}
    → respond ads request value resources version chs ≡ some chs'
    → (chs'.buffered
        ≡ chs.buffered
          ++ (if held_back ads request resources
              then []
              else (value, create_response request resources version) ∷ []))
      × (chs'.next ≡ chs.next)
unfolding respond send
respond_lem ads request value resources version chs e =
    elim (Bool-cases (held_back ads request resources)) [
      | inl held ↦ (rw (held, append-nil) (ground (arith, held)), ground (arith, held))
      | inr free ↦ (rw free (ground (arith, free)), ground (arith, free))
    ]

offer_lem :
    (ads : Bool) (snapshot : Snapshot) (w : ResponseWatch) (chs : Channels Response) {stays : Bool}
    {chs' : Channels Response}
    → offer ads snapshot w chs ≡ some (stays, chs')
    → (stays ≡ is_current snapshot w)
      × (chs'.buffered ≡ chs.buffered ++ answers ads snapshot ((0, w) ∷ []))
      × (chs'.next ≡ chs.next)
unfolding offer
offer_lem ads snapshot w chs e =
    let resources = get_resources (some snapshot) w.request.type_url in
    let version = get_version (some snapshot) w.request.type_url in
    elim (Option-cases (respond ads w.request w.response resources version chs)) [
      | inl blocked ↦ ground (arith, blocked, append-nil chs.buffered)
      | inr (chs1, sent) ↦ ground (
        arith,
        sent,
        append-nil chs.buffered,
        respond_lem ads w.request w.response resources version chs sent,
      )
    ]

pub trigger_lem :
    (ads : Bool) (snapshot : Snapshot) (ws : Map ℕ ResponseWatch) (chs : Channels Response)
    {kept : Map ℕ ResponseWatch} {chs' : Channels Response}
    → trigger ads snapshot ws chs ≡ some (kept, chs')
    → (kept ≡ current_watches snapshot ws)
      × (chs'.buffered ≡ chs.buffered ++ answers ads snapshot ws)
      × (chs'.next ≡ chs.next)
unfolding trigger
trigger_lem ads snapshot [] chs e = (ground arith, rw append-nil (ground arith), ground arith)
trigger_lem ads snapshot ((id, w) ∷ ws) chs e = elim (Option-cases (offer ads snapshot w chs)) [
  | inl blocked ↦ ground (arith, blocked)
  | inr ((stays, chs1), offered) ↦ elim (Option-cases (trigger ads snapshot ws chs1)) [
    | inl blocked ↦ ground (arith, offered, blocked)
    | inr ((rest, chs2), looped) ↦ ground (
      arith,
      offered,
      looped,
      offer_lem ads snapshot w chs offered,
      trigger_lem ads snapshot ws chs1 looped,
      append_assoc chs.buffered (answers ads snapshot ((0, w) ∷ [])) (answers ads snapshot ws),
    )
  ]
]

-- The status record of a node after a new snapshot, and the values that its channels receive.
abbrev pub notified : Snapshot → Option StatusInfo → Option StatusInfo
notified snapshot none = none
notified snapshot (some info) =
    some (record info { watches = current_watches snapshot info.watches })

abbrev pub info_answers : Bool → Snapshot → Option StatusInfo → List (ℕ × Response)
info_answers ads snapshot none = []
info_answers ads snapshot (some info) = answers ads snapshot info.watches

-- What a call of `SetSnapshot` has done when it returns, for every node.
pub record IsNotified (node : String) (snapshot : Snapshot) (w w' : World) : Type 0 where
  pub snapshots :
      (other : String)
      → lookup other w'.snapshots
        ≡ (if node == other then some snapshot else lookup other w.snapshots)
  pub status :
      (other : String)
      → lookup other w'.status ≡ (
          if node == other then notified snapshot (lookup node w.status) else lookup other w.status)
  pub sent :
      w'.channels.buffered
      ≡ w.channels.buffered ++ info_answers w.ads snapshot (lookup node w.status)
  pub made : w'.channels.next ≡ w.channels.next
  pub mode : w'.ads ≡ w.ads
  pub count : w'.watch_count ≡ w.watch_count

pub set_snapshot-IsNotified :
    (node : String) (snapshot : Snapshot) (w w' : World)
    → set_snapshot node snapshot w ≡ some w'
    → IsNotified node snapshot w w'
unfolding set_snapshot trigger_status
set_snapshot-IsNotified node snapshot w w' e = elim (Option-cases (lookup node w.status)) [
  | inl missing ↦ record {
    snapshots = λ other. ground (arith, missing, lookup-insert node other snapshot w.snapshots);
    status = λ other. ground (arith, missing, ==_iff node other);
    sent = rw (missing, append-nil) (ground (arith, missing));
    made = ground (arith, missing);
    mode = ground (arith, missing);
    count = ground (arith, missing);
  }
  | inr (info, found) ↦ elim (Option-cases (trigger w.ads snapshot info.watches w.channels)) [
    | inl blocked ↦ absurd (ground (arith, found, blocked))
    | inr ((kept, chs), looped) ↦
        let looped_lem = trigger_lem w.ads snapshot info.watches w.channels looped in
        let put =
          λ (other : String). lookup-insert node other (record info { watches = kept }) w.status in
        record {
          snapshots =
              λ other. ground (arith, found, looped, lookup-insert node other snapshot w.snapshots);
          status = λ other. ground (arith, found, looped, looped_lem, put other);
          sent = rw found (ground (arith, found, looped, looped_lem));
          made = ground (arith, found, looped, looped_lem);
          mode = ground (arith, found, looped);
          count = ground (arith, found, looped);
        }
  ]
]

-- `SetSnapshot` returns; the node has the snapshot; of its watches exactly those stay open whose
-- client has the snapshot's version; each other one is sent its response, unless ADS holds it
-- back; no other channel receives anything, no channel is made, and no other node changes.
pub set_snapshot_lem :
    (node : String) (snapshot : Snapshot) (w : World)
    → IsSound w
    → (w' : World) × (set_snapshot node snapshot w ≡ some w') × IsNotified node snapshot w w'
set_snapshot_lem node snapshot w v =
    let (w', e, s) = set_snapshot_returns node snapshot w v in
    (w', e, set_snapshot-IsNotified node snapshot w w' e)
