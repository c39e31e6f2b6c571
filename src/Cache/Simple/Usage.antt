-- ===== src/Cache/Simple/Usage.antt =====
-- How often the watches of the cache, together with the buffers, use each channel.
use bent.Shared.{
  nat_eq, if◌then◌else◌, ◌==◌, Bool-cases, Map, lookup, insert, erase, ℕ, suc, ◌+◌, ◌≤◌, String,
  ◌≡◌, refl, ◌∙◌, inl, inr, Bool, true, false, Option, none, some, [], ◌∷◌, ◌++◌, arith, string_key,
  nat_key,
}
use bent.Cache.Resource.{Resource}
use bent.Cache.Channels.{Channels, pending, send-pending, send_returns}
use bent.Cache.Snapshot.{Snapshot, get_version, get_resources}
use bent.Cache.Status.{Request, Response, ResponseWatch, StatusInfo}
use bent.Cache.Simple.{held_back, respond, create_response, offer, trigger}

-- How many of the watches answer on the channel `c`.
abbrev pub uses : ℕ → Map ℕ ResponseWatch → ℕ
uses c [] = 0
uses c ((id, w) ∷ ws) = let more = uses c ws in if nat_eq w.response c then suc more else more

abbrev pub info_uses : ℕ → Option StatusInfo → ℕ
info_uses c none = 0
info_uses c (some info) = uses c info.watches

abbrev pub status_uses : ℕ → Map String StatusInfo → ℕ
status_uses c [] = 0
status_uses c ((node, info) ∷ rest) = uses c info.watches + status_uses c rest

pub uses-insert :
    (c id : ℕ) (w : ResponseWatch) (ws : Map ℕ ResponseWatch)
    → uses c (insert id w ws) ≤ uses c ws + (if nat_eq w.response c then 1 else 0)
unfolding insert
uses-insert c id w [] = ground arith
uses-insert c id w ((i, v) ∷ ws) = ground (arith, uses-insert c id w ws)

pub uses-erase : (c id : ℕ) (ws : Map ℕ ResponseWatch) → uses c (erase id ws) ≤ uses c ws
unfolding erase
uses-erase c id [] = ground arith
uses-erase c id ((i, v) ∷ ws) = ground (arith, uses-erase c id ws)

-- To overwrite a record exchanges its uses for those of the new one.
pub status_uses-insert :
    (c : ℕ) (node : String) (info : StatusInfo) (st : Map String StatusInfo)
    → status_uses c (insert node info st) + info_uses c (lookup node st)
      ≡ status_uses c st + uses c info.watches
unfolding insert lookup
status_uses-insert c node info [] = ground arith
status_uses-insert c node info ((n, i) ∷ st) = ground (arith, status_uses-insert c node info st)

pub status_uses-erase :
    (c : ℕ) (node : String) (st : Map String StatusInfo)
    → status_uses c (erase node st) ≤ status_uses c st
unfolding erase
status_uses-erase c node [] = ground arith
status_uses-erase c node ((n, i) ∷ st) = ground (arith, status_uses-erase c node st)

pub info_uses-le :
    (c : ℕ) (node : String) (st : Map String StatusInfo)
    → info_uses c (lookup node st) ≤ status_uses c st
unfolding lookup
info_uses-le c node [] = ground arith
info_uses-le c node ((n, i) ∷ st) = ground (arith, info_uses-le c node st)

module _ (ads : Bool) (request : Request) (value : ℕ) (resources : Map String Resource)
    (version : String) (chs : Channels Response) where
  -- A response on an empty channel does not block, and puts at most one value there.
  pub respond_returns :
      pending value chs ≡ 0
      → (chs' : Channels Response) × (respond ads request value resources version chs ≡ some chs')
        × (chs'.next ≡ chs.next)
        × ((c : ℕ) → pending c chs' ≤ pending c chs + (if nat_eq value c then 1 else 0))
  unfolding respond
  respond_returns empty = elim (Bool-cases (held_back ads request resources)) [
    | inl held ↦ (chs, rw held, refl, λ c. ground arith)
    | inr free ↦
        let r = create_response request resources version in
        let sent = send_returns value r chs empty in
        let counted = λ (c : ℕ). send-pending c value r chs sent in
        (
          record chs { buffered = chs.buffered ++ (value, r) ∷ [] },
          rw free sent,
          (counted 0).1,
          λ c. omega (arith, (counted c).0),
        )
  ]

-- Whether the watch stays open or is answered, it and its channel are not used more often.
pub offer_returns :
    (ads : Bool) (snapshot : Snapshot) (w : ResponseWatch) (chs : Channels Response)
    → pending w.response chs ≡ 0
    → (stays : Bool) × (chs' : Channels Response) × (offer ads snapshot w chs ≡ some (stays, chs'))
      × (chs'.next ≡ chs.next)
      × ((c : ℕ)
          → (if stays then uses c ((0, w) ∷ []) else 0) + pending c chs'
            ≤ uses c ((0, w) ∷ []) + pending c chs)
unfolding offer
offer_returns ads snapshot w chs empty =
    elim (Bool-cases (get_version (some snapshot) w.request.type_url == w.request.version_info)) [
      | inl current ↦ (true, chs, rw current, refl, λ c. ground arith)
      | inr stale ↦
          let (chs', e, n, le) =
            respond_returns ads w.request w.response
              (get_resources (some snapshot) w.request.type_url)
              (get_version (some snapshot) w.request.type_url) chs empty in
          (false, chs', rw (stale, e), n, λ c. ground (arith, le c))
    ]

-- The loop over the watches of a node returns if no channel is used twice.
pub trigger_returns :
    (ads : Bool) (snapshot : Snapshot) (ws : Map ℕ ResponseWatch) (chs : Channels Response)
    → ((c : ℕ) → uses c ws + pending c chs ≤ 1)
    → (kept : Map ℕ ResponseWatch) × (chs' : Channels Response) × (trigger ads snapshot ws chs
        ≡ some (kept, chs'))
      × (chs'.next ≡ chs.next)
      × ((c : ℕ) → uses c kept + pending c chs' ≤ uses c ws + pending c chs)
unfolding trigger
trigger_returns ads snapshot [] chs once = ([], chs, refl, refl, λ c. ground arith)
trigger_returns ads snapshot ((id, w) ∷ ws) chs once =
    let (stays, chs', e, n, le) =
      offer_returns ads snapshot w chs (ground (arith, once w.response)) in
    let (kept, chs'', e', n', le') =
      trigger_returns ads snapshot ws chs' (λ c. ground (arith, le c, once c)) in
    (
      if stays then (id, w) ∷ kept else kept,
      chs'',
      rw (e, e'),
      n' ∙ n,
      λ c. ground (arith, le c, le' c),
    )
