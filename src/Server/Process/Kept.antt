-- ===== src/Server/Process/Kept.antt =====
-- What a stream on the snapshot cache keeps of the cache: the properties that the cache's methods
-- keep hold after every event, and no call of the cache blocks the stream.
use bent.Cache.Channels.{Channels, receive}
use bent.Cache.Status.{Request, Response}
use bent.Cache.Simple.{create_watch, cancel_watch, int64_mod, Cancel, World}
use bent.Server.{
  type_url_of, create_discovery_response, stream_open, stream_request, created, uncreated,
  no_watches, kind_of, Created, slot, Kind, Watches, Output, Callbacks,
}
use bent.Server.Watcher.{snapshot_watcher}
use bent.Cache.Resource.{Resource}
use bent.Server.Process.{
  asked_open, hangup, failed, asked_request, nonce_of, send, nonce_matches, meanwhile,
  with_type_url, request, on_response, Sent, blocked, watch_created, returned, opened, dispatch,
  Stream, on_received, handle, typed, closed, accepted, send_created, cancel_all, renew, running,
  observe, loop, start, ready, on_request, on_channel, cancel_slot, record_nonce, finish, on_closed,
  Outcome, Event,
}
use bent.Shared.{
  Bool-cases, Option-cases, ℕ, ◌+◌, ◌%◌, String, ◌≡◌, sym, subst, inl, inr, Bool, Option, none,
  some, List, [], ◌∷◌, arith,
}

-- A property of the cache that its methods keep; `CreateWatch` returns where it holds.
pub record IsKept (P : World → Type 0) : Type 0 where
  pub cancels : (f : Cancel) (w : World) → P w → P (cancel_watch f w)
  pub creates :
      (req : Request) (now : ℕ) (w : World)
      → P w
      → (r : ℕ × Option Cancel) × (w' : World) × (create_watch req now w ≡ some (r, w')) × P w'
  pub receives :
      (ch : ℕ) (w : World) (resp : Response) (chs : Channels Response)
      → P w
      → receive ch w.channels ≡ some (resp, chs)
      → P (record w { channels = chs })

-- The stream is not stuck, and the property holds of its cache.
abbrev pub Holds : (World → Type 0) → Outcome snapshot_watcher → Type 0
Holds P (running s) = P s.state
Holds P (returned status s) = P s.state
Holds P blocked = ⊥

-- It holds whenever the other goroutines have used the cache.
abbrev pub AllHold : (World → Type 0) → List (Event snapshot_watcher) → Type 0
AllHold P [] = Unit
AllHold P (ready k ok ∷ es) = AllHold P es
AllHold P (closed k ∷ es) = AllHold P es
AllHold P (request req now ∷ es) = AllHold P es
AllHold P (meanwhile w ∷ es) = P w × AllHold P es
AllHold P (hangup ∷ es) = AllHold P es

module _ (P : World → Type 0) (kept : IsKept P) (marshal : Resource → Option (List ℕ))
    (callbacks : Option Callbacks) where
  observe-state :
      (o : Output) (s : Stream snapshot_watcher)
      → (observe snapshot_watcher marshal callbacks o s).state ≡ s.state
  unfolding observe
  observe-state o s = ground arith

  observe-Holds :
      (o : Output) (s : Stream snapshot_watcher)
      → P s.state
      → P (observe snapshot_watcher marshal callbacks o s).state
  observe-Holds o s v = subst P (sym (observe-state o s)) v

  cancel_slot-Holds :
      (f : Option Cancel) (w : World) → P w → P (cancel_slot snapshot_watcher marshal callbacks f w)
  unfolding cancel_slot
  cancel_slot-Holds none w v = v
  cancel_slot-Holds (some f) w v = kept.cancels f w v

  send_created-Holds :
      (resp : Response) (ok : Bool) (made : Created) (s : Stream snapshot_watcher)
      → P s.state
      → P (send_created snapshot_watcher marshal callbacks resp ok made s).0.state
  unfolding send_created
  send_created-Holds resp ok (uncreated e) s v = v
  send_created-Holds resp ok (created out) s v = observe-Holds _ _ v

  record_nonce-Holds :
      (k : Kind) (r : Stream snapshot_watcher × Sent)
      → P r.0.state
      → Holds P (record_nonce snapshot_watcher marshal callbacks k r)
  unfolding record_nonce
  record_nonce-Holds k (s, nonce_of x) v = v
  record_nonce-Holds k (s, failed e) v = v

  on_channel-Holds :
      (k : Kind) (ok : Bool) (ch : Option ℕ) (s : Stream snapshot_watcher)
      → P s.state
      → Holds P (on_channel snapshot_watcher marshal callbacks k ok ch s)
  unfolding on_channel on_received on_response send
  on_channel-Holds k ok none s v = v
  on_channel-Holds k ok (some ch) s v = elim (Option-cases (receive ch s.state.channels)) [
    | inl empty ↦ rw empty v
    | inr ((resp, chs), got) ↦
        let made = create_discovery_response marshal (some resp) (type_url_of k) in
        let w : World = record s.state { channels = chs } in
        let s' : Stream snapshot_watcher = record s { state = w } in
        rw got (
          record_nonce-Holds k (send_created snapshot_watcher marshal callbacks resp ok made s')
            (send_created-Holds resp ok made s' (kept.receives ch s.state resp chs v got)))
  ]

  renew-Holds :
      (k : Kind) (req : Request) (now : ℕ) (s : Stream snapshot_watcher)
      → P s.state
      → Holds P (renew snapshot_watcher marshal callbacks k req now s)
  unfolding renew watch_created
  renew-Holds k req now s v = elim (Bool-cases (nonce_matches (slot k s.values).nonce req)) [
    | inl fits ↦
        let f = (slot k s.values).cancel in
        let (r, w', e, v') =
          kept.creates req now (cancel_slot snapshot_watcher marshal callbacks f s.state)
            (cancel_slot-Holds f s.state v) in
        rw (fits, e) v'
    | inr stale ↦ rw stale v
  ]

  accepted-Holds :
      (asked : Option String) (req : Request) (now : ℕ) (s : Stream snapshot_watcher)
      → P s.state
      → Holds P (accepted snapshot_watcher marshal callbacks asked req now s)
  unfolding accepted dispatch
  accepted-Holds (some e) req now s v = v
  accepted-Holds none req now s v = elim (Option-cases (kind_of req.type_url)) [
    | inl unknown ↦ rw unknown v
    | inr (k, known) ↦ rw known (renew-Holds k req now s v)
  ]

  on_request-Holds :
      (url : String) (req : Option Request) (now : ℕ) (s : Stream snapshot_watcher)
      → P s.state
      → Holds P (on_request snapshot_watcher marshal callbacks url req now s)
  unfolding on_request typed
  on_request-Holds url none now s v = v
  on_request-Holds url (some req) now s v = elim (Option-cases (with_type_url url req)) [
    | inl missing ↦ rw missing v
    | inr (req', known) ↦ rw known (
        accepted-Holds (asked_request snapshot_watcher marshal callbacks callbacks s.stream_id req')
          req' now (observe snapshot_watcher marshal callbacks (stream_request s.stream_id req') s)
          (observe-Holds (stream_request s.stream_id req') s v))
  ]

  on_closed-Holds :
      (k : Kind) (ch : Option ℕ) (s : Stream snapshot_watcher)
      → P s.state
      → Holds P (on_closed snapshot_watcher marshal callbacks k ch s)
  unfolding on_closed
  on_closed-Holds k none s v = v
  on_closed-Holds k (some ch) s v = v

  pub loop-Holds :
      (url : String) (es : List (Event snapshot_watcher)) (o : Outcome snapshot_watcher)
      → AllHold P es
      → Holds P o
      → Holds P (loop snapshot_watcher marshal callbacks url es o)
  unfolding loop handle
  loop-Holds url [] o h v = v
  loop-Holds url (ready k ok ∷ es) (running s) h v =
      loop-Holds url es _ h (on_channel-Holds k ok (slot k s.values).channel s v)
  loop-Holds url (closed k ∷ es) (running s) h v =
      loop-Holds url es _ h (on_closed-Holds k (slot k s.values).channel s v)
  loop-Holds url (request req now ∷ es) (running s) h v =
      loop-Holds url es _ h (on_request-Holds url req now s v)
  loop-Holds url (meanwhile w ∷ es) (running s) h v =
      loop-Holds url es (running (record s { state = w })) h.1 h.0
  loop-Holds url (hangup ∷ es) (running s) h v = loop-Holds url es (returned none s) h v
  loop-Holds url (e ∷ es) (returned status s) h v = v
  loop-Holds url (e ∷ es) blocked h v = v

  pub cancel_all-Holds :
      (ws : Watches Cancel) (w : World)
      → P w
      → P (cancel_all snapshot_watcher marshal callbacks ws w)
  unfolding cancel_all
  cancel_all-Holds ws w v = cancel_slot-Holds ws.secrets.cancel _ (
      cancel_slot-Holds ws.listeners.cancel _ (
        cancel_slot-Holds ws.routes.cancel _
          (cancel_slot-Holds ws.clusters.cancel _ (cancel_slot-Holds ws.endpoints.cancel w v))))

  pub finish-Holds :
      (o : Outcome snapshot_watcher)
      → Holds P o
      → Holds P (finish snapshot_watcher marshal callbacks o)
  unfolding finish
  finish-Holds (running s) v = v
  finish-Holds (returned status s) v = observe-Holds _ _ (cancel_all-Holds s.values s.state v)
  finish-Holds blocked v = v

  pub start-Holds :
      (url : String) (count : ℕ) (w : World)
      → P w
      → Holds P (start snapshot_watcher marshal callbacks url count w)
  unfolding start opened
  start-Holds url count w v =
      let id = (count + 1) % int64_mod in
      let s : Stream snapshot_watcher = record {
        state = w;
        stream_id = id;
        stream_nonce = 0;
        values = no_watches;
        trace = [];
      } in
      elim (Option-cases (asked_open snapshot_watcher marshal callbacks callbacks id url)) [
        | inl fine ↦ rw fine (observe-Holds (stream_open id url) s v)
        | inr (why, refused) ↦ rw refused (observe-Holds (stream_open id url) s v)
      ]
