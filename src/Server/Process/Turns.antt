-- ===== src/Server/Process/Turns.antt =====
-- What one round of a stream does with its watches and with the cache, by cases.
use bent.Cache.Simple.{World, Cancel, create_watch}
use bent.Cache.Channels.{receive, Channels}
use bent.Cache.Status.{Request, Response}
use bent.Server.Process.Held.{is_own}
use bent.Server.Process.{
  hangup, blocked, returned, send_created, nonce_of, meanwhile, request, failed, cancel_slot,
  asked_request, closed, Sent, with_type_url, nonce_matches, running, ready, observe, send, Outcome,
  on_response, dispatch, on_received, watch_created, typed, Stream, Event, renew, handle, accepted,
  on_closed, on_channel, record_nonce, on_request,
}
use bent.Server.{
  created, uncreated, Output, Created, Status, Watches, type_url_of, create_discovery_response,
  put_slot, stream_request, kind_of, slot, callback_error, Kind, Callbacks,
}
use bent.Cache.Resource.{Resource}
use bent.Server.Watcher.{snapshot_watcher}
use bent.Shared.{
  Bool-cases, Option-cases, ℕ, String, ◌≡◌, refl, ap, inl, inr, Bool, true, Option, none, some,
  List, arith,
}

module _ (marshal : Resource → Option (List ℕ)) (callbacks : Option Callbacks) where
  pub observe-values :
      (o : Output) (s : Stream snapshot_watcher)
      → ((observe snapshot_watcher marshal callbacks o s).values ≡ s.values)
        × ((observe snapshot_watcher marshal callbacks o s).state ≡ s.state)
  unfolding observe
  observe-values o s = ground arith

  pub send_created-keeps :
      (resp : Response) (ok : Bool) (made : Created) (s : Stream snapshot_watcher)
      → ((send_created snapshot_watcher marshal callbacks resp ok made s).0.values ≡ s.values)
        × ((send_created snapshot_watcher marshal callbacks resp ok made s).0.state ≡ s.state)
  unfolding send_created
  send_created-keeps resp ok (uncreated e) s = (refl, refl)
  send_created-keeps resp ok (created out) s = observe-values _ _

  -- A round from `s` to `o`: it may touch neither the watches nor the cache, take a response out of
  -- its channel, replace the watch of the kind that a request asks for, return, or stick in a call of the cache.
  pub data Turn (e : Event snapshot_watcher) (vs : Watches Cancel) (w : World)
      (o : Outcome snapshot_watcher) : Type 0 where
    kept :
        (s' : Stream snapshot_watcher)
        → o ≡ running s'
        → s'.values ≡ vs
        → s'.state ≡ w
        → Turn e vs w o
    took :
        (k : Kind) (ok : Bool) (ch : ℕ) (resp : Response) (chs : Channels Response) (n : String)
        (s' : Stream snapshot_watcher)
        → e ≡ ready k ok
        → (slot k vs).channel ≡ some ch
        → receive ch w.channels ≡ some (resp, chs)
        → o ≡ running s'
        → s'.values ≡ put_slot k (record (slot k vs) { nonce = n }) vs
        → s'.state ≡ record w { channels = chs }
        → Turn e vs w o
    swapped :
        (k : Kind) (req : Request) (now : ℕ) (ch : ℕ) (f : Option Cancel) (w' : World)
        (s' : Stream snapshot_watcher)
        → kind_of req.type_url ≡ some k
        → create_watch req now (cancel_slot snapshot_watcher marshal callbacks (slot k vs).cancel w)
          ≡ some ((ch, f), w')
        → o ≡ running s'
        → s'.values ≡ put_slot k (record (slot k vs) { channel = some ch; cancel = f }) vs
        → s'.state ≡ w'
        → Turn e vs w o
    stopped :
        (status : Option Status) (s' : Stream snapshot_watcher)
        → o ≡ returned status s'
        → s'.values ≡ vs
        → s'.state ≡ w
        → Turn e vs w o
    dropped :
        (k : Kind) (ch : ℕ) (resp : Response) (chs : Channels Response) (status : Option Status)
        (s' : Stream snapshot_watcher)
        → (slot k vs).channel ≡ some ch
        → receive ch w.channels ≡ some (resp, chs)
        → o ≡ returned status s'
        → s'.values ≡ vs
        → s'.state ≡ record w { channels = chs }
        → Turn e vs w o
    stuck : o ≡ blocked → Turn e vs w o

  record_nonce-Turn :
      (k : Kind) (ok : Bool) (ch : ℕ) (resp : Response) (chs : Channels Response)
      (s : Stream snapshot_watcher) (r : Stream snapshot_watcher × Sent)
      → (slot k s.values).channel ≡ some ch
      → receive ch s.state.channels ≡ some (resp, chs)
      → r.0.values ≡ s.values
      → r.0.state ≡ record s.state { channels = chs }
      → Turn (ready k ok) s.values s.state (record_nonce snapshot_watcher marshal callbacks k r)
  unfolding record_nonce
  record_nonce-Turn k ok ch resp chs s (s', failed e) has got values state =
      dropped k ch resp chs (some e) s' has got refl values state
  record_nonce-Turn k ok ch resp chs s (s', nonce_of n) has got values state =
      took k ok ch resp chs n _ refl has got refl
        (ap (λ (vs : Watches Cancel). put_slot k (record (slot k vs) { nonce = n }) vs) values)
        state

  on_channel-Turn :
      (k : Kind) (ok : Bool) (ch : Option ℕ) (s : Stream snapshot_watcher)
      → (slot k s.values).channel ≡ ch
      → Turn (ready k ok) s.values s.state (on_channel snapshot_watcher marshal callbacks k ok ch s)
  unfolding on_channel on_received on_response send
  on_channel-Turn k ok none s has = kept s refl refl refl
  on_channel-Turn k ok (some ch) s has = elim (Option-cases (receive ch s.state.channels)) [
    | inl empty ↦ rw empty (kept s refl refl refl)
    | inr ((resp, chs), got) ↦
        let made = create_discovery_response marshal (some resp) (type_url_of k) in
        let w : World = record s.state { channels = chs } in
        let s' : Stream snapshot_watcher = record s { state = w } in
        let (values, state) = send_created-keeps resp ok made s' in
        rw got (
          record_nonce-Turn k ok ch resp chs s
            (send_created snapshot_watcher marshal callbacks resp ok made s') has got values state)
  ]

  renew-Turn :
      (e : Event snapshot_watcher) (k : Kind) (req : Request) (now : ℕ)
      (s : Stream snapshot_watcher)
      → kind_of req.type_url ≡ some k
      → Turn e s.values s.state (renew snapshot_watcher marshal callbacks k req now s)
  unfolding renew watch_created
  renew-Turn e k req now s known = elim (Bool-cases (nonce_matches (slot k s.values).nonce req)) [
    | inl fits ↦
        let w = cancel_slot snapshot_watcher marshal callbacks (slot k s.values).cancel s.state in
        elim (Option-cases (create_watch req now w)) [
          | inl never ↦ rw (fits, never) (stuck refl)
          | inr (((ch, c), w'), made) ↦
              rw (fits, made) (swapped k req now ch c w' _ known made refl refl refl)
        ]
    | inr stale ↦ rw stale (kept s refl refl refl)
  ]

  accepted-Turn :
      (e : Event snapshot_watcher) (asked : Option String) (req : Request) (now : ℕ)
      (s : Stream snapshot_watcher)
      → Turn e s.values s.state (accepted snapshot_watcher marshal callbacks asked req now s)
  unfolding accepted dispatch
  accepted-Turn e (some why) req now s = stopped (some (callback_error why)) s refl refl refl
  accepted-Turn e none req now s = elim (Option-cases (kind_of req.type_url)) [
    | inl unknown ↦ rw unknown (kept s refl refl refl)
    | inr (k, known) ↦ rw known (renew-Turn e k req now s known)
  ]

  on_request-Turn :
      (e : Event snapshot_watcher) (url : String) (req : Option Request) (now : ℕ)
      (s : Stream snapshot_watcher)
      → Turn e s.values s.state (on_request snapshot_watcher marshal callbacks url req now s)
  unfolding on_request typed
  on_request-Turn e url none now s = stopped _ s refl refl refl
  on_request-Turn e url (some req) now s = elim (Option-cases (with_type_url url req)) [
    | inl missing ↦ rw missing (stopped _ s refl refl refl)
    | inr (req', known) ↦
        let o = stream_request s.stream_id req' in
        let (values, state) = observe-values o s in
        let asked = asked_request snapshot_watcher marshal callbacks callbacks s.stream_id req' in
        rw known (
          rw (values, state) at
            (accepted-Turn e asked req' now (observe snapshot_watcher marshal callbacks o s)))
  ]

  on_closed-Turn :
      (e : Event snapshot_watcher) (k : Kind) (ch : Option ℕ) (s : Stream snapshot_watcher)
      → Turn e s.values s.state (on_closed snapshot_watcher marshal callbacks k ch s)
  unfolding on_closed
  on_closed-Turn e k none s = kept s refl refl refl
  on_closed-Turn e k (some ch) s = stopped _ s refl refl refl

  -- A round of a stream, if it is not the other goroutines that use the cache.
  pub handle-Turn :
      (url : String) (e : Event snapshot_watcher) (s : Stream snapshot_watcher)
      → is_own e ≡ true
      → Turn e s.values s.state (handle snapshot_watcher marshal callbacks url e s)
  unfolding handle
  handle-Turn url (ready k ok) s own = on_channel-Turn k ok (slot k s.values).channel s refl
  handle-Turn url (closed k) s own = on_closed-Turn (closed k) k (slot k s.values).channel s
  handle-Turn url (request req now) s own = on_request-Turn (request req now) url req now s
  handle-Turn url (meanwhile w) s own = absurd (ground arith)
  handle-Turn url hangup s own = stopped none s refl refl refl
