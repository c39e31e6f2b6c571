-- ===== src/Server/Process/Nonces.antt =====
-- The nonces of a stream.
use bent.Server.Process.Numbered.{observe-IsNumbered, on_channel-NumberedTo, NumberedTo}
use bent.Cache.Status.{Request}
use bent.Cache.Simple.{int64_mod}
use bent.Cache.Resource.{Resource}
use native.Mathlib.Nat.{add-zero, zero-add}
use bent.Shared.{
  Bool-cases, Option-cases, length, ℕ, ◌+◌, ◌%◌, ◌<◌, String, refl, subst, inl, inr, Option, none,
  some, List, [], ◌∷◌, arith,
}
use bent.Server.{
  no_watches, kind_of, Kind, slot, stream_closed, stream_request, stream_open, Callbacks,
  ConfigWatcher,
}
use bent.Server.Process.{
  asked_request, asked_open, with_type_url, cancel_all, opened, dispatch, cancel_slot, typed, start,
  on_request, on_closed, accepted, loop, finish, nonce_matches, process, hangup, watch_created,
  observe, renew, meanwhile, request, closed, ready, blocked, handle, returned, running, Stream,
  Outcome, Event,
}

module _ (c : ConfigWatcher) (marshal : Resource → Option (List ℕ))
    (callbacks : Option Callbacks) where
  watch_created-NumberedTo :
      (k : Kind) (r : Option ((ℕ × Option c.Canceler) × c.State)) (s : Stream c) (n : ℕ)
      → NumberedTo n (running s)
      → NumberedTo n (watch_created c marshal callbacks k r s)
  unfolding watch_created
  watch_created-NumberedTo k none s n v = tt
  watch_created-NumberedTo k (some ((ch, f), state)) s n v = v

  renew-NumberedTo :
      (k : Kind) (req : Request) (now : ℕ) (s : Stream c) (n : ℕ)
      → NumberedTo n (running s)
      → NumberedTo n (renew c marshal callbacks k req now s)
  unfolding renew
  renew-NumberedTo k req now s n v = elim (Bool-cases (nonce_matches (slot k s.values).nonce req)) [
    | inl fits ↦ rw fits (
        watch_created-NumberedTo k
          (c.create_watch req now
            (cancel_slot c marshal callbacks (slot k s.values).cancel s.state))
          s n v)
    | inr stale ↦ rw stale v
  ]

  accepted-NumberedTo :
      (asked : Option String) (req : Request) (now : ℕ) (s : Stream c) (n : ℕ)
      → NumberedTo n (running s)
      → NumberedTo n (accepted c marshal callbacks asked req now s)
  unfolding accepted dispatch
  accepted-NumberedTo (some e) req now s n v = v
  accepted-NumberedTo none req now s n v = elim (Option-cases (kind_of req.type_url)) [
    | inl unknown ↦ rw unknown v
    | inr (k, known) ↦ rw known (renew-NumberedTo k req now s n v)
  ]

  on_request-NumberedTo :
      (url : String) (req : Option Request) (now : ℕ) (s : Stream c) (n : ℕ)
      → NumberedTo n (running s)
      → NumberedTo n (on_request c marshal callbacks url req now s)
  unfolding on_request typed
  on_request-NumberedTo url none now s n v = v
  on_request-NumberedTo url (some req) now s n v = elim (Option-cases (with_type_url url req)) [
    | inl missing ↦ rw missing v
    | inr (req', known) ↦
        let (v', e) =
          observe-IsNumbered c marshal callbacks (stream_request s.stream_id req') s refl v.0 in
        rw known (
          accepted-NumberedTo (asked_request c marshal callbacks callbacks s.stream_id req') req'
            now (observe c marshal callbacks (stream_request s.stream_id req') s) n
            (v', omega (arith, e, v.1)))
  ]

  on_closed-NumberedTo :
      (k : Kind) (ch : Option ℕ) (s : Stream c) (n : ℕ)
      → NumberedTo n (running s)
      → NumberedTo n (on_closed c marshal callbacks k ch s)
  unfolding on_closed
  on_closed-NumberedTo k none s n v = v
  on_closed-NumberedTo k (some ch) s n v = v

  NumberedTo-suc : (n : ℕ) (o : Outcome c) → NumberedTo n o → NumberedTo (n + 1) o
  NumberedTo-suc n (running s) (v, le) = (v, omega arith)
  NumberedTo-suc n (returned status s) (v, le) = (v, omega arith)
  NumberedTo-suc n blocked v = tt

  handle-NumberedTo :
      (url : String) (e : Event c) (s : Stream c) (n : ℕ)
      → n + 1 < int64_mod
      → NumberedTo n (running s)
      → NumberedTo (n + 1) (handle c marshal callbacks url e s)
  unfolding handle
  handle-NumberedTo url (ready k ok) s n h v =
      on_channel-NumberedTo c marshal callbacks k ok (slot k s.values).channel s n h v
  handle-NumberedTo url (closed k) s n h v =
      NumberedTo-suc n _ (on_closed-NumberedTo k (slot k s.values).channel s n v)
  handle-NumberedTo url (request req now) s n h v =
      NumberedTo-suc n _ (on_request-NumberedTo url req now s n v)
  handle-NumberedTo url (meanwhile state) s n h v = (v.0, omega (arith, v.1))
  handle-NumberedTo url hangup s n h v = (v.0, omega (arith, v.1))

  loop-NumberedTo :
      (url : String) (es : List (Event c)) (o : Outcome c) (n : ℕ)
      → n + length es < int64_mod
      → NumberedTo n o
      → NumberedTo (n + length es) (loop c marshal callbacks url es o)
  unfolding loop
  loop-NumberedTo url [] o n h v = rw add-zero v
  loop-NumberedTo url (e ∷ es) (running s) n h v =
      let ih =
        loop-NumberedTo url es (handle c marshal callbacks url e s) (n + 1) (omega arith)
          (handle-NumberedTo url e s n (omega arith) v) in
      subst
        (λ k. NumberedTo k (loop c marshal callbacks url es (handle c marshal callbacks url e s)))
        (omega arith) ih
  loop-NumberedTo url (e ∷ es) (returned status s) n h v = (v.0, omega (arith, v.1))
  loop-NumberedTo url (e ∷ es) blocked n h v = tt

  finish-NumberedTo :
      (n : ℕ) (o : Outcome c) → NumberedTo n o → NumberedTo n (finish c marshal callbacks o)
  unfolding finish
  finish-NumberedTo n (running s) v = v
  finish-NumberedTo n (returned status s) (v, le) =
      let (v', e) =
        observe-IsNumbered c marshal callbacks (stream_closed s.stream_id)
          (record s { state = cancel_all c marshal callbacks s.values s.state }) refl v in
      (v', omega (arith, e))
  finish-NumberedTo n blocked v = v

  start-NumberedTo :
      (url : String) (count : ℕ) (state : c.State)
      → NumberedTo 0 (start c marshal callbacks url count state)
  unfolding start opened
  start-NumberedTo url count state =
      let id = (count + 1) % int64_mod in
      let s : Stream c = record {
        state = state;
        stream_id = id;
        stream_nonce = 0;
        values = no_watches;
        trace = [];
      } in
      let (v, e) = observe-IsNumbered c marshal callbacks (stream_open id url) s refl refl in
      elim (Option-cases (asked_open c marshal callbacks callbacks id url)) [
        | inl fine ↦ rw fine (v, omega (arith, e))
        | inr (why, refused) ↦ rw refused (v, omega (arith, e))
      ]

  -- The responses of a stream carry the nonces 1, 2, 3 … in the order in which they are sent, without
  -- a gap or a repetition, whatever the events and however the stream ends, as long as the events
  -- are fewer than 2 ^ 64.
  pub process-NumberedTo :
      (url : String) (count : ℕ) (state : c.State) (es : List (Event c))
      → length es < int64_mod
      → NumberedTo (length es) (process c marshal callbacks url count state es)
  unfolding process
  process-NumberedTo url count state es h = finish-NumberedTo (length es) _ (
      subst
        (λ n.
          NumberedTo n
            (loop c marshal callbacks url es (start c marshal callbacks url count state)))
        (zero-add (length es))
        (loop-NumberedTo url es (start c marshal callbacks url count state) 0 (omega arith)
          (start-NumberedTo url count state)))
