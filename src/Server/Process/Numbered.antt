-- ===== src/Server/Process/Numbered.antt =====
-- The numbers of the responses, and how the closure `send` counts them.
use mathlib.Core.List.{append-nil}
use bent.Cache.Simple.{int64_mod}
use bent.Cache.Status.{Response}
use bent.Server.Process.{
  failed, nonce_of, Sent, send, on_received, blocked, returned, send_created, observe, on_response,
  record_nonce, on_channel, running, Stream, Outcome,
}
use bent.Cache.Resource.{Resource}
use bent.Server.{
  created, fetch_response, type_url_of, uncreated, fetch_request, create_discovery_response,
  Created, stream_closed, stream_response, Kind, stream_request, stream_open, Callbacks, sent,
  ConfigWatcher, Output,
}
use bent.Shared.{
  Bool-cases, Option-cases, is_some, format_int64, ℕ, zero, suc, ◌+◌, ◌%◌, ◌≤◌, ◌<◌, String, ◌≡◌,
  refl, ap, inl, inr, Bool, Option, none, some, List, [], ◌∷◌, ◌++◌, arith,
}

-- The nonces of the responses sent, oldest first.
abbrev pub sent_nonces : List Output → List String
sent_nonces [] = []
sent_nonces (sent r ∷ os) = r.nonce ∷ sent_nonces os
sent_nonces (stream_open id url ∷ os) = sent_nonces os
sent_nonces (stream_request id req ∷ os) = sent_nonces os
sent_nonces (stream_response id req r ∷ os) = sent_nonces os
sent_nonces (stream_closed id ∷ os) = sent_nonces os
sent_nonces (fetch_request req ∷ os) = sent_nonces os
sent_nonces (fetch_response req r ∷ os) = sent_nonces os

-- The numbers 1, 2, … n as the stream prints them.
abbrev pub numbered : ℕ → List String
numbered zero = []
numbered (suc n) = numbered n ++ format_int64 (suc n) ∷ []

sent_nonces-append :
    (xs ys : List Output) → sent_nonces (xs ++ ys) ≡ sent_nonces xs ++ sent_nonces ys
sent_nonces-append [] ys = refl
sent_nonces-append (sent r ∷ xs) ys = ap (λ t. r.nonce ∷ t) (sent_nonces-append xs ys)
sent_nonces-append (stream_open id url ∷ xs) ys = sent_nonces-append xs ys
sent_nonces-append (stream_request id req ∷ xs) ys = sent_nonces-append xs ys
sent_nonces-append (stream_response id req r ∷ xs) ys = sent_nonces-append xs ys
sent_nonces-append (stream_closed id ∷ xs) ys = sent_nonces-append xs ys
sent_nonces-append (fetch_request req ∷ xs) ys = sent_nonces-append xs ys
sent_nonces-append (fetch_response req r ∷ xs) ys = sent_nonces-append xs ys

module _ {c : ConfigWatcher} where
  -- The counter is the number of responses sent, and they are numbered from 1.
  abbrev pub IsNumbered : Stream c → Type 0
  IsNumbered s = sent_nonces s.trace ≡ numbered s.stream_nonce

  -- The stream of an outcome is numbered, with at most `n` responses.
  abbrev pub NumberedTo : ℕ → Outcome c → Type 0
  NumberedTo n (running s) = IsNumbered s × (s.stream_nonce ≤ n)
  NumberedTo n (returned status s) = IsNumbered s × (s.stream_nonce ≤ n)
  NumberedTo n blocked = Unit

module _ (c : ConfigWatcher) (marshal : Resource → Option (List ℕ))
    (callbacks : Option Callbacks) where
  pub observe-IsNumbered :
      (o : Output) (s : Stream c)
      → sent_nonces (o ∷ []) ≡ []
      → IsNumbered s
      → IsNumbered (observe c marshal callbacks o s)
        × ((observe c marshal callbacks o s).stream_nonce ≡ s.stream_nonce)
  unfolding observe
  observe-IsNumbered o s quiet v = elim (Bool-cases (is_some callbacks)) [
    | inl on ↦ rw on (rw (sent_nonces-append, quiet, append-nil) v, refl)
    | inr off ↦ rw off (v, refl)
  ]

  -- A response that was created takes the next number.
  send_created-IsNumbered :
      (resp : Response) (ok : Bool) (made : Created) (s : Stream c)
      → s.stream_nonce + 1 < int64_mod
      → IsNumbered s
      → IsNumbered (send_created c marshal callbacks resp ok made s).0
        × ((send_created c marshal callbacks resp ok made s).0.stream_nonce ≤ s.stream_nonce + 1)
  unfolding send_created observe
  send_created-IsNumbered resp ok (uncreated e) s h v = (v, omega arith)
  send_created-IsNumbered resp ok (created out) s h v =
      let next : (s.stream_nonce + 1) % int64_mod ≡ suc s.stream_nonce = omega arith in
      elim (Bool-cases (is_some callbacks)) [
        | inl on ↦
            rw (on, next, sent_nonces-append, sent_nonces-append, append-nil, v) (refl, omega arith)
        | inr off ↦ rw (off, next, sent_nonces-append, v) (refl, omega arith)
      ]

  record_nonce-NumberedTo :
      (k : Kind) (r : Stream c × Sent) (n : ℕ)
      → IsNumbered r.0
      → r.0.stream_nonce ≤ n
      → NumberedTo n (record_nonce c marshal callbacks k r)
  unfolding record_nonce
  record_nonce-NumberedTo k (s, nonce_of x) n v h = (v, h)
  record_nonce-NumberedTo k (s, failed e) n v h = (v, h)

  on_response-NumberedTo :
      (k : Kind) (ok : Bool) (resp : Response) (s : Stream c) (n : ℕ)
      → n + 1 < int64_mod
      → NumberedTo n (running s)
      → NumberedTo (n + 1) (on_response c marshal callbacks k ok resp s)
  unfolding on_response send
  on_response-NumberedTo k ok resp s n h (v, le) =
      let made = create_discovery_response marshal (some resp) (type_url_of k) in
      let (v', le') = send_created-IsNumbered resp ok made s (omega arith) v in
      record_nonce-NumberedTo k (send_created c marshal callbacks resp ok made s) (n + 1) v'
        (omega arith)

  pub on_channel-NumberedTo :
      (k : Kind) (ok : Bool) (ch : Option ℕ) (s : Stream c) (n : ℕ)
      → n + 1 < int64_mod
      → NumberedTo n (running s)
      → NumberedTo (n + 1) (on_channel c marshal callbacks k ok ch s)
  unfolding on_channel on_received
  on_channel-NumberedTo k ok none s n h (v, le) = (v, omega arith)
  on_channel-NumberedTo k ok (some ch) s n h (v, le) = elim (Option-cases (c.receive ch s.state)) [
    | inl empty ↦ rw empty (v, omega arith)
    | inr ((resp, state), got) ↦
        rw got (on_response-NumberedTo k ok resp (record s { state = state }) n h (v, le))
  ]
