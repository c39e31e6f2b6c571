-- ===== src/Server/Process/Requests.antt =====
-- What a stream does with a request, and what it leaves behind.
use bent.Cache.Status.{Request}
use bent.Cache.Resource.{Resource}
use bent.Shared.{
  ==_iff, Bool-cases, Option-cases, ℕ, String, ◌≡◌, refl, ap, ◌∙◌, ◌≢◌, ◌⊎◌, inl, inr, true, false,
  Option, none, some, List, arith, string_key, nat_key,
}
use bent.Server.{
  stream_request, Output, secrets, listeners, put_slot, routes, clusters, slot, Slot, endpoints,
  type_url_of, Kind, Callbacks, kind_of, ConfigWatcher,
}
use bent.Server.Slots.{slot-put_slot, slot-put_slot_same}
use bent.Server.Process.{
  request, asked_request, observe, with_type_url, dispatch, accepted, running, typed, nonce_matches,
  cancel_slot, watch_created, on_request, handle, renew, Stream,
}

-- The five type URLs are told apart.
pub kind_of-type_url_of : (k : Kind) → kind_of (type_url_of k) ≡ some k
unfolding kind_of
kind_of-type_url_of endpoints = refl
kind_of-type_url_of clusters = refl
kind_of-type_url_of routes = refl
kind_of-type_url_of listeners = refl
kind_of-type_url_of secrets = refl

module _ (c : ConfigWatcher) (marshal : Resource → Option (List ℕ))
    (callbacks : Option Callbacks) where
  -- The stream and the cache after a watch of the kind `k` was renewed.
  pub record IsPut (k : Kind) (req : Request) (now : ℕ) (s s' : Stream c) : Type 0 where
    pub channel : ℕ
    pub cancel : Option c.Canceler
    pub made :
        c.create_watch req now (cancel_slot c marshal callbacks (slot k s.values).cancel s.state)
        ≡ some ((channel, cancel), s'.state)
    pub values :
        s'.values
        ≡ put_slot k
            (record { channel = some channel; cancel = cancel; nonce = (slot k s.values).nonce })
            s.values
    pub trace : s'.trace ≡ s.trace
    pub stream_nonce : s'.stream_nonce ≡ s.stream_nonce

  renew-IsPut :
      (k : Kind) (req : Request) (now : ℕ) (s s' : Stream c)
      → nonce_matches (slot k s.values).nonce req ≡ true
      → renew c marshal callbacks k req now s ≡ running s'
      → IsPut k req now s s'
  unfolding renew watch_created
  renew-IsPut k req now s s' fits e =
      elim (Option-cases (
        c.create_watch req now
          (cancel_slot c marshal callbacks (slot k s.values).cancel s.state))) [
            | inl stuck ↦ absurd (ground (arith, fits, stuck))
            | inr (((ch, f), state), got) ↦ record {
              channel = ch;
              cancel = f;
              made = got ∙ ground (arith, fits, got);
              values = ground (arith, fits, got);
              trace = ground (arith, fits, got);
              stream_nonce = ground (arith, fits, got);
            }
          ]

  renew_stale :
      (k : Kind) (req : Request) (now : ℕ) (s s' : Stream c)
      → nonce_matches (slot k s.values).nonce req ≡ false
      → renew c marshal callbacks k req now s ≡ running s'
      → s' ≡ s
  unfolding renew
  renew_stale k req now s s' stale e = ground (arith, stale)

  observe-values : (o : Output) (s : Stream c) → (observe c marshal callbacks o s).values ≡ s.values
  unfolding observe
  observe-values o s = ground arith

  pub handle_renews :
      (url : String) (req req' : Request) (k : Kind) (now : ℕ) (s s' : Stream c)
      → with_type_url url req ≡ some req'
      → kind_of req'.type_url ≡ some k
      → asked_request c marshal callbacks callbacks s.stream_id req' ≡ none
      → handle c marshal callbacks url (request (some req) now) s ≡ running s'
      → let seen = observe c marshal callbacks (stream_request s.stream_id req') s in
        ((nonce_matches (slot k s.values).nonce req' ≡ false) × (s' ≡ seen))
        ⊎ ((nonce_matches (slot k s.values).nonce req' ≡ true) × IsPut k req' now seen s')
  unfolding handle on_request typed accepted dispatch
  handle_renews url req req' k now s s' typed known fine e =
      let seen = observe c marshal callbacks (stream_request s.stream_id req') s in
      let same = observe-values (stream_request s.stream_id req') s in
      let e' : renew c marshal callbacks k req' now seen ≡ running s' =
        rw (typed, fine, known) at e in
      elim (Bool-cases (nonce_matches (slot k s.values).nonce req')) [
        | inl fits ↦ inr (fits, renew-IsPut k req' now seen s' (rw same fits) e')
        | inr stale ↦ inl (stale, renew_stale k req' now seen s' (rw same stale) e')
      ]

  -- The cache after the watch of a slot, if it has one, was cancelled.
  abbrev pub state_without : Option c.Canceler → c.State → c.State
  state_without none state = state
  state_without (some f) state = c.cancel f state

  -- The new watch of the kind `k` is made when the old one is cancelled; the other kinds keep theirs.
  pub record IsRenewed (k : Kind) (req : Request) (now : ℕ) (s s' : Stream c) : Type 0 where
    pub channel : ℕ
    pub cancel : Option c.Canceler
    pub made :
        c.create_watch req now (state_without (slot k s.values).cancel s.state)
        ≡ some ((channel, cancel), s'.state)
    pub has_channel : (slot k s'.values).channel ≡ some channel
    pub has_cancel : (slot k s'.values).cancel ≡ cancel
    pub keeps_nonce : (slot k s'.values).nonce ≡ (slot k s.values).nonce
    pub others : (j : Kind) → (j ≡ k) ⊎ (slot j s'.values ≡ slot j s.values)
    pub trace : s'.trace ≡ s.trace
    pub stream_nonce : s'.stream_nonce ≡ s.stream_nonce

  cancel_slot-state_without :
      (f : Option c.Canceler) (state : c.State)
      → cancel_slot c marshal callbacks f state ≡ state_without f state
  unfolding cancel_slot
  cancel_slot-state_without none state = refl
  cancel_slot-state_without (some f) state = refl

  IsPut-IsRenewed :
      (k : Kind) (req : Request) (now : ℕ) (s s' : Stream c)
      → IsPut k req now s s'
      → IsRenewed k req now s s'
  IsPut-IsRenewed k req now s s' r =
      let new : Slot c.Canceler = record {
        channel = some r.channel;
        cancel = r.cancel;
        nonce = (slot k s.values).nonce;
      } in
      let here : slot k s'.values ≡ new =
        ap (slot k) r.values ∙ slot-put_slot_same k new s.values in
      record {
        channel = r.channel;
        cancel = r.cancel;
        made = rw (cancel_slot-state_without (slot k s.values).cancel s.state) at r.made;
        has_channel = ap (λ (t : Slot c.Canceler). t.channel) here;
        has_cancel = ap (λ (t : Slot c.Canceler). t.cancel) here;
        keeps_nonce = ap (λ (t : Slot c.Canceler). t.nonce) here;
        others = λ j. elim (slot-put_slot j k new s.values) [
          | inl same ↦ inl same
          | inr kept ↦ inr (ap (slot j) r.values ∙ kept)
        ];
        trace = r.trace;
        stream_nonce = r.stream_nonce;
      }

  -- A request of a known type URL that the callback does not refuse is either stale: a response of
  -- its kind was sent, and the request carries another nonce than the last; then the stream is as
  -- before but for the record of the callback. Or no response of the kind was sent yet, or the
  -- request carries the last nonce; then the watch of the kind is cancelled in the cache and the new
  -- one made in its place, and the other kinds keep theirs.
  pub handle_request :
      (url : String) (req req' : Request) (k : Kind) (now : ℕ) (s s' : Stream c)
      → with_type_url url req ≡ some req'
      → kind_of req'.type_url ≡ some k
      → asked_request c marshal callbacks callbacks s.stream_id req' ≡ none
      → handle c marshal callbacks url (request (some req) now) s ≡ running s'
      → let seen = observe c marshal callbacks (stream_request s.stream_id req') s in
        let last = (slot k s.values).nonce in
        ((last ≢ "") × (last ≢ req'.response_nonce) × (s' ≡ seen))
        ⊎ (((last ≡ "") ⊎ (last ≡ req'.response_nonce)) × IsRenewed k req' now seen s')
  unfolding nonce_matches
  handle_request url req req' k now s s' typed known fine e =
      let seen = observe c marshal callbacks (stream_request s.stream_id req') s in
      let last = (slot k s.values).nonce in
      let empty = ==_iff last "" in
      let same = ==_iff last req'.response_nonce in
      elim (handle_renews url req req' k now s s' typed known fine e) [
        | inl (stale, kept) ↦ inl (ground (arith, stale, empty), ground (arith, stale, same), kept)
        | inr (fresh, r) ↦
            inr (ground (arith, fresh, empty, same), IsPut-IsRenewed k req' now seen s' r)
      ]
