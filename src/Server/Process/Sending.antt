-- ===== src/Server/Process/Sending.antt =====
-- What a stream sends to its client when the channel of a kind is ready.
use bent.Server.Slots.{slot-put_slot_same}
use bent.Cache.Simple.{Cancel, World, int64_mod}
use bent.Cache.Channels.{receive, Channels}
use bent.Envoy.{Any, DiscoveryResponse}
use bent.Cache.Status.{Response}
use bent.Server.Process.{
  observe, running, ready, record_nonce, send_created, send, on_response, Stream, on_received,
  on_channel, handle,
}
use bent.Server.{
  discovery_response, marshal_all, put_slot, Slot, stream_response, slot, sent, created,
  type_url_of, create_discovery_response, Output, Kind, Callbacks,
}
use bent.Cache.Resource.{Resource}
use bent.Server.Watcher.{snapshot_watcher}
use bent.Shared.{
  format_int64, ℕ, ◌+◌, ◌%◌, String, ◌≡◌, refl, ap, true, Option, some, List, [], ◌∷◌, ◌++◌,
}

module _ (marshal : Resource → Option (List ℕ)) (callbacks : Option Callbacks) where
  -- The last thing that the client has seen is a response of the kind.
  pub record HasSent (k : Kind) (resp : Response) (s s' : Stream snapshot_watcher) : Type 0 where
    pub out : DiscoveryResponse
    pub made : create_discovery_response marshal (some resp) (type_url_of k) ≡ created out
    pub before : List Output
    pub trace :
        s'.trace
        ≡ before
          ++ sent (record out { nonce = format_int64 ((s.stream_nonce + 1) % int64_mod) }) ∷ []
    pub nonce : (slot k s'.values).nonce ≡ format_int64 ((s.stream_nonce + 1) % int64_mod)

  -- The round of a kind whose channel holds a response sends it, if its resources can be marshalled.
  pub handle-HasSent :
      (url : String) (k : Kind) (ch : ℕ) (s : Stream snapshot_watcher) (resp : Response)
      (chs : Channels Response) (out : DiscoveryResponse)
      → (slot k s.values).channel ≡ some ch
      → receive ch s.state.channels ≡ some (resp, chs)
      → create_discovery_response marshal (some resp) (type_url_of k) ≡ created out
      → (s' : Stream snapshot_watcher) × (handle snapshot_watcher marshal callbacks url
            (ready k true)
            s
          ≡ running s')
        × HasSent k resp s s'
  unfolding handle on_channel on_received on_response send send_created record_nonce
  handle-HasSent url k ch s resp chs out has got made =
      let w : World = record s.state { channels = chs } in
      let n = (s.stream_nonce + 1) % int64_mod in
      let out' : DiscoveryResponse = record out { nonce = format_int64 n } in
      let s1 =
        observe snapshot_watcher marshal callbacks (stream_response s.stream_id resp.request out')
          (record s { state = w; stream_nonce = n }) in
      let named : Slot Cancel = record (slot k s1.values) { nonce = format_int64 n } in
      let s2 : Stream snapshot_watcher = record s1 {
        trace = s1.trace ++ sent out' ∷ [];
        values = put_slot k named s1.values;
      } in
      (
        s2,
        rw (has, got, made) refl,
        record {
          out = out;
          made = made;
          before = s1.trace;
          trace = refl;
          nonce = ap (λ (u : Slot Cancel). u.nonce) (slot-put_slot_same k named s1.values);
        },
      )

marshal_all_returns :
    (marshal : Resource → Option (List ℕ)) (type_url : String) (rs : List Resource)
    → ((r : Resource) → (bytes : List ℕ) × (marshal r ≡ some bytes))
    → (anys : List Any) × (marshal_all marshal type_url rs ≡ some anys)
unfolding marshal_all
marshal_all_returns marshal type_url [] total = ([], refl)
marshal_all_returns marshal type_url (r ∷ rs) total =
    let (bytes, wrote) = total r in
    let (anys, rest) = marshal_all_returns marshal type_url rs total in
    (record { type_url = type_url; value = bytes } ∷ anys, rw (wrote, rest) refl)

-- If each resource can be marshalled, so can each response.
pub create_discovery_response_returns :
    (marshal : Resource → Option (List ℕ)) (type_url : String) (resp : Response)
    → ((r : Resource) → (bytes : List ℕ) × (marshal r ≡ some bytes))
    → (out : DiscoveryResponse) × (create_discovery_response marshal (some resp) type_url
        ≡ created out)
unfolding create_discovery_response discovery_response
create_discovery_response_returns marshal type_url resp total =
    let (anys, all) = marshal_all_returns marshal type_url resp.resources total in
    (
      record { version_info = resp.version; resources = anys; type_url = type_url; nonce = "" },
      rw all refl,
    )
