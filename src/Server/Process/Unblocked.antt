-- ===== src/Server/Process/Unblocked.antt =====
-- A stream on the snapshot cache is never stuck in a call of it.
use bent.Cache.Status.{Request}
use bent.Server.Process.Kept.{start-Holds, loop-Holds, Holds, IsKept, AllHold, finish-Holds}
use bent.Cache.Simple.Sound.{receive-IsSound, create_watch_returns, cancel_watch-IsSound, IsSound}
use bent.Cache.Simple.{Cancel, World}
use bent.Server.{put_slot, stream_request, slot, kind_of, Kind, Callbacks}
use bent.Server.Watcher.{snapshot_watcher}
use bent.Cache.Resource.{Resource}
use bent.Server.Process.{
  observe, request, running, asked_request, nonce_matches, with_type_url, dispatch, Stream,
  accepted, typed, on_request, watch_created, handle, cancel_slot, renew, process, start, Outcome,
  Event,
}
use bent.Server.Process.Turns.{observe-values}
use bent.Shared.{ℕ, String, ◌≡◌, refl, true, Option, none, some, List}

abbrev pub IsUnblocked : Outcome snapshot_watcher → Type 0
IsUnblocked o = Holds IsSound o

abbrev pub AllSound : List (Event snapshot_watcher) → Type 0
AllSound es = AllHold IsSound es

pub IsSound-IsKept : IsKept IsSound
IsSound-IsKept = record {
  cancels = λ f w v. cancel_watch-IsSound f v;
  creates = λ req now w v. create_watch_returns req now w v;
  receives = λ ch w resp chs v got. receive-IsSound ch v got;
}

module _ (marshal : Resource → Option (List ℕ)) (callbacks : Option Callbacks) where
  -- A stream on a sound snapshot cache is never stuck in a call of the cache, whatever the events,
  -- and however it ends it leaves the cache sound, if the other goroutines leave it sound each
  -- time that they have used it.
  pub process-IsUnblocked :
      (url : String) (count : ℕ) (w : World) (es : List (Event snapshot_watcher))
      → IsSound w
      → AllSound es
      → IsUnblocked (process snapshot_watcher marshal callbacks url count w es)
  unfolding process
  process-IsUnblocked url count w es v h = finish-Holds IsSound IsSound-IsKept marshal callbacks _ (
      loop-Holds IsSound IsSound-IsKept marshal callbacks url es
        (start snapshot_watcher marshal callbacks url count w) h
        (start-Holds IsSound IsSound-IsKept marshal callbacks url count w v))

  cancel_slot-IsSound :
      (f : Option Cancel) (w : World)
      → IsSound w
      → IsSound (cancel_slot snapshot_watcher marshal callbacks f w)
  unfolding cancel_slot
  cancel_slot-IsSound none w v = v
  cancel_slot-IsSound (some f) w v = cancel_watch-IsSound f v

  renew_runs :
      (k : Kind) (req : Request) (now : ℕ) (s : Stream snapshot_watcher)
      → IsSound s.state
      → nonce_matches (slot k s.values).nonce req ≡ true
      → (s' : Stream snapshot_watcher) × (renew snapshot_watcher marshal callbacks k req now s
          ≡ running s')
  unfolding renew watch_created
  renew_runs k req now s v fits =
      let old = (slot k s.values).cancel in
      let w = cancel_slot snapshot_watcher marshal callbacks old s.state in
      let (r, w', e, v') = create_watch_returns req now w (cancel_slot-IsSound old s.state v) in
      (
        record s {
          state = w';
          values =
              put_slot k (record (slot k s.values) { channel = some r.0; cancel = r.1 }) s.values;
        },
        rw (fits, e) refl,
      )

  -- A request that the callbacks accept and whose nonce is not stale leaves the stream running.
  pub handle_runs :
      (url : String) (req req' : Request) (k : Kind) (now : ℕ) (s : Stream snapshot_watcher)
      → IsSound s.state
      → with_type_url url req ≡ some req'
      → kind_of req'.type_url ≡ some k
      → asked_request snapshot_watcher marshal callbacks callbacks s.stream_id req' ≡ none
      → nonce_matches (slot k s.values).nonce req' ≡ true
      → (s' : Stream snapshot_watcher) × (handle snapshot_watcher marshal callbacks url
            (request (some req) now)
            s
          ≡ running s')
  unfolding handle on_request typed accepted dispatch
  handle_runs url req req' k now s v typed known fine fits =
      let o = stream_request s.stream_id req' in
      let seen = observe snapshot_watcher marshal callbacks o s in
      let (values, state) = observe-values marshal callbacks o s in
      let (s', e) = renew_runs k req' now seen (rw state v) (rw values fits) in
      (s', rw (typed, fine, known) e)
