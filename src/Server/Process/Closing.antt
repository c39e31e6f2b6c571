-- ===== src/Server/Process/Closing.antt =====
-- What a stream leaves behind in the snapshot cache when it ends.
use bent.Cache.Simple.Canceling.{cancel_watch_keeps_none, cancel_watch_closes, watch_at}
use bent.Cache.Simple.{Cancel, World}
use bent.Cache.Resource.{Resource}
use bent.Shared.{ℕ, String, ◌≡◌, ap, ◌∙◌, subst, Option, none, some, List, [], ◌∷◌, ◌++◌, arith}
use bent.Server.{
  endpoints, clusters, routes, listeners, secrets, slot, Status, Watches, Kind, Callbacks,
}
use bent.Server.Watcher.{snapshot_watcher}
use bent.Server.Process.{
  blocked, running, returned, observe, process, cancel_slot, cancel_all, finish, Stream, Outcome,
  Event,
}

module _ (marshal : Resource → Option (List ℕ)) (callbacks : Option Callbacks) where
  cancel_slot_keeps :
      (f : Option Cancel) (d : Cancel) (w : World)
      → watch_at d w ≡ none
      → watch_at d (cancel_slot snapshot_watcher marshal callbacks f w) ≡ none
  unfolding cancel_slot
  cancel_slot_keeps none d w h = h
  cancel_slot_keeps (some f) d w h = cancel_watch_keeps_none f d w h

  cancel_slot_closes :
      (d : Cancel) (w : World)
      → watch_at d (cancel_slot snapshot_watcher marshal callbacks (some d) w) ≡ none
  unfolding cancel_slot
  cancel_slot_closes d w = cancel_watch_closes d w

  -- The cancel functions of a list, called in order.
  cancel_each : List (Option Cancel) → World → World
  cancel_each [] w = w
  cancel_each (f ∷ fs) w = cancel_each fs (cancel_slot snapshot_watcher marshal callbacks f w)

  cancel_each_keeps :
      (fs : List (Option Cancel)) (d : Cancel) (w : World)
      → watch_at d w ≡ none
      → watch_at d (cancel_each fs w) ≡ none
  unfolding cancel_each
  cancel_each_keeps [] d w h = h
  cancel_each_keeps (f ∷ fs) d w h =
      cancel_each_keeps fs d (cancel_slot snapshot_watcher marshal callbacks f w)
        (cancel_slot_keeps f d w h)

  cancel_each_closes :
      (before after : List (Option Cancel)) (d : Cancel) (w : World)
      → watch_at d (cancel_each (before ++ some d ∷ after) w) ≡ none
  unfolding cancel_each
  cancel_each_closes [] after d w =
      cancel_each_keeps after d (cancel_slot snapshot_watcher marshal callbacks (some d) w)
        (cancel_slot_closes d w)
  cancel_each_closes (f ∷ before) after d w =
      cancel_each_closes before after d (cancel_slot snapshot_watcher marshal callbacks f w)

  -- `Cancel` closes the watch of every kind.
  cancel_all_closes :
      (k : Kind) (ws : Watches Cancel) (d : Cancel) (w : World)
      → (slot k ws).cancel ≡ some d
      → watch_at d (cancel_all snapshot_watcher marshal callbacks ws w) ≡ none
  unfolding cancel_all cancel_each
  cancel_all_closes endpoints ws d w e = rw e (
      cancel_each_closes ([])
        (ws.clusters.cancel ∷ ws.routes.cancel ∷ ws.listeners.cancel ∷ ws.secrets.cancel ∷ []) d w)
  cancel_all_closes clusters ws d w e = rw e (
      cancel_each_closes (ws.endpoints.cancel ∷ [])
        (ws.routes.cancel ∷ ws.listeners.cancel ∷ ws.secrets.cancel ∷ []) d w)
  cancel_all_closes routes ws d w e = rw e (
      cancel_each_closes (ws.endpoints.cancel ∷ ws.clusters.cancel ∷ [])
        (ws.listeners.cancel ∷ ws.secrets.cancel ∷ []) d w)
  cancel_all_closes listeners ws d w e = rw e (
      cancel_each_closes (ws.endpoints.cancel ∷ ws.clusters.cancel ∷ ws.routes.cancel ∷ [])
        (ws.secrets.cancel ∷ []) d w)
  cancel_all_closes secrets ws d w e = rw e (
      cancel_each_closes
        (ws.endpoints.cancel ∷ ws.clusters.cancel ∷ ws.routes.cancel ∷ ws.listeners.cancel ∷ [])
        ([]) d w)

  finish_closes :
      (o : Outcome snapshot_watcher) (status : Option Status) (s : Stream snapshot_watcher)
      (k : Kind) (d : Cancel)
      → finish snapshot_watcher marshal callbacks o ≡ returned status s
      → (slot k s.values).cancel ≡ some d
      → watch_at d s.state ≡ none
  unfolding finish observe
  finish_closes (running s') status s k d e h = cc
  finish_closes blocked status s k d e h = cc
  finish_closes (returned status' s') status s k d e h =
      let values : s'.values ≡ s.values = ground arith in
      let state : cancel_all snapshot_watcher marshal callbacks s'.values s'.state ≡ s.state =
        ground arith in
      subst (λ (w : World). watch_at d w ≡ none) state
        (cancel_all_closes k s'.values d s'.state
          (ap (λ (ws : Watches Cancel). (slot k ws).cancel) values ∙ h))

  -- However a stream on the snapshot cache ends, no watch whose cancel function it holds is open
  -- in the cache afterwards.
  pub process_closes :
      (url : String) (count : ℕ) (w : World) (es : List (Event snapshot_watcher))
      (status : Option Status) (s : Stream snapshot_watcher) (k : Kind) (d : Cancel)
      → process snapshot_watcher marshal callbacks url count w es ≡ returned status s
      → (slot k s.values).cancel ≡ some d
      → watch_at d s.state ≡ none
  unfolding process
  process_closes url count w es status s k d e h = finish_closes _ status s k d e h
