-- ===== src/Server/Process/Cancels.antt =====
-- What a stream does to the cache by the cancel functions that it holds.
use bent.Server.Process.Guarded.{fresh}
use bent.Server.Process.Turns.{observe-values}
use bent.Cache.Simple.Canceling.{cancel_watch-counters}
use bent.Cache.Simple.Awaited.{Awaits-cancel_watch, Awaits, is_clear}
use bent.Cache.Simple.{int64_mod, World, Cancel}
use bent.Server.Process.{
  asked_open, observe, running, opened, start, returned, Stream, finish, cancel_slot, cancel_all,
}
use bent.Server.{
  callback_error, stream_open, no_watches, stream_closed, Status, endpoints, clusters, routes,
  listeners, secrets, slot, Kind, Watches, Callbacks,
}
use bent.Cache.Resource.{Resource}
use bent.Server.Watcher.{snapshot_watcher}
use bent.Shared.{
  Option-cases, ℕ, ◌+◌, ◌%◌, String, ◌≡◌, refl, ◌∙◌, ◌⊎◌, inl, inr, true, Option, none, some, List,
}

module _ (marshal : Resource → Option (List ℕ)) (callbacks : Option Callbacks) where
  pub cancel_slot-counters :
      (f : Option Cancel) (w : World)
      → ((cancel_slot snapshot_watcher marshal callbacks f w).channels ≡ w.channels)
        × ((cancel_slot snapshot_watcher marshal callbacks f w).watch_count ≡ w.watch_count)
        × ((cancel_slot snapshot_watcher marshal callbacks f w).ads ≡ w.ads)
  unfolding cancel_slot
  cancel_slot-counters none w = (refl, refl, refl)
  cancel_slot-counters (some f) w = cancel_watch-counters f w

  pub cancel_all-counters :
      (ws : Watches Cancel) (w : World)
      → ((cancel_all snapshot_watcher marshal callbacks ws w).channels ≡ w.channels)
        × ((cancel_all snapshot_watcher marshal callbacks ws w).watch_count ≡ w.watch_count)
        × ((cancel_all snapshot_watcher marshal callbacks ws w).ads ≡ w.ads)
  unfolding cancel_all
  cancel_all-counters ws w =
      let call = cancel_slot snapshot_watcher marshal callbacks in
      let w1 = call ws.endpoints.cancel w in
      let w2 = call ws.clusters.cancel w1 in
      let w3 = call ws.routes.cancel w2 in
      let w4 = call ws.listeners.cancel w3 in
      let e1 = cancel_slot-counters ws.endpoints.cancel w in
      let e2 = cancel_slot-counters ws.clusters.cancel w1 in
      let e3 = cancel_slot-counters ws.routes.cancel w2 in
      let e4 = cancel_slot-counters ws.listeners.cancel w3 in
      let e5 = cancel_slot-counters ws.secrets.cancel w4 in
      (
        e5.0 ∙ e4.0 ∙ e3.0 ∙ e2.0 ∙ e1.0,
        e5.1 ∙ e4.1 ∙ e3.1 ∙ e2.1 ∙ e1.1,
        e5.2 ∙ e4.2 ∙ e3.2 ∙ e2.2 ∙ e1.2,
      )

  -- No slot has the cancel function.
  abbrev pub AllClear : Option Cancel → Watches Cancel → Type 0
  AllClear f ws = (k : Kind) → is_clear f (slot k ws).cancel ≡ true

  pub Awaits-cancel_slot :
      (ch : ℕ) (f g : Option Cancel) (w : World)
      → is_clear f g ≡ true
      → Awaits ch f w
      → Awaits ch f (cancel_slot snapshot_watcher marshal callbacks g w)
  unfolding cancel_slot
  Awaits-cancel_slot ch f none w clear a = a
  Awaits-cancel_slot ch f (some c) w clear a = Awaits-cancel_watch ch c f w clear a

  pub Awaits-cancel_all :
      (ch : ℕ) (f : Option Cancel) (ws : Watches Cancel) (w : World)
      → AllClear f ws
      → Awaits ch f w
      → Awaits ch f (cancel_all snapshot_watcher marshal callbacks ws w)
  unfolding cancel_all
  Awaits-cancel_all ch f ws w clear a =
      Awaits-cancel_slot ch f ws.secrets.cancel _ (clear secrets) (
        Awaits-cancel_slot ch f ws.listeners.cancel _ (clear listeners) (
          Awaits-cancel_slot ch f ws.routes.cancel _ (clear routes) (
            Awaits-cancel_slot ch f ws.clusters.cancel _ (clear clusters)
              (Awaits-cancel_slot ch f ws.endpoints.cancel w (clear endpoints) a))))

  -- A stream that has returned has called all its cancel functions.
  pub finish-returned :
      (status : Option Status) (s : Stream snapshot_watcher)
      → (s' : Stream snapshot_watcher) × (finish snapshot_watcher marshal callbacks
            (returned status s)
          ≡ returned status s')
        × (s'.state ≡ cancel_all snapshot_watcher marshal callbacks s.values s.state)
  unfolding finish
  finish-returned status s =
      let w = cancel_all snapshot_watcher marshal callbacks s.values s.state in
      let s' : Stream snapshot_watcher = record s { state = w } in
      (_, refl, (observe-values marshal callbacks (stream_closed s.stream_id) s').1)

  pub cancel_all-none : (w : World) → cancel_all snapshot_watcher marshal callbacks no_watches w ≡ w
  unfolding cancel_all cancel_slot
  cancel_all-none w = refl

  -- A stream opens with no watches, and leaves the cache alone.
  pub start_lem :
      (url : String) (count : ℕ) (w : World)
      → (s : Stream snapshot_watcher) × ((start snapshot_watcher marshal callbacks url count w
            ≡ running s)
          ⊎ ((why : Option Status) × (start snapshot_watcher marshal callbacks url count w
                ≡ returned why s)))
        × (s.values ≡ no_watches)
        × (s.state ≡ w)
  unfolding start opened
  start_lem url count w =
      let id = (count + 1) % int64_mod in
      let s = fresh marshal callbacks count w in
      let s' = observe snapshot_watcher marshal callbacks (stream_open id url) s in
      let (values, state) = observe-values marshal callbacks (stream_open id url) s in
      elim (Option-cases (asked_open snapshot_watcher marshal callbacks callbacks id url)) [
        | inl fine ↦ (s', inl (rw fine refl), values, state)
        | inr (why, refused) ↦ (s', inr (some (callback_error why), rw refused refl), values, state)
      ]
