-- ===== src/System/Carried.antt =====
-- A round of a stream keeps what the watches, the channels and the snapshots have in common.
use bent.System.Owned.{own_move}
use bent.System.Effects.{opened-Started}
use bent.System.Apart.{some_inj}
use bent.Cache.Channels.{Channels}
use bent.Server.Process.Cancels.{finish-returned, cancel_slot-counters}
use bent.Server.Watcher.{snapshot_watcher}
use bent.Cache.Simple.{set_snapshot, create_watch, Cancel, World}
use bent.Server.Process.{
  blocked, running, returned, Stream, Outcome, Event, finish, cancel_slot, cancel_all,
}
use bent.Server.{slot, kind_of, Kind, Status, Watches, Callbacks}
use bent.Cache.Resource.{Resource}
use bent.Cache.Simple.Carrying.{
  cancel_watch-Carries, set_snapshot-Carries, create_watch-Carries, receive-Carries, Carries,
  Answers,
}
use bent.System.{
  event_of, moved, world_of, Move, System, advance, move_at, move, moves, connects, stores, Action,
}
use bent.Cache.Status.{Response, Request}
use bent.Cache.Snapshot.{Snapshot}
use bent.Server.Process.Turns.{handle-Turn, Turn, kept, took, swapped, stopped, dropped, stuck}
use bent.Shared.{
  Option-cases, ℕ, zero, suc, String, ◌≡◌, sym, subst, inl, inr, Option, none, some, List, [], ◌∷◌,
  arith,
}

-- A property holds of the snapshot that an action stores, if it stores one.
abbrev pub StoresOnly : (Snapshot → Type 0) → Action → Type 0
StoresOnly S (stores node snapshot) = S snapshot
StoresOnly S (connects url) = Unit
StoresOnly S (moves i m) = Unit

module _ (P : ℕ → Request → Type 0) (Q : ℕ → Response → Type 0) (S : Snapshot → Type 0)
    (answer : Answers P Q S) (marshal : Resource → Option (List ℕ))
    (callbacks : Option Callbacks) where
  cancel_slot-Carries :
      (f : Option Cancel) (w : World)
      → Carries P Q S w
      → Carries P Q S (cancel_slot snapshot_watcher marshal callbacks f w)
  unfolding cancel_slot
  cancel_slot-Carries none w h = h
  cancel_slot-Carries (some c) w h = cancel_watch-Carries P Q S c w h

  cancel_all-Carries :
      (ws : Watches Cancel) (w : World)
      → Carries P Q S w
      → Carries P Q S (cancel_all snapshot_watcher marshal callbacks ws w)
  unfolding cancel_all
  cancel_all-Carries ws w h = cancel_slot-Carries ws.secrets.cancel _ (
      cancel_slot-Carries ws.listeners.cancel _ (
        cancel_slot-Carries ws.routes.cancel _
          (cancel_slot-Carries ws.clusters.cancel _ (cancel_slot-Carries ws.endpoints.cancel w h))))

  returned-Carries :
      (w : World) (status : Option Status) (s : Stream snapshot_watcher)
      → Carries P Q S s.state
      → Carries P Q S (world_of w (finish snapshot_watcher marshal callbacks (returned status s)))
  returned-Carries w status s h =
      let (s', e, state) = finish-returned marshal callbacks status s in
      rw (e, state) (cancel_all-Carries s.values s.state h)

  -- The new watch of a stream, on its channel.
  pub swap-Carries :
      (g : Option Cancel) (req : Request) (now : ℕ) (w w' : World) {r : ℕ × Option Cancel}
      → P w.channels.next req
      → create_watch req now (cancel_slot snapshot_watcher marshal callbacks g w) ≡ some (r, w')
      → Carries P Q S w
      → Carries P Q S w'
  swap-Carries g req now w w' asks made h =
      let same = (cancel_slot-counters marshal callbacks g w).0 in
      create_watch-Carries P Q S req now _ w' answer
        (subst (λ (chs : Channels Response). P chs.next req) (sym same) asks) made
        (cancel_slot-Carries g w h)

  pub Turn-Carries :
      (e : Event snapshot_watcher) (s : Stream snapshot_watcher) (o : Outcome snapshot_watcher)
      → ((k : Kind) (req : Request) → kind_of req.type_url ≡ some k → P s.state.channels.next req)
      → Turn marshal callbacks e s.values s.state o
      → Carries P Q S s.state
      → Carries P Q S (world_of s.state (finish snapshot_watcher marshal callbacks o))
  unfolding finish
  Turn-Carries e s o asks (kept s' done values state) h = rw (done, state) h
  Turn-Carries e s o asks (took k ok c resp chs n s' is has got done values state) h =
      rw (done, state) (receive-Carries P Q S c s.state got h).1
  Turn-Carries e s o asks (swapped k req now c g w' s' asked made done values state) h =
      rw (done, state)
        (swap-Carries (slot k s.values).cancel req now s.state w' (asks k req asked) made h)
  Turn-Carries e s o asks (stopped status s' done values state) h =
      rw done (returned-Carries s.state status s' (rw state h))
  Turn-Carries e s o asks (dropped k c resp chs status s' has got done values state) h =
      rw done
        (returned-Carries s.state status s' (rw state (receive-Carries P Q S c s.state got h).1))
  Turn-Carries e s o asks (stuck done) h = rw done h

  pub moved-Carries :
      (url : String) (m : Move) (w : World) (o : Outcome snapshot_watcher)
      → ((k : Kind) (req : Request) → kind_of req.type_url ≡ some k → P w.channels.next req)
      → Carries P Q S w
      → Carries P Q S (moved marshal callbacks url m w o)
  unfolding move
  moved-Carries url m w (running s) asks h =
      let s' : Stream snapshot_watcher = record s { state = w } in
      Turn-Carries (event_of m) s' _ asks
        (handle-Turn marshal callbacks url (event_of m) s' (own_move m)) h
  moved-Carries url m w (returned status s) asks h = h
  moved-Carries url m w blocked asks h = h

  pub move_at-Carries :
      (i : ℕ) (m : Move) (w : World) (served : List (String × Outcome snapshot_watcher))
      → ((k : Kind) (req : Request) → kind_of req.type_url ≡ some k → P w.channels.next req)
      → Carries P Q S w
      → Carries P Q S (move_at marshal callbacks i m w served).1
  unfolding move_at
  move_at-Carries i m w [] asks h = h
  move_at-Carries zero m w ((url, o) ∷ rest) asks h = moved-Carries url m w o asks h
  move_at-Carries (suc i) m w ((url, o) ∷ rest) asks h = move_at-Carries i m w rest asks h

  pub advance-Carries :
      (a : Action) (sys sys' : System)
      → ((k : Kind) (req : Request) → kind_of req.type_url ≡ some k → P sys.world.channels.next req)
      → StoresOnly S a
      → advance marshal callbacks a sys ≡ some sys'
      → Carries P Q S sys.world
      → Carries P Q S sys'.world
  unfolding advance
  advance-Carries (stores node snapshot) sys sys' asks ok e h =
      elim (Option-cases (set_snapshot node snapshot sys.world)) [
        | inl stopped_at ↦ absurd (ground (arith, e, stopped_at))
        | inr (w, done) ↦
            let same : record sys { world = w } ≡ sys' = ground (arith, e, done) in
            rw (sym same) (set_snapshot-Carries P Q S node snapshot sys.world w answer ok done h)
      ]
  advance-Carries (connects url) sys sys' asks ok e h =
      rw (sym (some_inj e), (opened-Started marshal callbacks url sys).world) h
  advance-Carries (moves j m) sys sys' asks ok e h =
      rw (sym (some_inj e)) (move_at-Carries j m sys.world sys.served asks h)
