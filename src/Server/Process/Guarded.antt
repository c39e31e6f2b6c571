-- ===== src/Server/Process/Guarded.antt =====
-- What a round of a stream does with the watches that it holds: it drops none and takes no others.
use bent.Server.Process.Held.{
  is_for-put_slot, booleans, has_cancel-put_slot, released, has_cancel-nonce, renewed, Released,
  guards, has_cancel, is_own, Guarded,
}
use bent.Cache.Simple.Canceling.{watch_at-cancel_watch}
use bent.Cache.Simple.Opening.{is_open-create_watch, is_open, is_for}
use bent.Server.Watcher.{snapshot_watcher}
use bent.Server.Process.{
  asked_open, opened, start, Event, finish, handle, blocked, returned, running, observe, cancel_all,
  cancel_slot, Stream, Outcome,
}
use bent.Server.{stream_open, no_watches, stream_closed, slot, put_slot, Slot, Watches, Callbacks}
use bent.Cache.Simple.{int64_mod, Cancel, World}
use bent.Cache.Resource.{Resource}
use bent.Server.Process.Turns.{
  Turn, kept, took, swapped, stopped, dropped, stuck, handle-Turn, observe-values,
}
use bent.Shared.{
  Option-cases, ℕ, ◌+◌, ◌%◌, String, ◌≡◌, ap, ◌∙◌, inl, inr, true, not, ◌&&◌, Option, none, some,
  List, [], arith,
}

module _ (marshal : Resource → Option (List ℕ)) (callbacks : Option Callbacks) where
  is_open-cancel_slot :
      (d : Cancel) (f : Option Cancel) (w : World)
      → is_open d (cancel_slot snapshot_watcher marshal callbacks f w)
        ≡ (is_open d w && not (is_for d f))
  unfolding cancel_slot
  is_open-cancel_slot d none w = ground arith
  is_open-cancel_slot d (some f) w = rw (watch_at-cancel_watch f d w) (ground arith)

  is_open-cancel_all :
      (d : Cancel) (ws : Watches Cancel) (w : World)
      → is_open d (cancel_all snapshot_watcher marshal callbacks ws w)
        ≡ (is_open d w && not (has_cancel d ws))
  unfolding cancel_all
  is_open-cancel_all d ws w =
      let call = cancel_slot snapshot_watcher marshal callbacks in
      let w1 = call ws.endpoints.cancel w in
      let w2 = call ws.clusters.cancel w1 in
      let w3 = call ws.routes.cancel w2 in
      let w4 = call ws.listeners.cancel w3 in
      rw
        (
          is_open-cancel_slot d ws.secrets.cancel w4,
          is_open-cancel_slot d ws.listeners.cancel w3,
          is_open-cancel_slot d ws.routes.cancel w2,
          is_open-cancel_slot d ws.clusters.cancel w1,
          is_open-cancel_slot d ws.endpoints.cancel w,
        )
        (ground arith)

  -- A step that changes neither.
  same-running :
      (d : Cancel) (s s' : Stream snapshot_watcher)
      → has_cancel d s'.values ≡ has_cancel d s.values
      → is_open d s'.state ≡ is_open d s.state
      → guards
          (is_open d s.state)
          (has_cancel d s.values)
          (is_open d s'.state)
          (has_cancel d s'.values)
        ≡ true
  same-running d s s' held same =
      rw (held, same) (booleans (is_open d s.state) (has_cancel d s.values))

  Turn-Guarded :
      (d : Cancel) (e : Event snapshot_watcher) (s : Stream snapshot_watcher)
      (o : Outcome snapshot_watcher)
      → Turn marshal callbacks e s.values s.state o
      → Guarded d s o
  Turn-Guarded d e s o (kept s' done values state) =
      rw done (same-running d s s' (ap (has_cancel d) values) (ap (is_open d) state))
  Turn-Guarded d e s o (took k ok ch resp chs n s' is has got done values state) = rw done (
      same-running d s s' (ap (has_cancel d) values ∙ has_cancel-nonce d k n s.values)
        (ap (is_open d) state))
  Turn-Guarded d e s o (swapped k req now ch c w' s' asked made done values state) =
      let old = slot k s.values in
      let new : Slot Cancel = record old { channel = some ch; cancel = c } in
      let w = cancel_slot snapshot_watcher marshal callbacks old.cancel s.state in
      rw (done, values, state)
        (renewed (is_open d s.state) (has_cancel d s.values) (is_open d w) (is_open d w')
          (has_cancel d (put_slot k new s.values)) (is_for d old.cancel) (is_for d c)
          (is_open-create_watch d req now w made) (is_open-cancel_slot d old.cancel s.state)
          (has_cancel-put_slot d k new s.values) (is_for-put_slot d k new s.values))
  Turn-Guarded d e s o (stopped status s' done values state) =
      rw done (same-running d s s' (ap (has_cancel d) values) (ap (is_open d) state))
  Turn-Guarded d e s o (dropped k ch resp chs status s' has got done values state) =
      rw done (same-running d s s' (ap (has_cancel d) values) (ap (is_open d) state))
  Turn-Guarded d e s o (stuck done) = rw done tt

  -- A round of a stream, if it is not the other goroutines that use the cache.
  pub handle-Guarded :
      (d : Cancel) (url : String) (e : Event snapshot_watcher) (s : Stream snapshot_watcher)
      → is_own e ≡ true
      → Guarded d s (handle snapshot_watcher marshal callbacks url e s)
  handle-Guarded d url e s own =
      Turn-Guarded d e s (handle snapshot_watcher marshal callbacks url e s)
        (handle-Turn marshal callbacks url e s own)

  pub finish-Released :
      (d : Cancel) (s : Stream snapshot_watcher) (o : Outcome snapshot_watcher)
      → Guarded d s o
      → Released d s (finish snapshot_watcher marshal callbacks o)
  unfolding finish
  finish-Released d s (running s') g = g
  finish-Released d s blocked g = tt
  finish-Released d s (returned status s') g =
      let w = cancel_all snapshot_watcher marshal callbacks s'.values s'.state in
      let s'' : Stream snapshot_watcher = record s' { state = w } in
      rw (observe-values marshal callbacks (stream_closed s'.stream_id) s'').1 (
        released (is_open d s.state) (has_cancel d s.values) (is_open d s'.state)
          (has_cancel d s'.values) (is_open d w) g (is_open-cancel_all d s'.values s'.state))

  abbrev pub fresh : ℕ → World → Stream snapshot_watcher
  fresh count w = record {
    state = w;
    stream_id = (count + 1) % int64_mod;
    stream_nonce = 0;
    values = no_watches;
    trace = [];
  }

  -- A stream that opens.
  pub start-Guarded :
      (d : Cancel) (url : String) (count : ℕ) (w : World)
      → Guarded d (fresh count w) (start snapshot_watcher marshal callbacks url count w)
  unfolding start opened
  start-Guarded d url count w =
      let id = (count + 1) % int64_mod in
      let s = fresh count w in
      let s' = observe snapshot_watcher marshal callbacks (stream_open id url) s in
      let (values, state) = observe-values marshal callbacks (stream_open id url) s in
      elim (Option-cases (asked_open snapshot_watcher marshal callbacks callbacks id url)) [
        | inl fine ↦ rw fine (same-running d s s' (ap (has_cancel d) values) (ap (is_open d) state))
        | inr (why, refused) ↦
            rw refused (same-running d s s' (ap (has_cancel d) values) (ap (is_open d) state))
      ]
