-- ===== src/System/Spared.antt =====
-- What a round of a stream leaves to a client that waits on another slot.
use bent.Server.Process.Cancels.{
  Awaits-cancel_slot, cancel_slot-counters, Awaits-cancel_all, finish-returned,
}
use bent.System.{world_of}
use bent.Cache.Channels.{receive, Channels}
use bent.Cache.Simple.Awaited.{
  create_watch-Awaits, IsOld, Awaits-create_watch, Awaits-receive, Awaits, is_clear,
}
use bent.Server.Watcher.{snapshot_watcher}
use bent.Cache.Status.{Response, Request}
use bent.Server.Slots.{slot-put_slot, slot-put_slot_same}
use bent.System.Slots.{holds_cancel, holds_channel, weight}
use bent.Server.Process.{
  blocked, cancel_slot, ready, returned, Stream, running, Event, finish, Outcome,
}
use bent.Cache.Simple.{create_watch, int64_mod, World, Cancel}
use bent.Server.{put_slot, slot, Status, Callbacks, Kind, Slot}
use bent.Cache.Resource.{Resource}
use bent.Server.Process.Turns.{Turn, kept, took, swapped, stopped, dropped, stuck}
use bent.Shared.{
  ==_refl, Option-cases, ℕ, ◌+◌, ◌≤◌, ◌<◌, ◌≡◌, refl, sym, ap, ◌∙◌, subst, ◌≢◌, ◌⊎◌, inl, inr, Bool,
  true, false, Option, some, List, arith, string_key, nat_key,
}

-- The slot holds neither the channel nor the cancel function.
abbrev pub IsSpared : ℕ → Option Cancel → Slot Cancel → Type 0
IsSpared ch f s = (weight (holds_channel ch) s ≡ 0) × (is_clear f s.cancel ≡ true)

-- A slot beside the one that holds them, if each is held once.
pub IsSpared-beside :
    (ch : ℕ) (mine s : Slot Cancel)
    → mine.channel ≡ some ch
    → weight (holds_channel ch) mine + weight (holds_channel ch) s ≤ 1
    → ((d : Cancel) → weight (holds_cancel d) mine + weight (holds_cancel d) s ≤ 1)
    → IsSpared ch mine.cancel s
IsSpared-beside ch mine s has one_channel one_cancel = (
  ground (arith, has, one_channel),
  elim (Option-cases mine.cancel) [
    | inl nothing ↦ rw nothing refl
    | inr (d, holds) ↦
        rw holds (ground (arith, one_cancel d, holds, ==_refl d.node, ==_refl d.watch))
  ],
)

-- The client of a stream waits for a response of a kind, unless the stream has returned.
abbrev pub Waits : Kind → Outcome snapshot_watcher → World → Type 0
Waits k (running s) w =
    (ch : ℕ) × ((slot k s.values).channel ≡ some ch) × Awaits ch (slot k s.values).cancel w
Waits k (returned status s) w = Unit
Waits k blocked w = Unit

Waits-as :
    (k : Kind) (ch : ℕ) (s s' : Stream snapshot_watcher) (w : World)
    → slot k s'.values ≡ slot k s.values
    → (slot k s.values).channel ≡ some ch
    → Awaits ch (slot k s.values).cancel w
    → Waits k (running s') w
Waits-as k ch s s' w e has a = rw e (ch, has, a)

-- A slot that is spared is another one.
stays :
    (k j : Kind) {ch : ℕ} (new : Slot Cancel) (s s' : Stream snapshot_watcher)
    → IsSpared ch (slot k s.values).cancel (slot j s.values)
    → (slot k s.values).channel ≡ some ch
    → s'.values ≡ put_slot j new s.values
    → slot k s'.values ≡ slot k s.values
stays k j {ch} new s s' spared has values = elim (slot-put_slot k j new s.values) [
  | inl same ↦
      let has' : (slot j s.values).channel ≡ some ch =
        subst (λ (i : Kind). (slot i s.values).channel ≡ some ch) same has in
      absurd (ground (arith, spared.0, has'))
  | inr others ↦ ap (slot k) values ∙ others
]

module _ (marshal : Resource → Option (List ℕ)) (callbacks : Option Callbacks) where
  receive-Awaits :
      (ch c : ℕ) (f : Option Cancel) (s : Slot Cancel) (w : World) {resp : Response}
      {chs : Channels Response}
      → IsSpared ch f s
      → s.channel ≡ some c
      → receive c w.channels ≡ some (resp, chs)
      → Awaits ch f w
      → Awaits ch f (record w { channels = chs })
  receive-Awaits ch c f s w spared has got a =
      Awaits-receive ch c f w (ground (arith, spared.0, has)) got a

  swap-Awaits :
      (ch : ℕ) (f g : Option Cancel) (req : Request) (now : ℕ) (w w' : World)
      {r : ℕ × Option Cancel}
      → is_clear f g ≡ true
      → IsOld f w.watch_count
      → w.watch_count + 1 < int64_mod
      → create_watch req now (cancel_slot snapshot_watcher marshal callbacks g w) ≡ some (r, w')
      → Awaits ch f w
      → Awaits ch f w'
  swap-Awaits ch f g req now w w' clear old few made a =
      let (channels, watches, mode) = cancel_slot-counters marshal callbacks g w in
      Awaits-create_watch ch req now f _ w' (subst (IsOld f) (sym watches) old) (rw watches few)
        made (Awaits-cancel_slot marshal callbacks ch f g w clear a)

  returned-Awaits :
      (ch : ℕ) (f : Option Cancel) (w : World) (status : Option Status)
      (s : Stream snapshot_watcher)
      → ((k : Kind) → IsSpared ch f (slot k s.values))
      → Awaits ch f s.state
      → Awaits ch f (world_of w (finish snapshot_watcher marshal callbacks (returned status s)))
  returned-Awaits ch f w status s spared a =
      let (s', e, state) = finish-returned marshal callbacks status s in
      rw (e, state)
        (Awaits-cancel_all marshal callbacks ch f s.values s.state (λ k. (spared k).1) a)

  -- The round of another stream.
  pub Turn-Awaits :
      (ch : ℕ) (f : Option Cancel) (e : Event snapshot_watcher) (s : Stream snapshot_watcher)
      (o : Outcome snapshot_watcher)
      → ((k : Kind) → IsSpared ch f (slot k s.values))
      → IsOld f s.state.watch_count
      → s.state.watch_count + 1 < int64_mod
      → Turn marshal callbacks e s.values s.state o
      → Awaits ch f s.state
      → Awaits ch f (world_of s.state (finish snapshot_watcher marshal callbacks o))
  unfolding finish
  Turn-Awaits ch f e s o spared old few (kept s' done values state) a = rw (done, state) a
  Turn-Awaits ch f e s o spared old few (took k ok c resp chs n s' is has got done values state) a =
      rw (done, state) (receive-Awaits ch c f (slot k s.values) s.state (spared k) has got a)
  Turn-Awaits ch f e s o spared old few (swapped k req now c g w' s' asked made done values state)
        a =
      rw (done, state)
        (swap-Awaits ch f (slot k s.values).cancel req now s.state w' (spared k).1 old few made a)
  Turn-Awaits ch f e s o spared old few (stopped status s' done values state) a =
      rw done (returned-Awaits ch f s.state status s' (rw values spared) (rw state a))
  Turn-Awaits ch f e s o spared old few (dropped k c resp chs status s' has got done values state)
        a =
      rw done (
        returned-Awaits ch f s.state status s' (rw values spared)
          (rw state (receive-Awaits ch c f (slot k s.values) s.state (spared k) has got a)))
  Turn-Awaits ch f e s o spared old few (stuck done) a = rw done a

  -- The round of the stream itself, if it does not take the response of the kind.
  pub Turn-Waits :
      (k : Kind) (ch : ℕ) (e : Event snapshot_watcher) (s : Stream snapshot_watcher)
      (o : Outcome snapshot_watcher)
      → (slot k s.values).channel ≡ some ch
      → ((j : Kind) → (j ≡ k) ⊎ IsSpared ch (slot k s.values).cancel (slot j s.values))
      → IsOld (slot k s.values).cancel s.state.watch_count
      → s.state.watch_count + 1 < int64_mod
      → s.state.ads ≡ false
      → ((ok : Bool) → e ≢ ready k ok)
      → Turn marshal callbacks e s.values s.state o
      → Awaits ch (slot k s.values).cancel s.state
      → Waits k
          (finish snapshot_watcher marshal callbacks o)
          (world_of s.state (finish snapshot_watcher marshal callbacks o))
  unfolding finish
  Turn-Waits k ch e s o has spared old few mode other (kept s' done values state) a =
      rw (done, values, state) (ch, has, a)
  Turn-Waits k ch e s o has spared old few mode other
        (took j ok c resp chs n s' is has' got done values state) a =
      elim (spared j) [
        | inl same ↦ absurd (other ok (is ∙ ap (λ (i : Kind). ready i ok) same))
        | inr clear ↦ rw done (
            Waits-as k ch s s' _ (stays k j _ s s' clear has values) has (
              rw state (
                receive-Awaits ch c (slot k s.values).cancel (slot j s.values) s.state clear has'
                  got a)))
      ]
  Turn-Waits k ch e s o has spared old few mode other
        (swapped j req now c g w' s' asked made done values state) a =
      elim (spared j) [
        | inl same ↦
            let new : Slot Cancel = record (slot j s.values) { channel = some c; cancel = g } in
            let here =
              ap (slot k) values
              ∙ ap (λ (i : Kind). slot i (put_slot j new s.values)) (sym same)
              ∙ slot-put_slot_same j new s.values in
            rw (done, here, state)
              (
                c,
                refl,
                create_watch-Awaits req now _ w'
                    ((cancel_slot-counters marshal callbacks (slot j s.values).cancel s.state).2
                      ∙ mode)
                    made,
              )
        | inr clear ↦ rw done (
            Waits-as k ch s s' _ (stays k j _ s s' clear has values) has (
              rw state (
                swap-Awaits ch (slot k s.values).cancel (slot j s.values).cancel req now s.state w'
                  clear.1 old few made a)))
      ]
  Turn-Waits k ch e s o has spared old few mode other (stopped status s' done values state) a =
      rw done tt
  Turn-Waits k ch e s o has spared old few mode other
        (dropped j c resp chs status s' has' got done values state) a =
      rw done tt
  Turn-Waits k ch e s o has spared old few mode other (stuck done) a = rw done tt
