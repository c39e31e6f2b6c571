-- ===== src/System/Effects.antt =====
-- What one action does with the channels and the watches that the streams hold, and with the
-- counters of the cache.
use bent.System.Owned.{own_move}
use bent.Cache.Channels.{receive-pending, Channels}
use bent.Server.Process.Cancels.{
  cancel_all-none, start_lem, cancel_slot-counters, cancel_all-counters, finish-returned,
}
use bent.Server.Process.Turns.{handle-Turn, Turn}
use bent.System.{opened, System, event_of, moved, Move, move, move_at, world_of}
use bent.Server.Watcher.{snapshot_watcher}
use bent.Cache.Simple.Watched.{create_watch-IsWatched, IsWatched}
use bent.Cache.Status.{Response, Request}
use bent.Server.Process.{
  cancel_all, blocked, returned, running, Stream, Event, Outcome, finish, cancel_slot,
}
use bent.System.Slots.{IsNeutral, total, slots_sum-put_slot, held, Weight}
use bent.Server.{Watches, put_slot, slot, Kind, Status, Callbacks}
use bent.Cache.Simple.{create_watch, int64_mod, Cancel, World}
use bent.Cache.Resource.{Resource}
use bent.Server.Process.Turns.{Turn, kept, took, swapped, stopped, dropped, stuck}
use bent.Shared.{
  ℕ, zero, suc, ◌+◌, ◌%◌, ◌≤◌, String, ◌≡◌, refl, sym, ap, ◌∙◌, subst, inl, inr, Option, none, some,
  List, [], ◌∷◌, arith,
}

-- The cancel function of a new watch takes the next number.
abbrev pub IsNext : Option Cancel → (count count' : ℕ) → Type 0
IsNext none count count' = count' ≡ count
IsNext (some d) count count' =
    (d.watch ≡ (count + 1) % int64_mod) × (count' ≡ (count + 1) % int64_mod)

-- From the cache `w` to `w'`, with the counts of what is held `before` and `after`: nothing new is
-- held, or one slot with the next channel.
pub data Effect (w : World) (w' : World) (before after : Weight → ℕ) : Type 0 where
  still :
      ((p : Weight) → IsNeutral p → after p ≤ before p)
      → w'.channels.next ≡ w.channels.next
      → w'.watch_count ≡ w.watch_count
      → Effect w w' before after
  fresh :
      (f : Option Cancel)
      → ((p : Weight) → IsNeutral p → after p ≤ before p + p (some w.channels.next) f)
      → w'.channels.next ≡ suc w.channels.next
      → IsNext f w.watch_count w'.watch_count
      → Effect w w' before after

-- The same beside what others hold.
pub Effect-beside :
    (w w' : World) (before after before' after' : Weight → ℕ) (rest : Weight → ℕ)
    → ((p : Weight) → before' p ≡ before p + rest p)
    → ((p : Weight) → after' p ≡ after p + rest p)
    → Effect w w' before after
    → Effect w w' before' after'
Effect-beside w w' before after before' after' rest b a (still h next count) =
    still (λ p n. omega (arith, h p n, b p, a p)) next count
Effect-beside w w' before after before' after' rest b a (fresh f h next count) =
    fresh f (λ p n. omega (arith, h p n, b p, a p)) next count

pub IsWatched-IsNext :
    (req : Request) (now : ℕ) (w w' : World) (ch : ℕ) (f : Option Cancel)
    → IsWatched req now w (ch, f) w'
    → IsNext f w.watch_count w'.watch_count
IsWatched-IsNext req now w w' ch f v = elim v.outcome [
  | inl o ↦ rw o.cancels (refl, o.count)
  | inr a ↦ rw a.cancels (a.count)
]

module _ (marshal : Resource → Option (List ℕ)) (callbacks : Option Callbacks) where
  -- The streams' side of an action that changes one stream.
  abbrev Round : World → World → Outcome snapshot_watcher → Outcome snapshot_watcher → Type 0
  Round w w' o o' = Effect w w' (λ p. held p o) (λ p. held p o')

  -- A stream that has just opened, on a cache that is as it was.
  pub record Started (w : World) (o : Outcome snapshot_watcher) : Type 0 where
    pub nothing : (p : Weight) → IsNeutral p → held p o ≡ 0
    pub world : world_of w o ≡ w

  returned-Effect :
      (status : Option Status) (s s' : Stream snapshot_watcher)
      → s'.state.channels.next ≡ s.state.channels.next
      → s'.state.watch_count ≡ s.state.watch_count
      → Round s.state
          (world_of s.state (finish snapshot_watcher marshal callbacks (returned status s')))
          (running s)
          (finish snapshot_watcher marshal callbacks (returned status s'))
  returned-Effect status s s' next count =
      let (s'', e, state) = finish-returned marshal callbacks status s' in
      let (channels, watches, mode) = cancel_all-counters marshal callbacks s'.values s'.state in
      rw e (
        still (λ p neutral. omega arith)
          (ap (λ (w : World). w.channels.next) state
            ∙ ap (λ (chs : Channels Response). chs.next) channels
            ∙ next)
          (ap (λ (w : World). w.watch_count) state ∙ watches ∙ count))

  swapped-Effect :
      (s s' : Stream snapshot_watcher) (k : Kind) (req : Request) (now ch : ℕ) (f : Option Cancel)
      → create_watch req now
          (cancel_slot snapshot_watcher marshal callbacks (slot k s.values).cancel s.state)
        ≡ some ((ch, f), s'.state)
      → s'.values ≡ put_slot k (record (slot k s.values) { channel = some ch; cancel = f }) s.values
      → Round s.state s'.state (running s) (running s')
  swapped-Effect s s' k req now ch f made values =
      let old = slot k s.values in
      let (channels, watches, mode) = cancel_slot-counters marshal callbacks old.cancel s.state in
      let w = cancel_slot snapshot_watcher marshal callbacks old.cancel s.state in
      let v = create_watch-IsWatched req now w made in
      let n = IsWatched-IsNext req now w s'.state ch f v in
      let same = ap (λ (chs : Channels Response). chs.next) channels in
      let put = λ (p : Weight).
        slots_sum-put_slot p k (record old { channel = some ch; cancel = f }) s.values in
      fresh f
        (λ p neutral.
          rw values
            (let h = ap (λ (c : ℕ). p (some c) f) (v.value ∙ same) in omega (arith, put p, h)))
        (v.made ∙ ap suc same) (subst (λ count. IsNext f count s'.state.watch_count) watches n)

  Turn-Effect :
      (e : Event snapshot_watcher) (s : Stream snapshot_watcher) (o : Outcome snapshot_watcher)
      → Turn marshal callbacks e s.values s.state o
      → Round s.state
          (world_of s.state (finish snapshot_watcher marshal callbacks o))
          (running s)
          (finish snapshot_watcher marshal callbacks o)
  unfolding finish
  Turn-Effect e s o (kept s' done values state) = rw done (
      still (λ p neutral. rw values (omega arith)) (ap (λ (w : World). w.channels.next) state)
        (ap (λ (w : World). w.watch_count) state))
  Turn-Effect e s o (took k ok ch resp chs n s' is has got done values state) = rw done (
      still
        (λ p neutral. rw values (
          let put = slots_sum-put_slot p k (record (slot k s.values) { nonce = n }) s.values in
          omega (arith, put)))
        (ap (λ (w : World). w.channels.next) state ∙ (receive-pending 0 ch s.state.channels got).1)
        (ap (λ (w : World). w.watch_count) state))
  Turn-Effect e s o (swapped k req now ch f w' s' asked made done values state) = rw done (
      swapped-Effect s s' k req now ch f (made ∙ ap (λ (u : World). some ((ch, f), u)) (sym state))
        values)
  Turn-Effect e s o (stopped status s' done values state) = rw done (
      returned-Effect status s s' (ap (λ (w : World). w.channels.next) state)
        (ap (λ (w : World). w.watch_count) state))
  Turn-Effect e s o (dropped k ch resp chs status s' has got done values state) = rw done (
      returned-Effect status s s'
        (ap (λ (w : World). w.channels.next) state ∙ (receive-pending 0 ch s.state.channels got).1)
        (ap (λ (w : World). w.watch_count) state))
  Turn-Effect e s o (stuck done) = rw done (still (λ p neutral. omega arith) refl refl)

  move-Effect :
      (url : String) (m : Move) (w : World) (o : Outcome snapshot_watcher)
      → Round w (moved marshal callbacks url m w o) o (move marshal callbacks url m w o)
  unfolding move
  move-Effect url m w (running s) =
      let s' : Stream snapshot_watcher = record s { state = w } in
      Turn-Effect (event_of m) s' _ (handle-Turn marshal callbacks url (event_of m) s' (own_move m))
  move-Effect url m w (returned status s) = still (λ p neutral. omega arith) refl refl
  move-Effect url m w blocked = still (λ p neutral. omega arith) refl refl

  pub move_at-Effect :
      (i : ℕ) (m : Move) (w : World) (served : List (String × Outcome snapshot_watcher))
      → Effect w
          (move_at marshal callbacks i m w served).1
          (λ p. total p served)
          (λ p. total p (move_at marshal callbacks i m w served).0)
  unfolding move_at
  move_at-Effect i m w [] = still (λ p neutral. omega arith) refl refl
  move_at-Effect zero m w ((url, o) ∷ rest) =
      Effect-beside w _ (λ p. held p o) (λ p. held p (move marshal callbacks url m w o)) _ _
        (λ p. total p rest) (λ p. refl) (λ p. refl) (move-Effect url m w o)
  move_at-Effect (suc i) m w ((url, o) ∷ rest) =
      Effect-beside w _ (λ p. total p rest) (λ p. total p (move_at marshal callbacks i m w rest).0)
        _ _ (λ p. held p o) (λ p. omega arith) (λ p. omega arith) (move_at-Effect i m w rest)

  pub opened-Started :
      (url : String) (sys : System) → Started sys.world (opened marshal callbacks url sys)
  unfolding finish
  opened-Started url sys =
      let (s, begun, values, state) = start_lem marshal callbacks url sys.stream_count sys.world in
      elim begun [
        | inl fine ↦
            rw fine
              (record { nothing = λ p neutral. rw values (omega (arith, neutral)); world = state })
        | inr (why, refused) ↦
            let (s', e, gone) = finish-returned marshal callbacks why s in
            rw (refused, e)
              (record {
                nothing = λ p neutral. refl;
                world =
                    gone
                    ∙ ap
                        (λ (ws : Watches Cancel).
                          cancel_all snapshot_watcher marshal callbacks ws s.state)
                        values
                    ∙ cancel_all-none marshal callbacks s.state
                    ∙ state;
              })
      ]
