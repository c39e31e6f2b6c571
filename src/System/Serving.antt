-- ===== src/System/Serving.antt =====
-- The slots of a stream after a round, and the kinds that their channels serve.
use bent.System.Kinds.{
  fresh-ServesOnly, kind_of-type_url, due-AnswersOnly, AnySnapshot, AnswersOnly, AsksOnly,
  ServesOnly,
}
use bent.System.Carried.{swap-Carries}
use bent.Server.Process.Cancels.{cancel_slot-counters}
use bent.Cache.Simple.Watched.{create_watch-IsWatched}
use bent.Server.Slots.{slot-put_slot_same, slot-put_slot}
use bent.Server.Watcher.{snapshot_watcher}
use bent.Server.Process.{running, cancel_slot, blocked, returned, Outcome, Stream, finish, Event}
use bent.Cache.Resource.{Resource}
use bent.Cache.Channels.{Channels}
use bent.Cache.Simple.Sound.{IsSound}
use bent.Cache.Status.{Request, Response}
use bent.Cache.Simple.{create_watch, Cancel, World}
use bent.Server.{Slot, put_slot, Status, slot, Callbacks, Watches, type_url_of, Kind, kind_of}
use bent.Server.Process.Turns.{Turn, kept, took, swapped, stopped, dropped, stuck}
use bent.Shared.{ℕ, String, ◌≡◌, sym, ap, ◌∙◌, ◌⊎◌, inl, inr, Option, some, List, arith}

-- A new nonce changes no channel.
channel-nonce :
    (k j : Kind) (n : String) (ws : Watches Cancel)
    → (slot k (put_slot j (record (slot j ws) { nonce = n }) ws)).channel ≡ (slot k ws).channel
channel-nonce k j n ws = elim (slot-put_slot k j (record (slot j ws) { nonce = n }) ws) [
  | inl same ↦
      let named : Slot Cancel = record (slot j ws) { nonce = n } in
      ap (λ (i : Kind). (slot i (put_slot j named ws)).channel) same
      ∙ ap (λ (s : Slot Cancel). s.channel) (slot-put_slot_same j named ws)
      ∙ ap (λ (i : Kind). (slot i ws).channel) (sym same)
  | inr others ↦ ap (λ (s : Slot Cancel). s.channel) others
]

module _ (marshal : Resource → Option (List ℕ)) (callbacks : Option Callbacks) where
  finish_running :
      (s s' : Stream snapshot_watcher) (o : Outcome snapshot_watcher)
      → o ≡ running s
      → finish snapshot_watcher marshal callbacks o ≡ running s'
      → s ≡ s'
  unfolding finish
  finish_running s s' o done e = let e' = rw done at e in cc

  finish_returned :
      (status : Option Status) (s s' : Stream snapshot_watcher) (o : Outcome snapshot_watcher)
      → o ≡ returned status s
      → finish snapshot_watcher marshal callbacks o ≡ running s'
      → ⊥
  unfolding finish
  finish_returned status s s' o done e = let e' = rw done at e in cc

  finish_blocked :
      (s' : Stream snapshot_watcher) (o : Outcome snapshot_watcher)
      → o ≡ blocked
      → finish snapshot_watcher marshal callbacks o ≡ running s'
      → ⊥
  unfolding finish
  finish_blocked s' o done e = let e' = rw done at e in cc

  swapped-ServesOnly :
      (k j : Kind) (ch c : ℕ) (g : Option Cancel) (req : Request) (now : ℕ)
      (s s' : Stream snapshot_watcher) (w' : World)
      → IsSound s.state
      → kind_of req.type_url ≡ some j
      → create_watch req now
          (cancel_slot snapshot_watcher marshal callbacks (slot j s.values).cancel s.state)
        ≡ some ((c, g), w')
      → s'.values ≡ put_slot j (record (slot j s.values) { channel = some c; cancel = g }) s.values
      → (slot k s'.values).channel ≡ some ch
      → ((slot k s.values).channel ≡ some ch) ⊎ ServesOnly ch (type_url_of k) w'
  swapped-ServesOnly k j ch c g req now s s' w' v asked made values has =
      let new : Slot Cancel = record (slot j s.values) { channel = some c; cancel = g } in
      elim (slot-put_slot k j new s.values) [
        | inl same ↦
            let there = ap (slot j) values ∙ slot-put_slot_same j new s.values in
            let reached : some c ≡ some ch =
              ap (λ (p : Slot Cancel). p.channel) (sym there)
              ∙ ap (λ (i : Kind). (slot i s'.values).channel) (sym same)
              ∙ has in
            let hit : c ≡ ch = cc in
            let value = (create_watch-IsWatched req now _ made).value in
            let next =
              ap (λ (chs : Channels Response). chs.next)
                (cancel_slot-counters marshal callbacks (slot j s.values).cancel s.state).0 in
            let type_url = type_url_of k in
            inr (
              swap-Carries (AsksOnly ch type_url) (AnswersOnly ch type_url) AnySnapshot
                (due-AnswersOnly ch type_url) marshal callbacks (slot j s.values).cancel req now
                s.state w' (λ at. kind_of-type_url req.type_url k (asked ∙ ap some (sym same))) made
                (fresh-ServesOnly ch type_url s.state v (omega (arith, hit, value, next))))
        | inr others ↦
            inl (ap (λ (p : Slot Cancel). p.channel) (sym (ap (slot k) values ∙ others)) ∙ has)
      ]

  pub Turn-slot :
      (k : Kind) (ch : ℕ) (e : Event snapshot_watcher) (s s' : Stream snapshot_watcher)
      (o : Outcome snapshot_watcher)
      → IsSound s.state
      → Turn marshal callbacks e s.values s.state o
      → finish snapshot_watcher marshal callbacks o ≡ running s'
      → (slot k s'.values).channel ≡ some ch
      → ((slot k s.values).channel ≡ some ch) ⊎ ServesOnly ch (type_url_of k) s'.state
  Turn-slot k ch e s s' o v (kept s1 done values state) ends has =
      let same = finish_running s1 s' o done ends in
      inl (
        ap (λ (ws : Watches Cancel). (slot k ws).channel)
          (sym values ∙ ap (λ (u : Stream snapshot_watcher). u.values) same)
        ∙ has)
  Turn-slot k ch e s s' o v (took j ok c resp chs n s1 is has' got done values state) ends has =
      let same = finish_running s1 s' o done ends in
      inl (
        sym (channel-nonce k j n s.values)
        ∙ ap (λ (ws : Watches Cancel). (slot k ws).channel)
            (sym values ∙ ap (λ (u : Stream snapshot_watcher). u.values) same)
        ∙ has)
  Turn-slot k ch e s s' o v (swapped j req now c g w' s1 asked made done values state) ends has =
      let same = finish_running s1 s' o done ends in
      let values' = ap (λ (u : Stream snapshot_watcher). u.values) (sym same) ∙ values in
      let state' = ap (λ (u : Stream snapshot_watcher). u.state) (sym same) ∙ state in
      rw state' (swapped-ServesOnly k j ch c g req now s s' w' v asked made values' has)
  Turn-slot k ch e s s' o v (stopped status s1 done values state) ends has =
      absurd (finish_returned status s1 s' o done ends)
  Turn-slot k ch e s s' o v (dropped j c resp chs status s1 has' got done values state) ends has =
      absurd (finish_returned status s1 s' o done ends)
  Turn-slot k ch e s s' o v (stuck done) ends has = absurd (finish_blocked s' o done ends)
