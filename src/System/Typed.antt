-- ===== src/System/Typed.antt =====
-- The kinds that the channels of the streams serve, after each action.
use bent.System.Waiting.{stream_at-move_at, stream_at-move_at_other}
use bent.System.Effects.{opened-Started}
use bent.System.Owned.{own_move}
use bent.Server.Process.Turns.{handle-Turn}
use bent.Cache.Simple.Sound.{IsSound}
use bent.Cache.Simple.{set_snapshot, World}
use bent.System.Apart.{some_inj, totals, IsApart}
use bent.System.Slots.{held, held-le-total, holds_channel, weight-slot_le, stream_at}
use bent.System.Serving.{Turn-slot}
use bent.System.Kinds.{due-AnswersOnly, AnswersOnly, AsksOnly, ServesOnly, AnySnapshot}
use bent.Server.Watcher.{snapshot_watcher}
use bent.Server.{type_url_of, slot, Callbacks, Kind}
use bent.System.Carried.{advance-Carries, StoresOnly}
use bent.Server.Process.{blocked, returned, running, Outcome, Stream}
use bent.Cache.Resource.{Resource}
use bent.System.{
  world_of, moved, advance, event_of, opened, move, move_at, System, Action, stores, connects,
  moves, Move,
}
use bent.Shared.{
  nat_eq, Bool-cases, Option-cases, ℕ, zero, suc, ◌<◌, String, ◌≡◌, refl, sym, ap, ◌∙◌, subst, ◌⊎◌,
  inl, inr, Option, none, some, List, [], ◌∷◌, ◌++◌, arith,
}

-- Each channel that a slot of a stream holds serves the kind of the slot.
abbrev pub SlotsServe : System → Type 0
SlotsServe sys =
    (i : ℕ) (url : String) (s : Stream snapshot_watcher) (k : Kind) (ch : ℕ)
    → stream_at i sys.served ≡ some (url, running s)
    → (slot k s.values).channel ≡ some ch
    → ServesOnly ch (type_url_of k) sys.world

any_stores : (a : Action) → StoresOnly AnySnapshot a
any_stores (stores node snapshot) = tt
any_stores (connects url) = tt
any_stores (moves i m) = tt

-- The channel was made before.
channel_made :
    (n i : ℕ) (k : Kind) (ch : ℕ) (sys : System) (url : String) (s : Stream snapshot_watcher)
    → IsApart n sys.world (totals sys)
    → stream_at i sys.served ≡ some (url, running s)
    → (slot k s.values).channel ≡ some ch
    → ch < sys.world.channels.next
channel_made n i k ch sys url s apart at has =
    let le = weight-slot_le (holds_channel ch) k s.values in
    let le' = held-le-total (holds_channel ch) i sys.served at in
    ground (arith, has, le, le', apart.new_channels ch)

-- A stream had the channel in the slot before an action.
abbrev Before : ℕ → Kind → ℕ → System → Type 0
Before i k ch sys =
    (url : String) × (s : Stream snapshot_watcher) × (stream_at i sys.served
      ≡ some (url, running s))
    × ((slot k s.values).channel ≡ some ch)

stream_at-last :
    (i : ℕ) (served : List (String × Outcome snapshot_watcher))
    (x y : String × Outcome snapshot_watcher)
    → stream_at i (served ++ x ∷ []) ≡ some y
    → (stream_at i served ≡ some y) ⊎ (x ≡ y)
stream_at-last zero [] x y e = inr cc
stream_at-last (suc i) [] x y e = cc
stream_at-last zero (z ∷ served) x y e = inl e
stream_at-last (suc i) (z ∷ served) x y e = stream_at-last i served x y e

module _ (marshal : Resource → Option (List ℕ)) (callbacks : Option Callbacks) where
  stream_at-move_at-none :
      (i : ℕ) (m : Move) (w : World) (served : List (String × Outcome snapshot_watcher))
      → stream_at i served ≡ none
      → stream_at i (move_at marshal callbacks i m w served).0 ≡ none
  unfolding move_at
  stream_at-move_at-none i m w [] e = e
  stream_at-move_at-none zero m w (x ∷ served) e = cc
  stream_at-move_at-none (suc i) m w (x ∷ served) e = stream_at-move_at-none i m w served e

  module _ (i : ℕ) (k : Kind) (ch : ℕ) (s' : Stream snapshot_watcher) (sys : System)
      (has : (slot k s'.values).channel ≡ some ch) where
    -- A stream that has just opened has no channel.
    opened_without : (url : String) → opened marshal callbacks url sys ≡ running s' → ⊥
    opened_without url e =
        let nothing = (opened-Started marshal callbacks url sys).nothing (holds_channel ch) refl in
        let nothing' : held (holds_channel ch) (running s') ≡ 0 = rw e at nothing in
        let le = weight-slot_le (holds_channel ch) k s'.values in ground (arith, has, le, nothing')

    move-Before :
        (url : String) (m : Move) (o : Outcome snapshot_watcher)
        → IsSound sys.world
        → stream_at i sys.served ≡ some (url, o)
        → move marshal callbacks url m sys.world o ≡ running s'
        → Before i k ch sys ⊎ ServesOnly ch (type_url_of k) s'.state
    unfolding move
    move-Before url m (running s) v at ends =
        let s0 : Stream snapshot_watcher = record s { state = sys.world } in
        elim (Turn-slot marshal callbacks k ch (event_of m) s0 s' _ v
          (handle-Turn marshal callbacks url (event_of m) s0 (own_move m)) ends has) [
            | inl old ↦ inl (url, s, at, old)
            | inr serves ↦ inr serves
          ]
    move-Before url m (returned status s) v at ends = cc
    move-Before url m blocked v at ends = cc

    moved-state :
        (url : String) (m : Move) (o : Outcome snapshot_watcher)
        → move marshal callbacks url m sys.world o ≡ running s'
        → moved marshal callbacks url m sys.world o ≡ s'.state
    unfolding move
    moved-state url m (running s) ends = ap (world_of sys.world) ends
    moved-state url m (returned status s) ends = cc
    moved-state url m blocked ends = cc

    own-Before :
        (m : Move) (url : String)
        → IsSound sys.world
        → stream_at i (move_at marshal callbacks i m sys.world sys.served).0
          ≡ some (url, running s')
        → Before i k ch sys
          ⊎ ServesOnly ch (type_url_of k) (move_at marshal callbacks i m sys.world sys.served).1
    own-Before m url v at = elim (Option-cases (stream_at i sys.served)) [
      | inl missing ↦
          let none_now = stream_at-move_at-none i m sys.world sys.served missing in
          absurd (ground (arith, none_now, at))
      | inr ((url', o), found) ↦
          let (there, here) = stream_at-move_at marshal callbacks i m sys.world sys.served found in
          let both = sym there ∙ at in
          let ends : move marshal callbacks url' m sys.world o ≡ running s' = cc in
          rw (here, moved-state url' m o ends) (move-Before url' m o v found ends)
    ]

    advance-Before :
        (a : Action) (url : String) (sys' : System)
        → IsSound sys.world
        → advance marshal callbacks a sys ≡ some sys'
        → stream_at i sys'.served ≡ some (url, running s')
        → Before i k ch sys ⊎ ServesOnly ch (type_url_of k) sys'.world
    unfolding advance
    advance-Before (stores node snapshot) url sys' v e at =
        elim (Option-cases (set_snapshot node snapshot sys.world)) [
          | inl never ↦ absurd (ground (arith, e, never))
          | inr (w, done) ↦
              let same : sys.served ≡ sys'.served = ground (arith, e, done) in
              inl (url, s', ap (stream_at i) same ∙ at, has)
        ]
    advance-Before (connects url') url sys' v e at =
        let o = opened marshal callbacks url' sys in
        let same = ap (λ (u : System). u.served) (some_inj e) in
        elim (stream_at-last i sys.served (url', o) (url, running s')
          (ap (stream_at i) same ∙ at)) [
            | inl old ↦ inl (url, s', old, has)
            | inr last ↦ absurd (opened_without url' cc)
          ]
    advance-Before (moves j m) url sys' v e at =
        let now = ap (λ (u : System). u.served) (some_inj e) in
        let there = ap (λ (u : System). u.world) (some_inj e) in
        let at' = ap (stream_at i) now ∙ at in
        elim (Bool-cases (nat_eq i j)) [
          | inl hit ↦
              let same : j ≡ i = ground (arith, hit) in
              rw (sym there, same)
                (own-Before m url v (
                  subst
                    (λ (l : ℕ).
                      stream_at i (move_at marshal callbacks l m sys.world sys.served).0
                      ≡ some (url, running s'))
                    same at'))
          | inr differ ↦ inl (
            url,
            s',
            sym (stream_at-move_at_other marshal callbacks i j m sys.world sys.served differ) ∙ at',
            has,
          )
        ]

  pub advance-SlotsServe :
      (a : Action) (n : ℕ) (sys sys' : System)
      → IsSound sys.world
      → IsApart n sys.world (totals sys)
      → advance marshal callbacks a sys ≡ some sys'
      → SlotsServe sys
      → SlotsServe sys'
  advance-SlotsServe a n sys sys' v apart e serve i url s' k ch at has =
      elim (advance-Before i k ch s' sys has a url sys' v e at) [
        | inl (url0, s, at0, has0) ↦
            let made = channel_made n i k ch sys url0 s apart at0 has0 in
            let type_url = type_url_of k in
            advance-Carries (AsksOnly ch type_url) (AnswersOnly ch type_url) AnySnapshot
              (due-AnswersOnly ch type_url) marshal callbacks a sys sys'
              (λ l req known same. absurd (omega (arith, same, made))) (any_stores a) e
              (serve i url0 s k ch at0 has0)
        | inr serves ↦ serves
      ]
