-- ===== src/System/Waiting.antt =====
-- A stream whose client waits for a response, beside the other streams.
use bent.System.Owned.{own_move}
use bent.Server.Process.Turns.{handle-Turn}
use bent.Cache.Simple.Awaited.{Awaits, IsOld}
use bent.System.Apart.{totals, IsApart}
use bent.System.Spared.{Turn-Awaits, Turn-Waits, IsSpared-beside, IsSpared, Waits}
use bent.Cache.Simple.{int64_mod, Cancel, World}
use bent.Server.Watcher.{snapshot_watcher}
use bent.System.Slots.{
  total, weight, weight-pair_le, holds_channel, held-le-total, held-pair_le, holds_cancel,
  weight-slot_le, Weight, stream_at,
}
use bent.Server.Process.{blocked, returned, running, ready, Stream, Outcome}
use bent.Cache.Resource.{Resource}
use bent.Server.{slot, Callbacks, Kind}
use bent.System.{
  event_of, moved, move, move_at, System, Action, stores, connects, moves, Move, flushes, arrives,
  breaks, ends,
}
use bent.Shared.{
  nat_eq, ==_refl, ℕ, zero, suc, ◌+◌, ◌≤◌, ◌<◌, String, ◌≡◌, refl, ◌≢◌, ◌⊎◌, inl, inr, Bool, false,
  Option, none, some, List, [], ◌∷◌, ◌++◌, arith, string_key, nat_key,
}

-- The client of the stream at a position waits for a response of a kind.
abbrev pub WaitsFrom : Kind → Option (String × Outcome snapshot_watcher) → World → Type 0
WaitsFrom k none w = ⊥
WaitsFrom k (some (url, o)) w = Waits k o w

abbrev pub WaitsAt : ℕ → Kind → System → Type 0
WaitsAt i k sys = WaitsFrom k (stream_at i sys.served) sys.world

-- The action does not take the response of a kind out of the channel of a stream.
abbrev pub IsAside : ℕ → Kind → Action → Type 0
IsAside i k (stores node snapshot) = Unit
IsAside i k (connects url) = Unit
IsAside i k (moves j (flushes l ok)) = i ≡ j → ¬ (k ≡ l)
IsAside i k (moves j (arrives req now)) = Unit
IsAside i k (moves j (breaks l)) = Unit
IsAside i k (moves j ends) = Unit

aside_event :
    (i : ℕ) (k : Kind) (m : Move) → IsAside i k (moves i m) → (ok : Bool) → event_of m ≢ ready k ok
aside_event i k (flushes l ok') aside ok = λ e. aside refl cc
aside_event i k (arrives req now) aside ok = λ e. cc
aside_event i k (breaks l) aside ok = λ e. cc
aside_event i k ends aside ok = λ e. cc

pub stream_at-append :
    (i : ℕ) (served more : List (String × Outcome snapshot_watcher))
    {x : String × Outcome snapshot_watcher}
    → stream_at i served ≡ some x
    → stream_at i (served ++ more) ≡ some x
stream_at-append i [] more e = cc
stream_at-append zero (y ∷ served) more e = e
stream_at-append (suc i) (y ∷ served) more e = stream_at-append i served more e

module _ (marshal : Resource → Option (List ℕ)) (callbacks : Option Callbacks) where
  -- The stream that moves.
  pub stream_at-move_at :
      (i : ℕ) (m : Move) (w : World) (served : List (String × Outcome snapshot_watcher))
      {url : String} {o : Outcome snapshot_watcher}
      → stream_at i served ≡ some (url, o)
      → (stream_at i (move_at marshal callbacks i m w served).0
          ≡ some (url, move marshal callbacks url m w o))
        × ((move_at marshal callbacks i m w served).1 ≡ moved marshal callbacks url m w o)
  unfolding move_at
  stream_at-move_at i m w [] e = cc
  stream_at-move_at zero m w ((other, p) ∷ served) {url} {o} e =
      (ground (arith, e), ground (arith, e))
  stream_at-move_at (suc i) m w ((other, p) ∷ served) e = stream_at-move_at i m w served e

  -- The others stay.
  pub stream_at-move_at_other :
      (i j : ℕ) (m : Move) (w : World) (served : List (String × Outcome snapshot_watcher))
      → nat_eq i j ≡ false
      → stream_at i (move_at marshal callbacks j m w served).0 ≡ stream_at i served
  unfolding move_at
  stream_at-move_at_other i j m w [] e = refl
  stream_at-move_at_other zero zero m w (x ∷ served) e = absurd (ground (arith, e))
  stream_at-move_at_other zero (suc j) m w (x ∷ served) e = refl
  stream_at-move_at_other (suc i) zero m w (x ∷ served) e = refl
  stream_at-move_at_other (suc i) (suc j) m w (x ∷ served) e =
      stream_at-move_at_other i j m w served (ground (arith, e))

  -- There is no stream to move.
  pub move_at-none :
      (i : ℕ) (m : Move) (w : World) (served : List (String × Outcome snapshot_watcher))
      → stream_at i served ≡ none
      → (move_at marshal callbacks i m w served).1 ≡ w
  unfolding move_at
  move_at-none i m w [] e = refl
  move_at-none zero m w (x ∷ served) e = cc
  move_at-none (suc i) m w (x ∷ served) e = move_at-none i m w served e

  module _ (n i : ℕ) (k : Kind) (ch : ℕ) (sys : System) (url : String) (s : Stream snapshot_watcher)
      (apart : IsApart n sys.world (totals sys))
      (at : stream_at i sys.served ≡ some (url, running s))
      (has : (slot k s.values).channel ≡ some ch) where
    slot-IsOld : (f : Option Cancel) → (slot k s.values).cancel ≡ f → IsOld f sys.world.watch_count
    slot-IsOld none e = tt
    slot-IsOld (some d) e =
        let le = weight-slot_le (holds_cancel d) k s.values in
        let le' = held-le-total (holds_cancel d) i sys.served at in
        ground (arith, e, le, le', ==_refl d.node, ==_refl d.watch, apart.new_watches d)

    others_le :
        (j : ℕ) (url' : String) (s' : Stream snapshot_watcher) (l : Kind) (p : Weight)
        → i ≢ j
        → stream_at j sys.served ≡ some (url', running s')
        → weight p (slot k s.values) + weight p (slot l s'.values) ≤ total p sys.served
    others_le j url' s' l p differ at' =
        let mine = weight-slot_le p k s.values in
        let theirs = weight-slot_le p l s'.values in
        let both = held-pair_le p i j sys.served differ at at' in omega (arith, mine, theirs, both)

    others-IsSpared :
        (j : ℕ) (url' : String) (s' : Stream snapshot_watcher)
        → i ≢ j
        → stream_at j sys.served ≡ some (url', running s')
        → (l : Kind) → IsSpared ch (slot k s.values).cancel (slot l s'.values)
    others-IsSpared j url' s' differ at' l =
        let le = others_le j url' s' l (holds_channel ch) differ at' in
        IsSpared-beside ch (slot k s.values) (slot l s'.values) has
          (omega (arith, le, apart.one_channel ch))
          (λ d.
            let le' = others_le j url' s' l (holds_cancel d) differ at' in
            omega (arith, le', apart.one_cancel d))

    own-IsSpared : (l : Kind) → (l ≡ k) ⊎ IsSpared ch (slot k s.values).cancel (slot l s.values)
    own-IsSpared l = elim (weight-pair_le l k s.values) [
      | inl same ↦ inl same
      | inr below ↦
          let le = below (holds_channel ch) refl in
          let le' = held-le-total (holds_channel ch) i sys.served at in
          inr (
            IsSpared-beside ch (slot k s.values) (slot l s.values) has
              (omega (arith, le, le', apart.one_channel ch))
              (λ d.
                let less = below (holds_cancel d) refl in
                let less' = held-le-total (holds_cancel d) i sys.served at in
                omega (arith, less, less', apart.one_cancel d)))
    ]

    -- The stream itself moves.
    pub own-Waits :
        (m : Move)
        → n + 1 < int64_mod
        → sys.world.ads ≡ false
        → IsAside i k (moves i m)
        → Awaits ch (slot k s.values).cancel sys.world
        → Waits k
            (move marshal callbacks url m sys.world (running s))
            (moved marshal callbacks url m sys.world (running s))
    unfolding move
    own-Waits m bound mode aside a =
        let s' : Stream snapshot_watcher = record s { state = sys.world } in
        Turn-Waits marshal callbacks k ch (event_of m) s' _ has own-IsSpared
          (slot-IsOld (slot k s.values).cancel refl) (omega (arith, bound, apart.few)) mode
          (aside_event i k m aside) (handle-Turn marshal callbacks url (event_of m) s' (own_move m))
          a

    -- Another stream moves.
    pub other-Awaits :
        (j : ℕ) (m : Move) (url' : String) (o : Outcome snapshot_watcher)
        → i ≢ j
        → n + 1 < int64_mod
        → stream_at j sys.served ≡ some (url', o)
        → Awaits ch (slot k s.values).cancel sys.world
        → Awaits ch (slot k s.values).cancel (moved marshal callbacks url' m sys.world o)
    unfolding move
    other-Awaits j m url' (returned status s') differ bound at' a = a
    other-Awaits j m url' blocked differ bound at' a = a
    other-Awaits j m url' (running s') differ bound at' a =
        let s'' : Stream snapshot_watcher = record s' { state = sys.world } in
        Turn-Awaits marshal callbacks ch (slot k s.values).cancel (event_of m) s'' _
          (others-IsSpared j url' s' differ at') (slot-IsOld (slot k s.values).cancel refl)
          (omega (arith, bound, apart.few))
          (handle-Turn marshal callbacks url' (event_of m) s'' (own_move m)) a
