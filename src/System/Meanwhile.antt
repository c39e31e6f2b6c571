-- ===== src/System/Meanwhile.antt =====
-- What an action does to a client that waits for a response.
use bent.System.Effects.{opened-Started}
use bent.Cache.Simple.Awaited.{Awaits-set_snapshot, Awaits}
use bent.Cache.Snapshot.{Snapshot}
use bent.System.Spared.{Waits}
use bent.System.Apart.{some_inj, totals, IsApart}
use bent.Server.Watcher.{snapshot_watcher}
use bent.System.Slots.{stream_at}
use bent.System.Waiting.{
  own-Waits, other-Awaits, move_at-none, stream_at-append, stream_at-move_at,
  stream_at-move_at_other, WaitsFrom, WaitsAt, IsAside,
}
use bent.Server.Process.{Stream, blocked, returned, running, Outcome}
use bent.Cache.Resource.{Resource}
use bent.Server.{slot, Callbacks, Kind}
use bent.Cache.Simple.{set_snapshot, int64_mod, World}
use bent.System.{
  opened, stored, move_at, move, advance, System, Action, stores, connects, moves, Move,
}
use bent.Shared.{
  nat_eq, Bool-cases, Option-cases, ℕ, ◌+◌, ◌<◌, String, ◌≡◌, sym, subst, ◌≢◌, inl, inr, false,
  Option, some, List, [], ◌∷◌, arith,
}

set_snapshot-Waits :
    (k : Kind) (node : String) (snapshot : Snapshot) (o : Outcome snapshot_watcher) (w w' : World)
    → w.ads ≡ false
    → set_snapshot node snapshot w ≡ some w'
    → Waits k o w
    → Waits k o w'
set_snapshot-Waits k node snapshot (running s) w w' mode e (ch, has, a) =
    (ch, has, Awaits-set_snapshot ch node snapshot (slot k s.values).cancel w w' mode e a)
set_snapshot-Waits k node snapshot (returned status s) w w' mode e waits = tt
set_snapshot-Waits k node snapshot blocked w w' mode e waits = tt

module _ (marshal : Resource → Option (List ℕ)) (callbacks : Option Callbacks) where
  module _ (n i : ℕ) (k : Kind) (sys : System) (url : String) (bound : n + 1 < int64_mod)
      (mode : sys.world.ads ≡ false) (apart : IsApart n sys.world (totals sys)) where
    own_move-WaitsAt :
        (m : Move) (o : Outcome snapshot_watcher)
        → IsAside i k (moves i m)
        → stream_at i sys.served ≡ some (url, o)
        → Waits k o sys.world
        → WaitsFrom k
            (stream_at i (move_at marshal callbacks i m sys.world sys.served).0)
            (move_at marshal callbacks i m sys.world sys.served).1
    unfolding move
    own_move-WaitsAt m (running s) aside at (ch, has, a) =
        let (there, here) = stream_at-move_at marshal callbacks i m sys.world sys.served at in
        rw (there, here)
          (own-Waits marshal callbacks n i k ch sys url s apart at has m bound mode aside a)
    own_move-WaitsAt m (returned status s) aside at waits =
        rw (stream_at-move_at marshal callbacks i m sys.world sys.served at).0 tt
    own_move-WaitsAt m blocked aside at waits =
        rw (stream_at-move_at marshal callbacks i m sys.world sys.served at).0 tt

    other_move-Awaits :
        (j : ℕ) (m : Move) (s : Stream snapshot_watcher) (ch : ℕ)
        → i ≢ j
        → stream_at i sys.served ≡ some (url, running s)
        → (slot k s.values).channel ≡ some ch
        → Awaits ch (slot k s.values).cancel sys.world
        → Awaits ch (slot k s.values).cancel (move_at marshal callbacks j m sys.world sys.served).1
    other_move-Awaits j m s ch differ at has a = elim (Option-cases (stream_at j sys.served)) [
      | inl missing ↦ rw (move_at-none marshal callbacks j m sys.world sys.served missing) a
      | inr ((url', o), at') ↦
          rw (stream_at-move_at marshal callbacks j m sys.world sys.served at').1 (
            other-Awaits marshal callbacks n i k ch sys url s apart at has j m url' o differ bound
              at' a)
    ]

    other_move-WaitsAt :
        (j : ℕ) (m : Move) (o : Outcome snapshot_watcher)
        → nat_eq i j ≡ false
        → stream_at i sys.served ≡ some (url, o)
        → Waits k o sys.world
        → WaitsFrom k
            (stream_at i (move_at marshal callbacks j m sys.world sys.served).0)
            (move_at marshal callbacks j m sys.world sys.served).1
    other_move-WaitsAt j m (running s) differ at (ch, has, a) =
        rw (stream_at-move_at_other marshal callbacks i j m sys.world sys.served differ, at)
          (ch, has, other_move-Awaits j m s ch (λ same. ground (arith, same, differ)) at has a)
    other_move-WaitsAt j m (returned status s) differ at waits =
        rw (stream_at-move_at_other marshal callbacks i j m sys.world sys.served differ, at) tt
    other_move-WaitsAt j m blocked differ at waits =
        rw (stream_at-move_at_other marshal callbacks i j m sys.world sys.served differ, at) tt

    moves-WaitsAt :
        (j : ℕ) (m : Move) (o : Outcome snapshot_watcher)
        → IsAside i k (moves j m)
        → stream_at i sys.served ≡ some (url, o)
        → Waits k o sys.world
        → WaitsFrom k
            (stream_at i (move_at marshal callbacks j m sys.world sys.served).0)
            (move_at marshal callbacks j m sys.world sys.served).1
    moves-WaitsAt j m o aside at waits = elim (Bool-cases (nat_eq i j)) [
      | inl hit ↦
          let same : i ≡ j = ground (arith, hit) in
          subst
            (λ (l : ℕ).
              WaitsFrom k (stream_at i (move_at marshal callbacks l m sys.world sys.served).0)
                (move_at marshal callbacks l m sys.world sys.served).1)
            same
            (own_move-WaitsAt m o (subst (λ (l : ℕ). IsAside i k (moves l m)) (sym same) aside) at
              waits)
      | inr differ ↦ other_move-WaitsAt j m o differ at waits
    ]

    stores-WaitsAt :
        (node : String) (snapshot : Snapshot) (o : Outcome snapshot_watcher) (sys' : System)
        → stored sys (set_snapshot node snapshot sys.world) ≡ some sys'
        → stream_at i sys.served ≡ some (url, o)
        → Waits k o sys.world
        → WaitsFrom k (stream_at i sys'.served) sys'.world
    stores-WaitsAt node snapshot o sys' e at waits =
        elim (Option-cases (set_snapshot node snapshot sys.world)) [
          | inl stuck ↦ absurd (ground (arith, e, stuck))
          | inr (w, kept) ↦
              let same : record sys { world = w } ≡ sys' = ground (arith, e, kept) in
              rw (sym same, at) (set_snapshot-Waits k node snapshot o sys.world w mode kept waits)
        ]

    advance-Waits :
        (a : Action) (o : Outcome snapshot_watcher) (sys' : System)
        → IsAside i k a
        → advance marshal callbacks a sys ≡ some sys'
        → stream_at i sys.served ≡ some (url, o)
        → Waits k o sys.world
        → WaitsAt i k sys'
    unfolding advance
    advance-Waits (stores node snapshot) o sys' aside e at waits =
        stores-WaitsAt node snapshot o sys' e at waits
    advance-Waits (connects url') o sys' aside e at waits =
        rw
          (
            sym (some_inj e),
            stream_at-append i sys.served ((url', opened marshal callbacks url' sys) ∷ []) at,
            (opened-Started marshal callbacks url' sys).world,
          )
          waits
    advance-Waits (moves j m) o sys' aside e at waits =
        rw (sym (some_inj e)) (moves-WaitsAt j m o aside at waits)

  pub advance-WaitsAt :
      (a : Action) (n i : ℕ) (k : Kind) (sys sys' : System)
      → n + 1 < int64_mod
      → sys.world.ads ≡ false
      → IsApart n sys.world (totals sys)
      → IsAside i k a
      → advance marshal callbacks a sys ≡ some sys'
      → WaitsAt i k sys
      → WaitsAt i k sys'
  advance-WaitsAt a n i k sys sys' bound mode apart aside e waits =
      elim (Option-cases (stream_at i sys.served)) [
        | inl missing ↦ absurd (rw missing at waits)
        | inr ((url, o), at) ↦
            advance-Waits n i k sys url bound mode apart a o sys' aside e at (rw at at waits)
      ]
