-- ===== src/System/Owned.antt =====
-- No watch of the cache is lost: each open one is held by the stream that will cancel it.
use bent.System.Sound.{IsUnstuck, NoneStuck}
use bent.Server.Process.Guarded.{fresh, start-Guarded, handle-Guarded, finish-Released}
use bent.Server.Process.Held.{is_own, has_cancel, booleans, Released, still_holds, guards}
use bent.Server.Watcher.{snapshot_watcher}
use bent.Cache.Simple.Opening.{is_open}
use bent.Server.{Callbacks}
use bent.Server.Process.{blocked, returned, running, Stream, Outcome}
use bent.Cache.Resource.{Resource}
use bent.System.{
  ends, breaks, flushes, arrives, opened, event_of, world_of, moved, Move, move, move_at, System,
}
use bent.Cache.Simple.{World, Cancel}
use bent.Shared.{
  ℕ, zero, suc, String, ◌≡◌, refl, Bool, true, false, not, ◌||◌, Option, List, [], ◌∷◌, ◌++◌, arith,
}

-- Some stream that has not returned holds the watch that a cancel function is for.
abbrev pub owned : Cancel → List (String × Outcome snapshot_watcher) → Bool
owned d [] = false
owned d ((url, o) ∷ rest) = still_holds d o || owned d rest

abbrev pub IsOwned : System → Type 0
IsOwned sys = (d : Cancel) → (not (is_open d sys.world) || owned d sys.served) ≡ true

pub own_move : (m : Move) → is_own (event_of m) ≡ true
own_move (arrives req now) = refl
own_move (flushes k ok) = refl
own_move (breaks k) = refl
own_move ends = refl

pub owned-append :
    (d : Cancel) (served : List (String × Outcome snapshot_watcher)) (url : String)
    (o : Outcome snapshot_watcher)
    → owned d (served ++ (url, o) ∷ []) ≡ (still_holds d o || owned d served)
owned-append d [] url o = refl
owned-append d ((other, p) ∷ served) url o = ground (arith, owned-append d served url o)

module _ (marshal : Resource → Option (List ℕ)) (callbacks : Option Callbacks) (d : Cancel) where
  guards-Released :
      (s : Stream snapshot_watcher) (w : World) (o : Outcome snapshot_watcher)
      → IsUnstuck o
      → Released d s o
      → guards
          (is_open d s.state)
          (has_cancel d s.values)
          (is_open d (world_of w o))
          (still_holds d o)
        ≡ true
  guards-Released s w (running s') u r = r
  guards-Released s w (returned status s') u r = r
  guards-Released s w blocked u r = absurd u

  move-guards :
      (url : String) (m : Move) (w : World) (o : Outcome snapshot_watcher)
      → IsUnstuck (move marshal callbacks url m w o)
      → guards
          (is_open d w)
          (still_holds d o)
          (is_open d (moved marshal callbacks url m w o))
          (still_holds d (move marshal callbacks url m w o))
        ≡ true
  unfolding move
  move-guards url m w (running s) u =
      let s' : Stream snapshot_watcher = record s { state = w } in
      guards-Released s' w _ u (
        finish-Released marshal callbacks d s' _
          (handle-Guarded marshal callbacks d url (event_of m) s' (own_move m)))
  move-guards url m w (returned status s) u = booleans (is_open d w) false
  move-guards url m w blocked u = absurd u

  -- Another stream holds what it held.
  beside :
      (here mine rest after rest' : Bool)
      → guards here rest after rest' ≡ true
      → guards here (mine || rest) after (mine || rest') ≡ true
  beside here mine rest after rest' g = ground (arith, g)

  ahead :
      (here mine rest after mine' : Bool)
      → guards here mine after mine' ≡ true
      → guards here (mine || rest) after (mine' || rest) ≡ true
  ahead here mine rest after mine' g = ground (arith, g)

  pub move_at-guards :
      (i : ℕ) (m : Move) (w : World) (served : List (String × Outcome snapshot_watcher))
      → NoneStuck (move_at marshal callbacks i m w served).0
      → guards
          (is_open d w)
          (owned d served)
          (is_open d (move_at marshal callbacks i m w served).1)
          (owned d (move_at marshal callbacks i m w served).0)
        ≡ true
  unfolding move_at
  move_at-guards i m w [] u = booleans (is_open d w) false
  move_at-guards zero m w ((url, o) ∷ rest) u =
      ahead (is_open d w) (still_holds d o) (owned d rest)
        (is_open d (moved marshal callbacks url m w o))
        (still_holds d (move marshal callbacks url m w o)) (move-guards url m w o u.0)
  move_at-guards (suc i) m w ((url, o) ∷ rest) u =
      beside (is_open d w) (still_holds d o) (owned d rest)
        (is_open d (move_at marshal callbacks i m w rest).1)
        (owned d (move_at marshal callbacks i m w rest).0) (move_at-guards i m w rest u.1)

  pub opened-guards :
      (url : String) (sys : System)
      → IsUnstuck (opened marshal callbacks url sys)
      → guards
          (is_open d sys.world)
          false
          (is_open d (world_of sys.world (opened marshal callbacks url sys)))
          (still_holds d (opened marshal callbacks url sys))
        ≡ true
  opened-guards url sys u =
      let s = fresh marshal callbacks sys.stream_count sys.world in
      guards-Released s sys.world (opened marshal callbacks url sys) u (
        finish-Released marshal callbacks d s _
          (start-Guarded marshal callbacks d url sys.stream_count sys.world))

pub NoneStuck-last :
    (served : List (String × Outcome snapshot_watcher)) (url : String)
    (o : Outcome snapshot_watcher)
    → NoneStuck (served ++ (url, o) ∷ [])
    → IsUnstuck o
NoneStuck-last [] url o h = h.0
NoneStuck-last ((other, p) ∷ served) url o h = NoneStuck-last served url o h.1

pub joined :
    (before mine after last : Bool)
    → guards before false after last ≡ true
    → guards before mine after (last || mine) ≡ true
joined before mine after last g = ground (arith, g)

-- The invariant after a step.
pub IsOwned-step :
    (before owned_before after owned_after : Bool)
    → guards before owned_before after owned_after ≡ true
    → (not before || owned_before) ≡ true
    → (not after || owned_after) ≡ true
IsOwned-step before owned_before after owned_after g h = ground (arith, g, h)
