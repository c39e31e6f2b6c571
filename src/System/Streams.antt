-- ===== src/System/Streams.antt =====
-- Each stream of the program is a run of `process`: what the others do to the cache between its
-- rounds is all that it sees of them.
use bent.System.Processes.{synced_self, move-IsProcess, IsProcess, others-IsProcess}
use bent.System.{
  new_system, moves, connects, stores, Action, advance, run_system, moved, opened, Move, world_of,
  move_at, System,
}
use bent.Server.Watcher.{snapshot_watcher}
use bent.Server.{Callbacks}
use bent.Server.Process.{process, loop, Outcome}
use bent.Cache.Resource.{Resource}
use bent.Cache.Simple.{set_snapshot, World}
use bent.Shared.{
  Option-cases, length, ℕ, zero, suc, ◌+◌, String, ◌≡◌, refl, subst, inl, inr, Bool, Option, none,
  some, List, [], ◌∷◌, ◌++◌, arith,
}

-- The moves of a stream, one more.
abbrev heard_at : ℕ → Move → List (List Move) → List (List Move)
heard_at i m [] = []
heard_at zero m (ms ∷ rest) = (ms ++ m ∷ []) ∷ rest
heard_at (suc i) m (ms ∷ rest) = ms ∷ heard_at i m rest

abbrev heard : Action → List (List Move) → List (List Move)
heard (stores node snapshot) hs = hs
heard (connects url) hs = hs ++ [] ∷ []
heard (moves i m) hs = heard_at i m hs

-- The moves of each stream, in order: what the actions of a run since it was opened tell it.
abbrev pub histories_from : List Action → List (List Move) → List (List Move)
histories_from [] hs = hs
histories_from (a ∷ rest) hs = histories_from rest (heard a hs)

abbrev pub histories : List Action → List (List Move)
histories actions = histories_from actions []

module _ (marshal : Resource → Option (List ℕ)) (callbacks : Option Callbacks) where
  abbrev pub AllProcesses :
      ℕ → World → List (List Move) → List (String × Outcome snapshot_watcher) → Type 0
  AllProcesses n w [] [] = Unit
  AllProcesses n w [] (x ∷ rest) = ⊥
  AllProcesses n w (ms ∷ hs) [] = ⊥
  AllProcesses n w (ms ∷ hs) ((url, o) ∷ rest) =
      IsProcess marshal callbacks n w ms url o × AllProcesses n w hs rest

  others-AllProcesses :
      (n : ℕ) (w w' : World) (hs : List (List Move))
      (served : List (String × Outcome snapshot_watcher))
      → AllProcesses n w hs served
      → AllProcesses (n + 1) w' hs served
  others-AllProcesses n w w' [] [] h = tt
  others-AllProcesses n w w' [] (x ∷ rest) h = absurd h
  others-AllProcesses n w w' (ms ∷ hs) [] h = absurd h
  others-AllProcesses n w w' (ms ∷ hs) ((url, o) ∷ rest) h = (
    others-IsProcess marshal callbacks n w w' ms url o h.0,
    others-AllProcesses n w w' hs rest h.1,
  )

  move_at-AllProcesses :
      (i n : ℕ) (m : Move) (w : World) (hs : List (List Move))
      (served : List (String × Outcome snapshot_watcher))
      → AllProcesses n w hs served
      → AllProcesses
          (n + 1)
          (move_at marshal callbacks i m w served).1
          (heard_at i m hs)
          (move_at marshal callbacks i m w served).0
  unfolding move_at
  move_at-AllProcesses i n m w [] [] h = tt
  move_at-AllProcesses i n m w [] (x ∷ rest) h = absurd h
  move_at-AllProcesses i n m w (ms ∷ hs) [] h = absurd h
  move_at-AllProcesses zero n m w (ms ∷ hs) ((url, o) ∷ rest) h = (
    move-IsProcess marshal callbacks n m w ms url o h.0,
    others-AllProcesses n w (moved marshal callbacks url m w o) hs rest h.1,
  )
  move_at-AllProcesses (suc i) n m w (ms ∷ hs) ((url, o) ∷ rest) h = (
    others-IsProcess marshal callbacks n w (move_at marshal callbacks i m w rest).1 ms url o h.0,
    move_at-AllProcesses i n m w hs rest h.1,
  )

  append-AllProcesses :
      (n : ℕ) (w : World) (url : String) (o : Outcome snapshot_watcher) (hs : List (List Move))
      (served : List (String × Outcome snapshot_watcher))
      → AllProcesses n w hs served
      → IsProcess marshal callbacks n w [] url o
      → AllProcesses n w (hs ++ [] ∷ []) (served ++ (url, o) ∷ [])
  append-AllProcesses n w url o [] [] h p = (p, tt)
  append-AllProcesses n w url o [] (x ∷ rest) h p = absurd h
  append-AllProcesses n w url o (ms ∷ hs) [] h p = absurd h
  append-AllProcesses n w url o (ms ∷ hs) ((url', o') ∷ served) h p =
      (h.0, append-AllProcesses n w url o hs served h.1 p)

  opened-IsProcess :
      (n : ℕ) (url : String) (sys : System)
      → IsProcess marshal callbacks n
          (world_of sys.world (opened marshal callbacks url sys))
          []
          url
          (opened marshal callbacks url sys)
  unfolding process loop
  opened-IsProcess n url sys = record {
    count = sys.stream_count;
    first = sys.world;
    events = [];
    within = omega arith;
    same = synced_self marshal callbacks sys.world (opened marshal callbacks url sys);
    late = [];
    own = refl;
    ended = inl refl;
  }

  abbrev AreProcesses : ℕ → List (List Move) → Option System → Type 0
  AreProcesses n hs none = Unit
  AreProcesses n hs (some sys) = AllProcesses n sys.world hs sys.served

  advance-AreProcesses :
      (n : ℕ) (a : Action) (hs : List (List Move)) (sys : System)
      → AllProcesses n sys.world hs sys.served
      → AreProcesses (n + 1) (heard a hs) (advance marshal callbacks a sys)
  unfolding advance
  advance-AreProcesses n (stores node snapshot) hs sys h =
      elim (Option-cases (set_snapshot node snapshot sys.world)) [
        | inl stuck ↦ rw stuck tt
        | inr (w, stored) ↦ rw stored (others-AllProcesses n sys.world w hs sys.served h)
      ]
  advance-AreProcesses n (connects url) hs sys h =
      let o = opened marshal callbacks url sys in
      let w = world_of sys.world o in
      append-AllProcesses (n + 1) w url o hs sys.served
        (others-AllProcesses n sys.world w hs sys.served h) (opened-IsProcess (n + 1) url sys)
  advance-AreProcesses n (moves i m) hs sys h = move_at-AllProcesses i n m sys.world hs sys.served h

  run_system-AreProcesses :
      (n k : ℕ) (actions : List Action) (hs : List (List Move)) (sys : System)
      → n + length actions ≡ k
      → AllProcesses n sys.world hs sys.served
      → AreProcesses k (histories_from actions hs) (run_system marshal callbacks actions sys)
  unfolding run_system
  run_system-AreProcesses n k [] hs sys total h =
      let same : n ≡ k = omega (arith, total) in
      subst (λ (i : ℕ). AllProcesses i sys.world hs sys.served) same h
  run_system-AreProcesses n k (a ∷ actions) hs sys total h =
      elim (Option-cases (advance marshal callbacks a sys)) [
        | inl stuck ↦ rw stuck tt
        | inr (sys1, e) ↦ rw e (
            run_system-AreProcesses (n + 1) k actions (heard a hs) sys1 (omega (arith, total))
              (subst (AreProcesses (n + 1) (heard a hs)) e (advance-AreProcesses n a hs sys h)))
      ]

  -- In each run of the program, each stream is a run of `process`, from some count of streams and
  -- some state of the cache, on no more events than the run has actions. The events that do not
  -- stand for the other goroutines are, one for one and in order, what the actions of the run have
  -- told the stream: all of it while it runs, and what came before it ended if it has ended.
  pub run_system-AllProcesses :
      (ads : Bool) (actions : List Action) (sys : System)
      → run_system marshal callbacks actions (new_system ads) ≡ some sys
      → AllProcesses (length actions) sys.world (histories actions) sys.served
  unfolding new_system
  run_system-AllProcesses ads actions sys e =
      subst (AreProcesses (length actions) (histories actions)) e
        (run_system-AreProcesses 0 (length actions) actions [] (new_system ads) (omega arith) tt)
