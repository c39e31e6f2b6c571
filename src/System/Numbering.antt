-- ===== src/System/Numbering.antt =====
-- The nonces of all the streams of the program.
use bent.System.Processes.{IsProcess, synced}
use bent.System.Streams.{run_system-AllProcesses, AllProcesses, histories}
use bent.Server.Process.Nonces.{process-NumberedTo}
use bent.Server.Process.Numbered.{NumberedTo}
use bent.System.{Move, new_system, Action, run_system, System}
use bent.Server.Watcher.{snapshot_watcher}
use bent.Server.{Callbacks}
use bent.Server.Process.{blocked, returned, running, Outcome}
use bent.Cache.Resource.{Resource}
use bent.Cache.Simple.{int64_mod, World}
use bent.Shared.{
  length, ℕ, ◌≤◌, ◌<◌, String, ◌≡◌, sym, subst, Bool, Option, some, List, [], ◌∷◌, arith,
}

-- The responses of each stream are numbered, and there are at most so many.
abbrev pub AllNumbered : ℕ → List (String × Outcome snapshot_watcher) → Type 0
AllNumbered n [] = Unit
AllNumbered n ((url, o) ∷ rest) = NumberedTo n o × AllNumbered n rest

module _ (marshal : Resource → Option (List ℕ)) (callbacks : Option Callbacks) where
  NumberedTo-synced :
      (k n : ℕ) (w : World) (o : Outcome snapshot_watcher)
      → k ≤ n
      → NumberedTo k (synced w o)
      → NumberedTo n o
  NumberedTo-synced k n w (running s) le v = (v.0, omega (arith, le, v.1))
  NumberedTo-synced k n w (returned status s) le v = (v.0, omega (arith, le, v.1))
  NumberedTo-synced k n w blocked le v = tt

  IsProcess-NumberedTo :
      (n : ℕ) (w : World) (ms : List Move) (url : String) (o : Outcome snapshot_watcher)
      → n < int64_mod
      → IsProcess marshal callbacks n w ms url o
      → NumberedTo n o
  IsProcess-NumberedTo n w ms url o few p = NumberedTo-synced (length p.events) n w o p.within (
      subst (NumberedTo (length p.events)) (sym p.same) (
        process-NumberedTo snapshot_watcher marshal callbacks url p.count p.first p.events
          (omega (arith, p.within, few))))

  AllProcesses-AllNumbered :
      (n : ℕ) (w : World) (hs : List (List Move))
      (served : List (String × Outcome snapshot_watcher))
      → n < int64_mod
      → AllProcesses marshal callbacks n w hs served
      → AllNumbered n served
  AllProcesses-AllNumbered n w [] [] few h = tt
  AllProcesses-AllNumbered n w (ms ∷ hs) [] few h = tt
  AllProcesses-AllNumbered n w [] (x ∷ rest) few h = absurd h
  AllProcesses-AllNumbered n w (ms ∷ hs) ((url, o) ∷ rest) few h =
      (IsProcess-NumberedTo n w ms url o few h.0, AllProcesses-AllNumbered n w hs rest few h.1)

  -- In each run of fewer than 2 ^ 64 actions, each stream numbers the responses that it sends from
  -- 1 on in order, whatever the other streams and the updater do in between.
  pub run_system-AllNumbered :
      (ads : Bool) (actions : List Action) (sys : System)
      → length actions < int64_mod
      → run_system marshal callbacks actions (new_system ads) ≡ some sys
      → AllNumbered (length actions) sys.served
  run_system-AllNumbered ads actions sys few e =
      AllProcesses-AllNumbered (length actions) sys.world (histories actions) sys.served few
        (run_system-AllProcesses marshal callbacks ads actions sys e)
