-- ===== src/System/Reachable.antt =====
-- The states that the program reaches, if it holds no response back.
use bent.Cache.Simple.Sound.{new_snapshot_cache-IsSound}
use bent.Cache.Simple.Canceling.{cancel_watch-counters}
use bent.System.Meanwhile.{advance-WaitsAt}
use bent.System.Apart.{some_inj, new_system-IsApart, advance-IsApart, totals, IsApart}
use bent.Cache.Simple.Current.{new_snapshot_cache-IsCurrent}
use bent.Cache.Simple.Notify.{set_snapshot-IsNotified}
use bent.Cache.Simple.Watched.{create_watch-IsWatched}
use bent.System.Waiting.{WaitsAt, IsAside}
use bent.Server.{Callbacks, Kind}
use bent.Cache.Resource.{Resource}
use bent.Cache.Simple.{new_snapshot_cache, int64_mod, World}
use bent.System.Sound.{advance-Keeps, Keeps, IsHealthy-IsStable, IsHealthy, IsStable}
use bent.System.{new_system, run_system, System, Action}
use bent.Shared.{
  length, ℕ, ◌+◌, ◌<◌, ◌≡◌, refl, sym, ◌∙◌, subst, false, Option, some, List, [], ◌∷◌, arith,
}

-- No action takes the response of a kind out of the channel of a stream.
abbrev pub AllAside : ℕ → Kind → List Action → Type 0
AllAside i k [] = Unit
AllAside i k (a ∷ rest) = IsAside i k a × AllAside i k rest

-- No response is held back, and the cache is sound and up to date.
abbrev pub IsPlain : World → Type 0
IsPlain w = IsHealthy w × (w.ads ≡ false)

pub IsPlain-IsStable : IsStable IsPlain
IsPlain-IsStable = record {
  kept = record {
    cancels =
        λ f w v. (IsHealthy-IsStable.kept.cancels f w v.0, (cancel_watch-counters f w).2 ∙ v.1);
    creates = λ req now w v.
        let (r, w', e, v') = IsHealthy-IsStable.kept.creates req now w v.0 in
        (r, w', e, (v', (create_watch-IsWatched req now w e).mode ∙ v.1));
    receives = λ ch w resp chs v got. (IsHealthy-IsStable.kept.receives ch w resp chs v.0 got, v.1);
  };
  stores = λ node snapshot w v.
      let (w', e, v') = IsHealthy-IsStable.stores node snapshot w v.0 in
      (w', e, (v', (set_snapshot-IsNotified node snapshot w w' e).mode ∙ v.1));
}

pub new_system-IsPlain : Keeps IsPlain (new_system false)
unfolding new_system new_snapshot_cache
new_system-IsPlain = record {
  world = ((new_snapshot_cache-IsSound false, new_snapshot_cache-IsCurrent false), refl);
  streams = tt;
}

module _ (marshal : Resource → Option (List ℕ)) (callbacks : Option Callbacks) where
  pub run_system-WaitsAt :
      (later : List Action) (n i : ℕ) (k : Kind) (sys : System)
      → n + length later < int64_mod
      → Keeps IsPlain sys
      → IsApart n sys.world (totals sys)
      → AllAside i k later
      → WaitsAt i k sys
      → (sys' : System) × (run_system marshal callbacks later sys ≡ some sys')
        × Keeps IsPlain sys'
        × WaitsAt i k sys'
  unfolding run_system
  run_system-WaitsAt [] n i k sys bound keeps apart aside waits = (sys, refl, keeps, waits)
  run_system-WaitsAt (a ∷ later) n i k sys bound keeps apart aside waits =
      let (sys1, e, keeps1) =
        advance-Keeps IsPlain IsPlain-IsStable marshal callbacks a sys keeps in
      let few : n + 1 < int64_mod = omega (arith, bound) in
      let waits1 =
        advance-WaitsAt marshal callbacks a n i k sys sys1 few keeps.world.1 apart aside.0 e
          waits in
      let apart1 = advance-IsApart marshal callbacks a n sys sys1 few e apart in
      let (sys2, e', keeps2, waits2) =
        run_system-WaitsAt later (n + 1) i k sys1 (omega (arith, bound)) keeps1 apart1 aside.1
          waits1 in
      (sys2, rw e e', keeps2, waits2)

  run_system-IsApart :
      (actions : List Action) (n : ℕ) (sys : System)
      → n + length actions < int64_mod
      → Keeps IsPlain sys
      → IsApart n sys.world (totals sys)
      → (sys' : System) × (run_system marshal callbacks actions sys ≡ some sys')
        × Keeps IsPlain sys'
        × IsApart (n + length actions) sys'.world (totals sys')
  unfolding run_system
  run_system-IsApart [] n sys bound keeps apart =
      (sys, refl, keeps, subst (λ (l : ℕ). IsApart l sys.world (totals sys)) (omega arith) apart)
  run_system-IsApart (a ∷ rest) n sys bound keeps apart =
      let (sys1, e, keeps1) =
        advance-Keeps IsPlain IsPlain-IsStable marshal callbacks a sys keeps in
      let apart1 = advance-IsApart marshal callbacks a n sys sys1 (omega (arith, bound)) e apart in
      let (sys2, e', keeps2, apart2) =
        run_system-IsApart rest (n + 1) sys1 (omega (arith, bound)) keeps1 apart1 in
      (
        sys2,
        rw e e',
        keeps2,
        subst (λ (l : ℕ). IsApart l sys2.world (totals sys2)) (omega arith) apart2,
      )

  pub reachable :
      (actions : List Action) (sys : System)
      → length actions < int64_mod
      → run_system marshal callbacks actions (new_system false) ≡ some sys
      → Keeps IsPlain sys × IsApart (length actions) sys.world (totals sys)
  reachable actions sys bound e =
      let (sys', e', keeps, apart) =
        run_system-IsApart actions 0 (new_system false) (omega (arith, bound)) new_system-IsPlain
          (new_system-IsApart false) in
      let same : sys' ≡ sys = some_inj (sym e' ∙ e) in
      let none_before : 0 + length actions ≡ length actions = omega arith in
      subst (λ (u : System). Keeps IsPlain u × IsApart (length actions) u.world (totals u)) same
        (keeps, subst (λ (n : ℕ). IsApart n sys'.world (totals sys')) none_before apart)
