-- ===== src/System/Apart.antt =====
-- How often a channel or a watch is held by the slots of the streams (cmd/bent/main.go).
use bent.Cache.Simple.Notify.{set_snapshot-IsNotified}
use bent.Cache.Snapshot.{Snapshot}
use bent.Server.{Callbacks}
use bent.Cache.Resource.{Resource}
use bent.System.Effects.{move_at-Effect, opened-Started, fresh, still, Effect, IsNext}
use bent.System.Slots.{total-append, holds_cancel, holds_channel, IsNeutral, total, Weight}
use bent.Cache.Simple.{set_snapshot, new_snapshot_cache, Cancel, int64_mod, World}
use bent.System.{moves, opened, connects, stored, stores, advance, Action, new_system, System}
use bent.Shared.{
  Option-cases, ℕ, suc, ◌+◌, ◌≤◌, ◌<◌, String, ◌≡◌, refl, sym, ap, inl, inr, Bool, Option, none,
  some, List, arith,
}

abbrev pub totals : System → Weight → ℕ
totals sys p = total p sys.served

-- The channels and the cancel functions that are held were made by the cache, each for one slot;
-- at most `n` watches were opened.
pub record IsApart (n : ℕ) (w : World) (held_by : Weight → ℕ) : Type 0 where
  pub one_channel : (c : ℕ) → held_by (holds_channel c) ≤ 1
  pub one_cancel : (d : Cancel) → held_by (holds_cancel d) ≤ 1
  pub new_channels : (c : ℕ) → w.channels.next ≤ c → held_by (holds_channel c) ≡ 0
  pub new_watches : (d : Cancel) → w.watch_count < d.watch → held_by (holds_cancel d) ≡ 0
  pub few : w.watch_count ≤ n

module _ (w : World) (w' : World) (before after : Weight → ℕ) (n : ℕ) where
  still-IsApart :
      ((p : Weight) → IsNeutral p → after p ≤ before p)
      → w'.channels.next ≡ w.channels.next
      → w'.watch_count ≡ w.watch_count
      → IsApart n w before
      → IsApart (n + 1) w' after
  still-IsApart h next count a = record {
    one_channel = λ c. omega (arith, h (holds_channel c) refl, a.one_channel c);
    one_cancel = λ d. omega (arith, h (holds_cancel d) refl, a.one_cancel d);
    new_channels =
        λ c le. omega (arith, h (holds_channel c) refl, a.new_channels c (omega (arith, le, next)));
    new_watches =
        λ d lt. omega (arith, h (holds_cancel d) refl, a.new_watches d (omega (arith, lt, count)));
    few = omega (arith, count, a.few);
  }

  fresh-IsApart :
      (f : Option Cancel)
      → n + 1 < int64_mod
      → ((p : Weight) → IsNeutral p → after p ≤ before p + p (some w.channels.next) f)
      → w'.channels.next ≡ suc w.channels.next
      → IsNext f w.watch_count w'.watch_count
      → IsApart n w before
      → IsApart (n + 1) w' after
  fresh-IsApart none bound h next count a = record {
    one_channel = λ e. ground (arith, h (holds_channel e) refl, a.one_channel e, a.new_channels e);
    one_cancel = λ d. omega (arith, h (holds_cancel d) refl, a.one_cancel d);
    new_channels = λ e le.
        ground (arith, h (holds_channel e) refl, le, a.new_channels e (omega (arith, le, next)));
    new_watches =
        λ d lt. omega (arith, h (holds_cancel d) refl, a.new_watches d (omega (arith, lt, count)));
    few = omega (arith, count, a.few);
  }
  fresh-IsApart (some c) bound h next count a = record {
    one_channel = λ e. ground (arith, h (holds_channel e) refl, a.one_channel e, a.new_channels e);
    one_cancel = λ d. ground (
      arith,
      h (holds_cancel d) refl,
      a.one_cancel d,
      a.new_watches d,
      next,
      count,
      a.few,
      bound,
    );
    new_channels = λ e le.
        ground (arith, h (holds_channel e) refl, le, a.new_channels e (omega (arith, le, next)));
    new_watches = λ d lt. ground (
      arith,
      h (holds_cancel d) refl,
      lt,
      count,
      a.new_watches d (omega (arith, lt, count, a.few, bound)),
    );
    few = omega (arith, count, a.few, bound);
  }

  pub Effect-IsApart :
      n + 1 < int64_mod → Effect w w' before after → IsApart n w before → IsApart (n + 1) w' after
  Effect-IsApart bound (still h next count) a = still-IsApart h next count a
  Effect-IsApart bound (fresh f h next count) a = fresh-IsApart f bound h next count a

pub some_inj : {a b : System} → some a ≡ some b → a ≡ b
some_inj e = cc

module _ (marshal : Resource → Option (List ℕ)) (callbacks : Option Callbacks) where
  stored-Effect :
      (node : String) (snapshot : Snapshot) (sys sys' : System)
      → stored sys (set_snapshot node snapshot sys.world) ≡ some sys'
      → Effect sys.world sys'.world (totals sys) (totals sys')
  stored-Effect node snapshot sys sys' e =
      elim (Option-cases (set_snapshot node snapshot sys.world)) [
        | inl stuck ↦ absurd (ground (arith, e, stuck))
        | inr (w, kept) ↦
            let n = set_snapshot-IsNotified node snapshot sys.world w kept in
            let same : record sys { world = w } ≡ sys' = ground (arith, e, kept) in
            rw (sym same) (still (λ p neutral. omega arith) n.made n.count)
      ]

  advance-Effect :
      (a : Action) (sys sys' : System)
      → advance marshal callbacks a sys ≡ some sys'
      → Effect sys.world sys'.world (totals sys) (totals sys')
  unfolding advance
  advance-Effect (stores node snapshot) sys sys' e = stored-Effect node snapshot sys sys' e
  advance-Effect (connects url) sys sys' e =
      let o = opened marshal callbacks url sys in
      let begun = opened-Started marshal callbacks url sys in
      rw (sym (some_inj e)) (
        still
          (λ p neutral.
            let none_held = begun.nothing p neutral in
            let joined = total-append p sys.served url o in omega (arith, none_held, joined))
          (ap (λ (w : World). w.channels.next) begun.world)
          (ap (λ (w : World). w.watch_count) begun.world))
  advance-Effect (moves i m) sys sys' e =
      rw (sym (some_inj e)) (move_at-Effect marshal callbacks i m sys.world sys.served)

  pub advance-IsApart :
      (a : Action) (n : ℕ) (sys sys' : System)
      → n + 1 < int64_mod
      → advance marshal callbacks a sys ≡ some sys'
      → IsApart n sys.world (totals sys)
      → IsApart (n + 1) sys'.world (totals sys')
  advance-IsApart a n sys sys' bound e apart =
      Effect-IsApart sys.world sys'.world (totals sys) (totals sys') n bound
        (advance-Effect a sys sys' e) apart

pub new_system-IsApart : (ads : Bool) → IsApart 0 (new_system ads).world (totals (new_system ads))
unfolding new_system new_snapshot_cache
new_system-IsApart ads = record {
  one_channel = λ c. omega arith;
  one_cancel = λ d. omega arith;
  new_channels = λ c le. refl;
  new_watches = λ d lt. refl;
  few = omega arith;
}
