-- ===== src/Cache/Simple/Open.antt =====
-- Calls of the cache that leave a watch open.
use bent.Cache.Simple.Awaited.{create_watch-watch_at}
use bent.Cache.Simple.Canceling.{watch_at, watch_at-cancel_watch, cancel_watch-counters, same_watch}
use bent.Cache.Simple.Watched.{create_watch-IsWatched}
use bent.Cache.Simple.Notify.{set_snapshot-IsNotified}
use bent.Cache.Simple.Run.{
  sets, clears, watches, cancels, receives, step, run, step_returns, Command,
}
use bent.Cache.Simple.Sound.{IsSound}
use bent.Cache.Simple.{create_watch, clear_snapshot, cancel_watch, int64_mod, Cancel, World}
use bent.Cache.Channels.{receive}
use bent.Cache.Status.{Request, ResponseWatch}
use bent.Shared.{
  ◌==◌, ==_iff, Option-cases, length, lookup-erase, ℕ, ◌+◌, ◌≤◌, ◌<◌, ◌≡◌, sym, ◌∙◌, subst, ◌≢◌,
  inl, inr, Bool, false, Option, some, List, [], ◌∷◌, arith, string_key, nat_key,
}

-- A call that leaves the watch alone: it neither stores nor clears a snapshot of its node, and does
-- not cancel it.
abbrev pub IsAside : Cancel → Command → Type 0
IsAside d (sets node snapshot) = node ≢ d.node
IsAside d (clears node) = node ≢ d.node
IsAside d (watches request now) = Unit
IsAside d (cancels c) = same_watch c d ≡ false
IsAside d (receives ch) = Unit

abbrev pub AllAside : Cancel → List Command → Type 0
AllAside d [] = Unit
AllAside d (c ∷ cs) = IsAside d c × AllAside d cs

-- The watch is open, and at most so many identifiers are given away.
pub record IsOpen (d : Cancel) (v : ResponseWatch) (ads : Bool) (n : ℕ) (w : World) : Type 0 where
  pub at : watch_at d w ≡ some v
  pub mode : w.ads ≡ ads
  pub old : d.watch ≤ w.watch_count
  pub few : w.watch_count ≤ n
  pub sound : IsSound w

module _ (d : Cancel) (v : ResponseWatch) (ads : Bool) where
  watches-IsOpen :
      (request : Request) (now n : ℕ) (w w' : World) (r : ℕ × Option Cancel)
      → n + 1 < int64_mod
      → IsOpen d v ads n w
      → create_watch request now w ≡ some (r, w')
      → IsSound w'
      → IsOpen d v ads (n + 1) w'
  watches-IsOpen request now n w w' r bound h e sound =
      let known = h.few in
      let first : w.watch_count + 1 < int64_mod = omega (arith, bound, known) in
      let made = create_watch-IsWatched request now w e in
      let old = h.old in
      let at = create_watch-watch_at request now d w w' old first e h.at in
      elim made.outcome [
        | inl o ↦ record {
          at = at;
          mode = made.mode ∙ h.mode;
          old = let c = o.count in omega (arith, c, first, old);
          few = let c = o.count in omega (arith, c, first, known);
          sound = sound;
        }
        | inr a ↦ record {
          at = at;
          mode = made.mode ∙ h.mode;
          old = let c = a.count in omega (arith, c, old);
          few = let c = a.count in omega (arith, c, known);
          sound = sound;
        }
      ]

  step-IsOpen :
      (c : Command) (n : ℕ) (w w' : World)
      → n + 1 < int64_mod
      → IsAside d c
      → IsOpen d v ads n w
      → step w c ≡ some w'
      → IsSound w'
      → IsOpen d v ads (n + 1) w'
  unfolding step clear_snapshot
  step-IsOpen (sets node snapshot) n w w' bound aside h e sound =
      let s = set_snapshot-IsNotified node snapshot w w' e in
      let count = s.count in
      let old = h.old in
      let few = h.few in
      let differ : (node == d.node) ≡ false = ground (arith, aside, ==_iff node d.node) in
      record {
        at = rw (s.status d.node, differ) h.at;
        mode = s.mode ∙ h.mode;
        old = omega (arith, count, old);
        few = omega (arith, count, few);
        sound = sound;
      }
  step-IsOpen (clears node) n w w' bound aside h e sound =
      let old = h.old in
      let few = h.few in
      let differ : (node == d.node) ≡ false = ground (arith, aside, ==_iff node d.node) in
      let same : clear_snapshot node w ≡ w' = ground (arith, e) in
      subst (IsOpen d v ads (n + 1)) same (record {
        at = rw (lookup-erase node d.node w.status, differ) h.at;
        mode = h.mode;
        old = old;
        few = omega (arith, few);
        sound = subst IsSound (sym same) sound;
      })
  step-IsOpen (watches request now) n w w' bound aside h e sound =
      elim (Option-cases (create_watch request now w)) [
        | inl stuck ↦ absurd (ground (arith, e, stuck))
        | inr ((r, w1), made) ↦
            let same : w1 ≡ w' = ground (arith, e, made) in
            watches-IsOpen request now n w w' r bound h (rw same at made) sound
      ]
  step-IsOpen (cancels c) n w w' bound aside h e sound =
      let old = h.old in
      let few = h.few in
      let (channels, count, mode) = cancel_watch-counters c w in
      let same : cancel_watch c w ≡ w' = ground (arith, e) in
      subst (IsOpen d v ads (n + 1)) same (record {
        at = rw (watch_at-cancel_watch c d w, aside) h.at;
        mode = mode ∙ h.mode;
        old = omega (arith, count, old);
        few = omega (arith, count, few);
        sound = subst IsSound (sym same) sound;
      })
  step-IsOpen (receives ch) n w w' bound aside h e sound =
      let old = h.old in
      let few = h.few in
      elim (Option-cases (receive ch w.channels)) [
        | inl empty ↦
            let same : w ≡ w' = ground (arith, e, empty) in
            subst (IsOpen d v ads (n + 1)) same (record {
              at = h.at;
              mode = h.mode;
              old = old;
              few = omega (arith, few);
              sound = h.sound;
            })
        | inr ((r, chs), got) ↦
            let same : record w { channels = chs } ≡ w' = ground (arith, e, got) in
            subst (IsOpen d v ads (n + 1)) same (record {
              at = h.at;
              mode = h.mode;
              old = old;
              few = omega (arith, few);
              sound = subst IsSound (sym same) sound;
            })
      ]

  pub run-IsOpen :
      (cs : List Command) (n : ℕ) (w w' : World)
      → n + length cs < int64_mod
      → AllAside d cs
      → IsOpen d v ads n w
      → run w cs ≡ some w'
      → IsOpen d v ads (n + length cs) w'
  unfolding run
  run-IsOpen [] n w w' bound aside h e =
      let same : w ≡ w' = ground (arith, e) in
      subst (IsOpen d v ads (n + 0)) same (subst (λ (k : ℕ). IsOpen d v ads k w) (omega arith) h)
  run-IsOpen (c ∷ cs) n w w' bound aside h e =
      let (w1, stepped, sound) = step_returns w c h.sound in
      let h1 = step-IsOpen c n w w1 (omega (arith, bound)) aside.0 h stepped sound in
      let last = run-IsOpen cs (n + 1) w1 w' (omega (arith, bound)) aside.1 h1 (rw stepped at e) in
      subst (λ (k : ℕ). IsOpen d v ads k w') (omega arith) last
