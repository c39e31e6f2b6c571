-- ===== src/Cache/Simple/Delivery.antt =====
-- Where a watch is while it is open, and its answer among those of a new snapshot.
use bent.Cache.Simple.Canceling.{watch_at}
use bent.Cache.Simple.Watched.{new_watch, new_id, IsOpened}
use bent.Cache.Simple.Notify.{answers, due, is_held_back, is_current}
use bent.Cache.Simple.{node_id, Cancel, World}
use bent.Cache.Status.{ResponseWatch, Request}
use bent.Cache.Snapshot.{Snapshot}
use mathlib.Core.List.{mem-cons_self, mem-cons_of_mem}
use mathlib.Core.List.{Mem}
use bent.Shared.{
  ◌==◌, ==_refl, Bool-cases, Map, lookup, lookup-insert, ℕ, ◌≡◌, inl, inr, Bool, false, ◌||◌,
  Option, some, [], ◌∷◌, arith, string_key, nat_key,
}

-- A stale watch is among the answers.
pub answers-Mem :
    (ads : Bool) (snapshot : Snapshot) (id : ℕ) (w : ResponseWatch) (ws : Map ℕ ResponseWatch)
    → lookup id ws ≡ some w
    → is_current snapshot w ≡ false
    → is_held_back ads snapshot w ≡ false
    → Mem (w.response, due snapshot w) (answers ads snapshot ws)
unfolding lookup
answers-Mem ads snapshot id w [] e stale free = absurd (ground arith)
answers-Mem ads snapshot id w ((i, v) ∷ ws) e stale free = elim (Bool-cases (i == id)) [
  | inl hit ↦ let same : v ≡ w = ground arith in rw (same, stale, free) mem-cons_self
  | inr miss ↦
      let ih = answers-Mem ads snapshot id w ws (ground arith) stale free in
      elim (Bool-cases (is_current snapshot v || is_held_back ads snapshot v)) [
        | inl skipped ↦ rw skipped ih
        | inr sent ↦ rw sent (mem-cons_of_mem _ ih)
      ]
]

-- The watch that `CreateWatch` opens is in the cache, under the identifier that it returns.
pub IsOpened-watch_at :
    (request : Request) (now : ℕ) (w : World) {f : Option Cancel} {w' : World}
    → IsOpened request now w f w'
    → watch_at (record { node = node_id request.node; watch = new_id request now w }) w'
      ≡ some (new_watch request now w)
IsOpened-watch_at request now w o = rw (o.status, lookup-insert, ==_refl, lookup-insert, ==_refl)
