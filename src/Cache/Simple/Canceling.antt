-- ===== src/Cache/Simple/Canceling.antt =====
-- The function that `cancelWatch` returns.
use bent.Cache.Status.{ResponseWatch}
use bent.Cache.Simple.{cancel_status, World, cancel_watch, Cancel}
use bent.Shared.{
  if◌then◌else◌, ◌==◌, ==_iff, ==_refl, Option-cases, ◌>>=◌, erase, lookup, lookup-erase,
  lookup-insert, ◌≡◌, refl, inl, inr, Bool, ◌&&◌, Option, none, arith, string_key, nat_key,
}

-- The open watch that a cancel function is for, if it is still there.
abbrev pub watch_at : Cancel → World → Option ResponseWatch
watch_at c w = lookup c.node w.status >>= λ info. lookup c.watch info.watches

abbrev pub same_watch : Cancel → Cancel → Bool
same_watch c d = c.node == d.node && c.watch == d.watch

-- A cancel function closes its own watch and no other, on any node; calling it again, or after the
-- watch was answered, changes no watch.
pub watch_at-cancel_watch :
    (c d : Cancel) (w : World)
    → watch_at d (cancel_watch c w) ≡ (if same_watch c d then none else watch_at d w)
unfolding cancel_watch
watch_at-cancel_watch c d w = elim (Option-cases (lookup c.node w.status)) [
  | inl missing ↦ rw (missing, cancel_status) (ground (arith, missing, ==_iff c.node d.node))
  | inr (info, found) ↦
      rw (found, cancel_status)
        (ground (
          arith,
          found,
          lookup-insert c.node d.node (record info { watches = erase c.watch info.watches })
              w.status,
          lookup-erase c.watch d.watch info.watches,
          ==_iff c.node d.node,
        ))
]

pub cancel_watch_keeps_none :
    (c d : Cancel) (w : World) → watch_at d w ≡ none → watch_at d (cancel_watch c w) ≡ none
cancel_watch_keeps_none c d w e = ground (arith, watch_at-cancel_watch c d w)

pub cancel_watch_closes : (c : Cancel) (w : World) → watch_at c (cancel_watch c w) ≡ none
cancel_watch_closes c w =
    ground (arith, watch_at-cancel_watch c c w, ==_refl c.node, ==_refl c.watch)

-- What a cancel function leaves alone.
pub cancel_watch-counters :
    (c : Cancel) (w : World)
    → ((cancel_watch c w).channels ≡ w.channels)
      × ((cancel_watch c w).watch_count ≡ w.watch_count)
      × ((cancel_watch c w).ads ≡ w.ads)
unfolding cancel_watch cancel_status
cancel_watch-counters c w = elim (Option-cases (lookup c.node w.status)) [
  | inl missing ↦ rw missing (refl, refl, refl)
  | inr (info, found) ↦ rw found (refl, refl, refl)
]
