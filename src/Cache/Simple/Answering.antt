-- ===== src/Cache/Simple/Answering.antt =====
-- What a watch of a node gets from a new snapshot, and what an open watch tells of its client.
use bent.Cache.Simple.Current.{AllWatches, IsCurrent}
use bent.Cache.Simple.Watched.{has_news}
use bent.Cache.Simple.Notify.{is_held_back, current_watches, answers, is_current}
use bent.Cache.Simple.Canceling.{watch_at}
use bent.Cache.Channels.{pending_in}
use bent.Cache.Snapshot.{Snapshot}
use bent.Cache.Simple.{held_back, World, Cancel}
use bent.Cache.Status.{ResponseWatch, Response}
use bent.Shared.{
  ◌==◌, Bool-cases, Option-cases, Map, lookup, ℕ, ◌+◌, ◌≤◌, ◌≡◌, refl, subst, inl, inr, true, false,
  ◌||◌, some, List, [], ◌∷◌, ◌++◌, arith, string_key, nat_key,
}

pub pending_in-++ :
    (c : ℕ) (xs ys : List (ℕ × Response))
    → pending_in c (xs ++ ys) ≡ pending_in c xs + pending_in c ys
pending_in-++ c [] ys = omega arith
pending_in-++ c ((d, a) ∷ xs) ys = ground (arith, pending_in-++ c xs ys)

pub is_held_back-false :
    (snapshot : Snapshot) (v : ResponseWatch) → is_held_back false snapshot v ≡ false
unfolding held_back
is_held_back-false snapshot v = ground arith

module _ (snapshot : Snapshot) (id : ℕ) (v : ResponseWatch) where
  pub lookup-current_watches-some :
      (ws : Map ℕ ResponseWatch)
      → lookup id ws ≡ some v
      → is_current snapshot v ≡ true
      → lookup id (current_watches snapshot ws) ≡ some v
  unfolding lookup
  lookup-current_watches-some [] e current = cc
  lookup-current_watches-some ((i, u) ∷ ws) e current = elim (Bool-cases (i == id)) [
    | inl hit ↦ let same : u ≡ v = ground arith in rw (same, current, hit) refl
    | inr miss ↦ ground (arith, lookup-current_watches-some ws (ground arith) current)
  ]

  -- A stale watch is answered, if nothing is held back.
  pub answers-pending :
      (ws : Map ℕ ResponseWatch)
      → lookup id ws ≡ some v
      → is_current snapshot v ≡ false
      → 1 ≤ pending_in v.response (answers false snapshot ws)
  unfolding lookup
  answers-pending [] e stale = cc
  answers-pending ((i, u) ∷ ws) e stale = elim (Bool-cases (i == id)) [
    | inl hit ↦
        let same : u ≡ v = ground arith in
        rw (same, stale, is_held_back-false snapshot v) (ground arith)
    | inr miss ↦
        let ih = answers-pending ws (ground arith) stale in
        elim (Bool-cases (is_current snapshot u || is_held_back false snapshot u)) [
          | inl skipped ↦ rw skipped ih
          | inr sent ↦ rw sent (ground (arith, ih))
        ]
  ]

AllWatches-lookup :
    (P : ResponseWatch → Type 0) (id : ℕ) (v : ResponseWatch) (ws : Map ℕ ResponseWatch)
    → AllWatches P ws
    → lookup id ws ≡ some v
    → P v
unfolding lookup
AllWatches-lookup P id v [] h e = cc
AllWatches-lookup P id v ((i, u) ∷ ws) h e = elim (Bool-cases (i == id)) [
  | inl hit ↦ let same : u ≡ v = ground arith in subst P same h.0
  | inr miss ↦ AllWatches-lookup P id v ws h.1 (ground arith)
]

-- The cache has no news for the client of an open watch.
pub watch_at-IsCurrent :
    (d : Cancel) (w : World) (v : ResponseWatch)
    → IsCurrent w
    → watch_at d w ≡ some v
    → has_news (lookup d.node w.snapshots) v ≡ false
watch_at-IsCurrent d w v current at = elim (Option-cases (lookup d.node w.snapshots)) [
  | inl missing ↦ rw missing refl
  | inr (snapshot, stored) ↦ elim (Option-cases (lookup d.node w.status)) [
    | inl gone ↦ absurd (ground (arith, gone, at))
    | inr (info, found) ↦
        let all : AllWatches (λ u. is_current snapshot u ≡ true) info.watches =
          rw (stored, found) at (current d.node) in
        let last =
          AllWatches-lookup (λ u. is_current snapshot u ≡ true) d.watch v info.watches all
            (ground (arith, found, at)) in
        rw (stored, last) refl
  ]
]
