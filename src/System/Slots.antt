-- ===== src/System/Slots.antt =====
-- How often the slots of the streams hold a channel or the cancel function of a watch.
use bent.Server.Watcher.{snapshot_watcher}
use bent.Cache.Simple.Opening.{is_for}
use bent.Cache.Simple.{Cancel}
use bent.Server.{
  secrets, listeners, routes, clusters, endpoints, put_slot, slot, Kind, Watches, Slot,
}
use bent.Server.Slots.{slot-put_slot}
use bent.Server.Process.{blocked, returned, running, Outcome}
use bent.Shared.{
  nat_eq, if◌then◌else◌, ℕ, zero, suc, ◌+◌, ◌≤◌, String, ◌≡◌, refl, ap, ◌≢◌, ◌⊎◌, inl, inr, Option,
  none, some, List, [], ◌∷◌, ◌++◌, arith,
}

-- What is counted in a slot: it depends on its channel and its cancel function.
abbrev pub Weight : Type 0
Weight = Option ℕ → Option Cancel → ℕ

abbrev pub holds_channel : ℕ → Weight
holds_channel c none f = 0
holds_channel c (some d) f = if nat_eq d c then 1 else 0

abbrev pub holds_cancel : Cancel → Weight
holds_cancel d ch f = if is_for d f then 1 else 0

-- A weight that counts nothing in an empty slot.
abbrev pub IsNeutral : Weight → Type 0
IsNeutral p = p none none ≡ 0

-- The stream at a position.
abbrev pub stream_at :
    ℕ → List (String × Outcome snapshot_watcher) → Option (String × Outcome snapshot_watcher)
stream_at i [] = none
stream_at zero (x ∷ rest) = some x
stream_at (suc i) (x ∷ rest) = stream_at i rest

module _ (p : Weight) where
  abbrev pub weight : Slot Cancel → ℕ
  weight s = p s.channel s.cancel

  abbrev pub slots_sum : Watches Cancel → ℕ
  slots_sum ws =
      weight ws.endpoints
      + weight ws.clusters
      + weight ws.routes
      + weight ws.listeners
      + weight ws.secrets

  pub slots_sum-put_slot :
      (k : Kind) (s : Slot Cancel) (ws : Watches Cancel)
      → slots_sum (put_slot k s ws) + weight (slot k ws) ≡ slots_sum ws + weight s
  slots_sum-put_slot endpoints s ws = omega arith
  slots_sum-put_slot clusters s ws = omega arith
  slots_sum-put_slot routes s ws = omega arith
  slots_sum-put_slot listeners s ws = omega arith
  slots_sum-put_slot secrets s ws = omega arith

  pub weight-slot_le : (k : Kind) (ws : Watches Cancel) → weight (slot k ws) ≤ slots_sum ws
  weight-slot_le endpoints ws = omega arith
  weight-slot_le clusters ws = omega arith
  weight-slot_le routes ws = omega arith
  weight-slot_le listeners ws = omega arith
  weight-slot_le secrets ws = omega arith

  -- A stream that has returned holds nothing.
  abbrev pub held : Outcome snapshot_watcher → ℕ
  held (running s) = slots_sum s.values
  held (returned status s) = 0
  held blocked = 0

  abbrev pub total : List (String × Outcome snapshot_watcher) → ℕ
  total [] = 0
  total ((url, o) ∷ rest) = held o + total rest

  pub total-append :
      (served : List (String × Outcome snapshot_watcher)) (url : String)
      (o : Outcome snapshot_watcher)
      → total (served ++ (url, o) ∷ []) ≡ total served + held o
  total-append [] url o = omega arith
  total-append ((other, q) ∷ served) url o = ground (arith, total-append served url o)

  pub held-le-total :
      (i : ℕ) (served : List (String × Outcome snapshot_watcher)) {url : String}
      {o : Outcome snapshot_watcher}
      → stream_at i served ≡ some (url, o)
      → held o ≤ total served
  held-le-total i [] e = cc
  held-le-total zero ((other, q) ∷ served) e = ground arith
  held-le-total (suc i) ((other, q) ∷ served) e =
      let ih = held-le-total i served e in omega (arith, ih)

  -- Two streams.
  pub held-pair_le :
      (i j : ℕ) (served : List (String × Outcome snapshot_watcher)) {url url' : String}
      {o o' : Outcome snapshot_watcher}
      → i ≢ j
      → stream_at i served ≡ some (url, o)
      → stream_at j served ≡ some (url', o')
      → held o + held o' ≤ total served
  held-pair_le i j [] differ e e' = cc
  held-pair_le zero zero (x ∷ served) differ e e' = absurd (differ refl)
  held-pair_le zero (suc j) ((other, q) ∷ served) differ e e' =
      ground (arith, held-le-total j served e')
  held-pair_le (suc i) zero ((other, q) ∷ served) differ e e' =
      ground (arith, held-le-total i served e)
  held-pair_le (suc i) (suc j) ((other, q) ∷ served) differ e e' =
      let ih = held-pair_le i j served (λ same. differ (ap suc same)) e e' in omega (arith, ih)

-- Two slots of a stream.
pub weight-pair_le :
    (j k : Kind) (ws : Watches Cancel)
    → (j ≡ k)
      ⊎ ((p : Weight) → IsNeutral p → weight p (slot j ws) + weight p (slot k ws) ≤ slots_sum p ws)
weight-pair_le j k ws =
    let emptied : Slot Cancel = record { channel = none; cancel = none; nonce = "" } in
    elim (slot-put_slot j k emptied ws) [
      | inl same ↦ inl same
      | inr kept ↦ inr (λ p neutral.
          let put = slots_sum-put_slot p k emptied ws in
          let le = weight-slot_le p j (put_slot k emptied ws) in
          let same = ap (weight p) kept in omega (arith, put, neutral, le, same))
    ]
