-- ===== src/Cache/Channels.antt =====
-- Go's channels of capacity 1, as `CreateWatch` of pkg/cache/simple.go makes them. A channel is a
-- number; `buffered` lists the values that were sent and not yet received, oldest first.
use bent.Shared.{
  nat_eq, if◌then◌else◌, Bool-cases, Option-cases, ℕ, suc, ◌+◌, ◌≤◌, ◌≡◌, refl, subst, inl, inr,
  Option, none, some, List, [], ◌∷◌, ◌++◌, arith, ◌>>=◌,
}

pub record Channels {ℓ} (A : Type ℓ) : Type ℓ where
  pub next : ℕ
  pub buffered : List (ℕ × A)

module _ {ℓ} {A : Type ℓ} where
  abbrev pub no_channels : Channels A
  no_channels = record { next = 0; buffered = [] }

  -- How many values a channel holds.
  abbrev pub pending_in : ℕ → List (ℕ × A) → ℕ
  pending_in c [] = 0
  pending_in c ((d, a) ∷ rest) =
      let more = pending_in c rest in if nat_eq d c then suc more else more

  abbrev pub pending : ℕ → Channels A → ℕ
  pending c chs = pending_in c chs.buffered

  unfoldable pub make_channel : Channels A → ℕ × Channels A
  make_channel chs = (chs.next, record chs { next = suc chs.next })

  -- `none` means that the send blocks: the buffer is full.
  unfoldable pub send : ℕ → A → Channels A → Option (Channels A)
  send c a chs =
      if nat_eq (pending c chs) 0
      then some (record chs { buffered = chs.buffered ++ (c, a) ∷ [] })
      else none

  pub first_in : ℕ → List (ℕ × A) → Option (A × List (ℕ × A))
  first_in c [] = none
  first_in c ((d, a) ∷ rest) =
      let later = first_in c rest in
      if nat_eq d c then some (a, rest) else (do (b, others) ← later; some (b, (d, a) ∷ others))

  -- `none` means that the receive waits: the buffer is empty.
  unfoldable pub receive : ℕ → Channels A → Option (A × Channels A)
  unfolding first_in
  receive c chs = do (a, rest) ← first_in c chs.buffered; some (a, record chs { buffered = rest })

  pending_in-append :
      (c d : ℕ) (a : A) (xs : List (ℕ × A))
      → pending_in c (xs ++ (d, a) ∷ []) ≡ pending_in c xs + (if nat_eq d c then 1 else 0)
  pending_in-append c d a [] = ground arith
  pending_in-append c d a ((i, x) ∷ xs) = ground (arith, pending_in-append c d a xs)

  -- A send to an empty channel returns, and only that channel holds one value more.
  pub send-pending :
      (c d : ℕ) (a : A) (chs : Channels A) {chs' : Channels A}
      → send d a chs ≡ some chs'
      → (pending c chs' ≡ pending c chs + (if nat_eq d c then 1 else 0)) × (chs'.next ≡ chs.next)
  unfolding send
  send-pending c d a chs e = ground (arith, pending_in-append c d a chs.buffered)

  pub send_returns :
      (d : ℕ) (a : A) (chs : Channels A)
      → pending d chs ≡ 0
      → send d a chs ≡ some (record chs { buffered = chs.buffered ++ (d, a) ∷ [] })
  unfolding send
  send_returns d a chs e = ground arith

  first_in-pending :
      (c d : ℕ) (xs : List (ℕ × A)) {a : A} {rest : List (ℕ × A)}
      → first_in d xs ≡ some (a, rest)
      → pending_in c rest + (if nat_eq d c then 1 else 0) ≡ pending_in c xs
  unfolding first_in
  first_in-pending c d [] e = cc
  first_in-pending c d ((i, x) ∷ xs) {a} {rest} e = elim (Option-cases (first_in d xs)) [
    | inl missing ↦ ground (arith, missing)
    | inr ((b, others), found) ↦ ground (arith, found, first_in-pending c d xs found)
  ]

  -- A receive takes one value out of its channel.
  pub receive-pending :
      (c d : ℕ) (chs : Channels A) {a : A} {chs' : Channels A}
      → receive d chs ≡ some (a, chs')
      → (pending c chs' + (if nat_eq d c then 1 else 0) ≡ pending c chs) × (chs'.next ≡ chs.next)
  unfolding receive
  receive-pending c d chs e = elim (Option-cases (first_in d chs.buffered)) [
    | inl missing ↦ ground (arith, missing)
    | inr ((b, others), found) ↦ ground (arith, found, first_in-pending c d chs.buffered found)
  ]

  -- A property of what the channels hold.
  abbrev pub AllSent : (ℕ → A → Type 0) → List (ℕ × A) → Type 0
  AllSent Q [] = Unit
  AllSent Q ((c, a) ∷ rest) = Q c a × AllSent Q rest

  first_in-AllSent :
      (Q : ℕ → A → Type 0) (c : ℕ) (xs : List (ℕ × A)) {a : A} {rest : List (ℕ × A)}
      → first_in c xs ≡ some (a, rest)
      → AllSent Q xs
      → Q c a × AllSent Q rest
  unfolding first_in
  first_in-AllSent Q c [] e h = cc
  first_in-AllSent Q c ((d, b) ∷ xs) {a} {rest} e h = elim (Bool-cases (nat_eq d c)) [
    | inl hit ↦
        let same : d ≡ c = ground (arith, hit) in
        let same_a : b ≡ a = ground (arith, e, hit) in
        let same_rest : xs ≡ rest = ground (arith, e, hit) in
        (subst (λ (n : ℕ). Q n a) same (subst (Q d) same_a h.0), subst (AllSent Q) same_rest h.1)
    | inr miss ↦ elim (Option-cases (first_in c xs)) [
      | inl missing ↦ absurd (ground (arith, e, miss, missing))
      | inr ((b', others), found) ↦
          let (got, all) = first_in-AllSent Q c xs found h.1 in
          let same_a : b' ≡ a = ground (arith, e, miss, found) in
          let same_rest : (d, b) ∷ others ≡ rest = ground (arith, e, miss, found) in
          (subst (Q c) same_a got, subst (AllSent Q) same_rest (h.0, all))
    ]
  ]

  pub receive-AllSent :
      (Q : ℕ → A → Type 0) (c : ℕ) (chs : Channels A) {a : A} {chs' : Channels A}
      → receive c chs ≡ some (a, chs')
      → AllSent Q chs.buffered
      → Q c a × AllSent Q chs'.buffered
  unfolding receive
  receive-AllSent Q c chs {a} {chs'} e h = elim (Option-cases (first_in c chs.buffered)) [
    | inl missing ↦ absurd (ground (arith, e, missing))
    | inr ((b, others), found) ↦
        let (got, all) = first_in-AllSent Q c chs.buffered found h in
        let same : b ≡ a = ground (arith, e, found) in
        let same' : others ≡ chs'.buffered = ground (arith, e, found) in
        (subst (Q c) same got, subst (AllSent Q) same' all)
  ]

  first_in-some :
      (c : ℕ) (xs : List (ℕ × A))
      → 1 ≤ pending_in c xs
      → (a : A) × (rest : List (ℕ × A)) × (first_in c xs ≡ some (a, rest))
  unfolding first_in
  first_in-some c [] h = absurd (omega (arith, h))
  first_in-some c ((d, b) ∷ xs) h = elim (Bool-cases (nat_eq d c)) [
    | inl hit ↦ (b, xs, rw hit refl)
    | inr miss ↦
        let (a, rest, found) = first_in-some c xs (ground (arith, h, miss)) in
        (a, (d, b) ∷ rest, rw (miss, found) refl)
  ]

  -- A receive from a channel that holds a value does not wait.
  pub receive_returns :
      (c : ℕ) (chs : Channels A)
      → 1 ≤ pending c chs
      → (a : A) × (chs' : Channels A) × (receive c chs ≡ some (a, chs'))
  unfolding receive
  receive_returns c chs h =
      let (a, rest, found) = first_in-some c chs.buffered h in
      (a, record chs { buffered = rest }, rw found refl)
