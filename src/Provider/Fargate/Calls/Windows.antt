-- ===== src/Provider/Fargate/Calls/Windows.antt =====
-- The windows in which `sliceWalk` goes through its input.
use bent.Provider.Fargate.Calls.{◌>>=◌, ok, Reply, slice_walk, min, walk_from}
use mathlib.Core.Path.{fun_ext}
use bent.Shared.{
  ltb, if◌then◌else◌, Bool-cases, length, All, take, drop, concat, take-append-drop, length-drop,
  length-take, drop_all, drop-drop, ℕ, zero, suc, ◌+◌, ◌-◌, ◌≤◌, ◌<◌, ◌≡◌, refl, sym, ap, inl, inr,
  false, List, [], ◌∷◌, arith,
}

module _ {ℓ κ} {A : Type ℓ} {S : Type κ} (fn : List A → S → Reply S) where
  -- The windows, one after the other, until one fails.
  abbrev pub walk_all : List (List A) → S → Reply S
  walk_all [] s = ok s
  walk_all (w ∷ ws) s = fn w s >>= λ s'. walk_all ws s'

module _ {ℓ} {A : Type ℓ} (window : ℕ) where
  -- A window is not empty, and not longer than the window size.
  abbrev pub Fits : List A → Type 0
  Fits w = (1 ≤ length w) × (length w ≤ window)

  -- The windows from index `i`.
  abbrev windows_from : ℕ → ℕ → List A → List (List A)
  windows_from zero i input = []
  windows_from (suc fuel) i input =
      let rest = windows_from fuel (i + window) input in
      if ltb i (length input)
      then take (min window (length input - i)) (drop i input) ∷ rest
      else []

  concat-windows_from :
      (fuel i : ℕ) (input : List A)
      → 1 ≤ window
      → length input ≤ i + fuel
      → concat (windows_from fuel i input) ≡ drop i input
  unfolding min
  concat-windows_from zero i input h le = sym (drop_all i input (omega arith))
  concat-windows_from (suc fuel) i input h le = elim (Bool-cases (ltb i (length input))) [
    | inr past ↦ rw past (sym (drop_all i input (ground arith)))
    | inl inside ↦
        let ih = concat-windows_from fuel (i + window) input h (omega arith) in
        let count = length-drop i input in
        rw (inside, ih)
          (elim (Bool-cases (ltb window (length input - i))) [
            | inl full ↦
                rw (full, ← drop-drop window i input) (take-append-drop window (drop i input))
            | inr short ↦
                let none_left = drop_all (i + window) input (ground arith) in
                let all_here = drop_all (length input - i) (drop i input) (omega arith) in
                rw (short, none_left, ← all_here)
                  (take-append-drop (length input - i) (drop i input))
          ])
  ]

  Fits-windows_from :
      (fuel i : ℕ) (input : List A) → 1 ≤ window → All Fits (windows_from fuel i input)
  unfolding min
  Fits-windows_from zero i input h = tt
  Fits-windows_from (suc fuel) i input h = elim (Bool-cases (ltb i (length input))) [
    | inr past ↦ rw past tt
    | inl inside ↦
        let left : i < length input = ground arith in
        let size : min window (length input - i) ≤ length (drop i input) =
          rw length-drop (ground arith) in
        let counted = length-take (min window (length input - i)) (drop i input) size in
        rw inside (
          (rw counted (ground arith), rw counted (ground arith)),
          Fits-windows_from fuel (i + window) input h,
        )
  ]

  walk_from_lem {κ} :
      {S : Type κ} (fn : List A → S → Reply S) (fuel i : ℕ) (input : List A) (s : S)
      → 1 ≤ window
      → length input ≤ i + fuel
      → walk_from fn fuel i window input s ≡ walk_all fn (windows_from fuel i input) s
  unfolding walk_from
  walk_from_lem fn zero i input s h le = ground arith
  walk_from_lem fn (suc fuel) i input s h le = elim (Bool-cases (ltb i (length input))) [
    | inr past ↦ rw (walk_from, past) refl
    | inl inside ↦
        rw (walk_from, inside)
          (ap (λ k. fn (take (min window (length input - i)) (drop i input)) s >>= k)
            (fun_ext (λ s'. walk_from_lem fn fuel (i + window) input s' h (omega arith))))
  ]

module _ {ℓ κ} {A : Type ℓ} {S : Type κ} (fn : List A → S → Reply S) where
  -- `sliceWalk` calls the function on windows of the input, in order, until a call fails: each window
  -- holds one element at least and the window size at most, and together they are the input. The
  -- loop ends.
  pub slice_walk_lem :
      (window : ℕ) (input : List A) (s : S)
      → 1 ≤ window
      → (windows : List (List A)) × (concat windows ≡ input)
        × All (Fits window) windows
        × (slice_walk fn window input s ≡ walk_all fn windows s)
  unfolding slice_walk
  slice_walk_lem window input s h =
      let big : ltb window 1 ≡ false = ground arith in
      (
        windows_from window (length input) 0 input,
        concat-windows_from window (length input) 0 input h (omega arith),
        Fits-windows_from window (length input) 0 input h,
        rw (slice_walk, big) (walk_from_lem window fn (length input) 0 input s h (omega arith)),
      )
