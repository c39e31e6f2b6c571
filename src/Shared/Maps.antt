-- ===== src/Shared/Maps.antt =====
-- Go's maps as association lists. The list's order is the order in which `range` goes through the
-- map; `insert` overwrites an entry in place, as an assignment to a key that is present does.
use mathlib.Core.Path.{◌≡◌, refl}
use mathlib.Core.Bool.{Bool}
use mathlib.Core.Option.{Option, none, some}
use mathlib.Core.List.{List, [], ◌∷◌, ◌++◌, append-nil}
use mathlib.Core.Logic.{inl, inr}
use native.Mathlib.Omega.{arith}
use bent.Shared.Tests.{get_or, Bool-cases, Key, ◌==◌, ==_iff, if◌then◌else◌, is_some}

abbrev pub Map {ℓ κ} : Type ℓ → Type κ → Type (ℓ ⊔ κ)
Map K V = List (K × V)

module _ {ℓ κ} {K : Type ℓ} {V : Type κ} ⦃keyed : Key K⦄ where
  unfoldable pub erase : K → Map K V → Map K V
  erase key [] = []
  erase key ((other, held) ∷ rest) =
      if other == key then erase key rest else (other, held) ∷ erase key rest

  unfoldable pub lookup : K → Map K V → Option V
  lookup key [] = none
  lookup key ((other, held) ∷ rest) = if other == key then some held else lookup key rest

  abbrev pub contains : K → Map K V → Bool
  contains key m = is_some (lookup key m)

  unfoldable pub insert : K → V → Map K V → Map K V
  insert key new [] = (key, new) ∷ []
  insert key new ((other, held) ∷ rest) =
      if other == key then (key, new) ∷ rest else (other, held) ∷ insert key new rest

  pub lookup-erase :
      (key sought : K) (m : Map K V)
      → lookup sought (erase key m) ≡ (if key == sought then none else lookup sought m)
  unfolding lookup erase
  lookup-erase key sought [] = ground arith
  lookup-erase key sought ((other, held) ∷ rest) = ground (
    arith,
    lookup-erase key sought rest,
    ==_iff key sought,
    ==_iff other key,
    ==_iff other sought,
  )

  pub lookup-insert :
      (key sought : K) (new : V) (m : Map K V)
      → lookup sought (insert key new m) ≡ (if key == sought then some new else lookup sought m)
  unfolding insert lookup
  lookup-insert key sought new [] = refl
  lookup-insert key sought new ((other, held) ∷ rest) = ground (
    arith,
    lookup-insert key sought new rest,
    ==_iff key sought,
    ==_iff other key,
    ==_iff other sought,
  )

-- The list under a key, empty if there is none.
abbrev pub list_at {ℓ κ} : {K : Type ℓ} {A : Type κ} ⦃keyed : Key K⦄ → K → Map K (List A) → List A
list_at key m = get_or (lookup key m) []

pub list_at-append {ℓ κ} :
    {K : Type ℓ} {A : Type κ} ⦃keyed : Key K⦄ (key sought : K) (a : A) (m : Map K (List A))
    → list_at sought (insert key (list_at key m ++ a ∷ []) m)
      ≡ list_at sought m ++ (if key == sought then a ∷ [] else [])
list_at-append key sought a m = rw lookup-insert (elim (Bool-cases (key == sought)) [
  | inl same ↦ let e = (==_iff key sought).0 same in rw (same, e) refl
  | inr differ ↦ rw (differ, append-nil) refl
])
