-- ===== src/Tests/Orders.antt =====
-- Orders in which the maps of a node are gone through.
use mathlib.Core.List.{Perm}
use mathlib.Core.List.Perm
use bent.Provider.Node.{Order}
use bent.Provider.Updater.{Orders}
use bent.Shared.{Map, String, [], ◌∷◌}

-- The order of the entries.
abbrev pub as_made : {A : Type 0} → Order A
as_made = record { ranged = λ m. m; entries = λ m. Perm.refl m }

abbrev pub in_order : Orders
in_order = record { hashed = as_made; listed = as_made; clusters = as_made; routes = as_made }

-- The second entry before the first.
abbrev pub second_first : {A : Type 0} → Map String A → Map String A
second_first [] = []
second_first (x ∷ []) = x ∷ []
second_first (x ∷ y ∷ m) = y ∷ x ∷ m

pub second_first-perm : {A : Type 0} (m : Map String A) → Perm (second_first m) m
second_first-perm [] = Perm.refl []
second_first-perm (x ∷ []) = Perm.refl (x ∷ [])
second_first-perm (x ∷ y ∷ m) = Perm.swap x y m

abbrev pub swapped : Orders
swapped = record in_order { hashed = record { ranged = second_first; entries = second_first-perm } }
