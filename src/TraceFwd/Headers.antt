-- ===== src/TraceFwd/Headers.antt =====
-- What a target sees of the headers of the request that is served.
use bent.Shared.{◌==◌, String, Bool, false, ◌||◌, List, [], ◌∷◌, string_key, nat_key}

module _ (canonical : String → String) where
  -- The name is, up to its spelling, among the names.
  abbrev pub is_among : String → List String → Bool
  is_among sought [] = false
  is_among sought (key ∷ keys) = canonical key == canonical sought || is_among sought keys
