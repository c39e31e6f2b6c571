-- ===== src/Provider/Annotations/Range.antt =====
-- The range of accepted statuses, `parseInt64RangeWithFallback`.
use bent.Provider.Annotations.{
  value, invalid, panic, second_number, negative, split, nonneg, first_number,
  parse_int64_range_with_fallback, range_of, Number, atoi,
}
use bent.Shared.{if◌then◌else◌, String, ◌≡◌, refl, Bool, true, false, List, [], ◌∷◌, arith}

abbrev is_number : Number → Bool
is_number (nonneg n) = true
is_number (negative n) = true
is_number invalid = false

-- The text has one dash, and a number before it.
abbrev pub starts_range : List String → Bool
starts_range (low ∷ high ∷ []) = is_number (atoi low)
starts_range [] = false
starts_range (low ∷ []) = false
starts_range (low ∷ high ∷ more ∷ rest) = false

range_of_lem :
    (list : List String) (f : Number × Number)
    → range_of list f ≡ (if starts_range list then panic else value f)
unfolding range_of first_number second_number
range_of_lem [] f = refl
range_of_lem (low ∷ []) f = refl
range_of_lem (low ∷ high ∷ []) f = ground arith
range_of_lem (low ∷ high ∷ more ∷ rest) f = ground arith

-- No text gives a range: one with a single dash and a number before it ends the call in a panic,
-- and for every other text the result is the fallback.
pub range_never_read :
    (val : String) (low high : Number)
    → parse_int64_range_with_fallback val low high
      ≡ (if starts_range (split b'-' val) then panic else value (low, high))
unfolding parse_int64_range_with_fallback
range_never_read val low high = range_of_lem (split b'-' val) (low, high)
