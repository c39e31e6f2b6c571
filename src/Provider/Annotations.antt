-- ===== src/Provider/Annotations.antt =====
-- The readers of annotations: pkg/provider/util.go and the end of pkg/provider/cluster.go, with
-- the functions of Go's standard library that they call. An int is 64 bits wide.
pub mod Range
use Prim.Native.Char.{Char, code}
use Prim.Native.String.{[], ◌∷◌}
use bent.Shared.{
  ltb, leb, nat_eq, if◌then◌else◌, get_or, length, Map, lookup, contains, parse_from, push_char, ℕ,
  zero, suc, ◌*◌, ◌%◌, ◌^◌, String, ◌≡◌, refl, ◌⊎◌, inl, inr, Bool, true, false, not, Option, none,
  some, List, [], ◌∷◌, string_key, nat_key,
}

abbrev pub Annotations : Type 0
Annotations = Map String String

-- A number that strconv has read: its sign and its size, or a syntax or range error.
pub data Number : Type 0 where
  nonneg : ℕ → Number
  negative : ℕ → Number
  invalid : Number

-- The digits, of which there is at least one.
abbrev digits : String → Option ℕ
digits [] = none
digits (c ∷ s) = parse_from 0 (c ∷ s)

-- The range of an int64: below 2 ^ 63, and down to -(2 ^ 63).
abbrev in_range : Bool → Option ℕ → Number
in_range minus none = invalid
in_range true (some n) = if leb n (2 ^ 63) then negative n else invalid
in_range false (some n) = if ltb n (2 ^ 63) then nonneg n else invalid

-- `strconv.Atoi(s)` and `strconv.ParseInt(s, 10, 64)`: an optional sign and decimal digits.
unfoldable pub atoi : String → Number
unfolding parse_from
atoi [] = invalid
atoi (c ∷ s) =
    if nat_eq (code c) b'-'
    then in_range true (digits s)
    else if nat_eq (code c) b'+'
    then in_range false (digits s)
    else in_range false (digits (c ∷ s))

unfoldable pub parse_int_with_fallback : String → Number → Number
parse_int_with_fallback val fallback = elim (atoi val) [
  | nonneg n ↦ nonneg n
  | negative n ↦ negative n
  | invalid ↦ fallback
]

-- A call that returns, or ends in a panic: an index out of range.
pub data Panics {ℓ} (A : Type ℓ) : Type ℓ where
  value : A → Panics A
  panic : Panics A

pub Panics-cases {ℓ} : {A : Type ℓ} (p : Panics A) → (p ≡ panic) ⊎ ((a : A) × (p ≡ value a))
Panics-cases panic = inl refl
Panics-cases (value a) = inr (a, refl)

infixl 5 ◌>>=◌
abbrev pub ◌>>=◌ {ℓ κ} : {A : Type ℓ} {B : Type κ} → Panics A → (A → Panics B) → Panics B
value a >>= f = f a
panic >>= f = panic

-- `strings.Split(s, sep)` at a separator of one byte.
unfoldable pub split : ℕ → String → List String
split sep [] = [] ∷ []
split sep (c ∷ s) =
    let rest = split sep s in if nat_eq (code c) sep then [] ∷ rest else push_char c rest

-- `list[i]`
abbrev pub index {ℓ} : {A : Type ℓ} → List A → ℕ → Panics A
index [] i = panic
index (x ∷ xs) zero = value x
index (x ∷ xs) (suc i) = index xs i

second_number : Panics String → Number → Number × Number → Panics (Number × Number)
second_number panic num1 fallback = panic
second_number (value s) num1 fallback = elim (atoi s) [
  | nonneg n ↦ value (num1, nonneg n)
  | negative n ↦ value (num1, negative n)
  | invalid ↦ value fallback
]

-- The rest of the function once `list[0]` was read; the source reads `list[2]` next.
first_number : Number → List String → Number × Number → Panics (Number × Number)
unfolding second_number
first_number invalid list fallback = value fallback
first_number (nonneg n) list fallback = second_number (index list 2) (nonneg n) fallback
first_number (negative n) list fallback = second_number (index list 2) (negative n) fallback

range_of : List String → Number × Number → Panics (Number × Number)
unfolding first_number
range_of list fallback =
    if not (nat_eq (length list) 2)
    then value fallback
    else elim (index list 0) [ panic ↦ panic | value s ↦ first_number (atoi s) list fallback ]

unfoldable pub parse_int64_range_with_fallback : String → Number → Number → Panics (Number × Number)
unfolding range_of split
parse_int64_range_with_fallback val fallback1 fallback2 =
    range_of (split b'-' val) (fallback1, fallback2)

abbrev pub uint32_mod : ℕ
uint32_mod = 2 ^ 32

-- The number if it is positive.
abbrev positive : Number → Option ℕ
positive (nonneg n) = if ltb 0 n then some n else none
positive (negative n) = none
positive invalid = none

-- `ann[key]`, if it is there and reads as a positive number.
positive_at : Annotations → String → Option ℕ
positive_at ann key = elim (lookup key ann) [
  | none ↦ none
  | some val ↦ positive (parse_int_with_fallback val (negative 1))
]

-- `uint32(num)` keeps the low 32 bits.
unfoldable pub get_uint32 : Annotations → String → ℕ → ℕ
unfolding positive_at
get_uint32 ann key fallback = elim (positive_at ann key) [
  | none ↦ fallback
  | some num ↦ num % uint32_mod
]

-- time.Millisecond, in nanoseconds; a Duration is an int64 as its bit pattern.
abbrev pub millisecond : ℕ
millisecond = 1000000

unfoldable pub get_duration_milliseconds : Annotations → String → ℕ → ℕ
unfolding positive_at
get_duration_milliseconds ann key fallback = elim (positive_at ann key) [
  | none ↦ (millisecond * fallback) % 2 ^ 64
  | some num ↦ (millisecond * num) % 2 ^ 64
]

unfoldable pub get_string : Annotations → String → String → String
get_string ann key fallback = get_or (lookup key ann) fallback

unfoldable pub get_bool : Annotations → String → Bool → Bool
get_bool ann key fallback = if contains key ann then true else fallback
