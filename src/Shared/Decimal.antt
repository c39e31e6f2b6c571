-- ===== src/Shared/Decimal.antt =====
-- Decimal numbers as strconv writes and reads them: `FormatInt` and `Atoi` of Go's standard
-- library, over texts. An int64 is its bit pattern.
use Prim.Native.Nat.{ℕ, zero, suc, ◌+◌, ◌-◌, ◌*◌, ◌/◌, ◌%◌, ◌^◌, ◌<◌}
use Prim.Native.Char.{Char, code}
use Prim.Native.String.{String, [], ◌∷◌, ◌++◌}
use mathlib.Core.Path.{◌≡◌, refl, ap, sym, ◌∙◌}
use mathlib.Core.Logic.{◌≢◌, inl, inr}
use mathlib.Core.Bool.{Bool, true, false, ◌&&◌}
use mathlib.Core.Option.{Option, none, some}
use native.Mathlib.Omega.{arith}
use bent.Shared.Tests.{leb, ltb, if◌then◌else◌, Bool-cases}

-- The digit of a number below ten.
pub digit : ℕ → Char
digit zero = "0"
digit (suc zero) = "1"
digit (suc (suc zero)) = "2"
digit (suc (suc (suc zero))) = "3"
digit (suc (suc (suc (suc zero)))) = "4"
digit (suc (suc (suc (suc (suc zero))))) = "5"
digit (suc (suc (suc (suc (suc (suc zero)))))) = "6"
digit (suc (suc (suc (suc (suc (suc (suc zero))))))) = "7"
digit (suc (suc (suc (suc (suc (suc (suc (suc zero)))))))) = "8"
digit (suc (suc (suc (suc (suc (suc (suc (suc (suc n))))))))) = "9"

-- The digits of `n` before `tail`; `fuel` bounds their number.
format_from : ℕ → ℕ → String → String
format_from zero n tail = tail
format_from (suc fuel) n tail =
    let rest = format_from fuel (n / 10) (digit (n % 10) ∷ tail) in
    if ltb n 10 then digit n ∷ tail else rest

unfoldable pub format_nat : ℕ → String
unfolding format_from digit
format_nat n = format_from (suc n) n []

abbrev pub is_digit : Char → Bool
is_digit c = leb b'0' (code c) && leb (code c) b'9'

-- The number that a text of digits continues; `none` is a syntax error.
unfoldable pub parse_from : ℕ → String → Option ℕ
parse_from acc [] = some acc
parse_from acc (c ∷ s) =
    let rest = parse_from (acc * 10 + (code c - b'0')) s in if is_digit c then rest else none

digit_value : (d : ℕ) → d < 10 → (is_digit (digit d) ≡ true) × (code (digit d) - b'0' ≡ d)
unfolding digit
digit_value zero h = (refl, refl)
digit_value (suc zero) h = (refl, refl)
digit_value (suc (suc zero)) h = (refl, refl)
digit_value (suc (suc (suc zero))) h = (refl, refl)
digit_value (suc (suc (suc (suc zero)))) h = (refl, refl)
digit_value (suc (suc (suc (suc (suc zero))))) h = (refl, refl)
digit_value (suc (suc (suc (suc (suc (suc zero)))))) h = (refl, refl)
digit_value (suc (suc (suc (suc (suc (suc (suc zero))))))) h = (refl, refl)
digit_value (suc (suc (suc (suc (suc (suc (suc (suc zero)))))))) h = (refl, refl)
digit_value (suc (suc (suc (suc (suc (suc (suc (suc (suc n))))))))) h = ground arith

parse_digit :
    (acc d : ℕ) (s : String) → d < 10 → parse_from acc (digit d ∷ s) ≡ parse_from (acc * 10 + d) s
unfolding parse_from
parse_digit acc d s h = rw ((digit_value d h).0, (digit_value d h).1)

format_from_lem :
    (fuel n : ℕ) (tail : String)
    → n < fuel
    → parse_from 0 (format_from fuel n tail) ≡ parse_from n tail
unfolding format_from
format_from_lem zero n tail h = elim h [ ]
format_from_lem (suc fuel) n tail h = elim (Bool-cases (ltb n 10)) [
  | inl small ↦
      rw small (parse_digit 0 n tail (ground arith) ∙ ap (λ k. parse_from k tail) (omega arith))
  | inr large ↦ rw large (
      format_from_lem fuel (n / 10) (digit (n % 10) ∷ tail) (ground arith)
      ∙ parse_digit (n / 10) (n % 10) tail (omega arith)
      ∙ ap (λ k. parse_from k tail) (omega arith))
]

-- What was printed reads back.
pub parse-format : (n : ℕ) → parse_from 0 (format_nat n) ≡ some n
unfolding format_nat parse_from
parse-format n = format_from_lem (suc n) n [] (omega arith)

pub format_nat_injective : (m n : ℕ) → format_nat m ≡ format_nat n → m ≡ n
format_nat_injective m n e =
    let same : some m ≡ some n = sym (parse-format m) ∙ ap (parse_from 0) e ∙ parse-format n in
    ground arith

abbrev is_nonempty : String → Bool
is_nonempty [] = false
is_nonempty (c ∷ s) = true

format_from-nonempty :
    (fuel n : ℕ) (tail : String)
    → is_nonempty tail ≡ true
    → is_nonempty (format_from fuel n tail) ≡ true
unfolding format_from
format_from-nonempty zero n tail h = h
format_from-nonempty (suc fuel) n tail h = elim (Bool-cases (ltb n 10)) [
  | inl small ↦ rw small refl
  | inr large ↦ rw large (format_from-nonempty fuel (n / 10) (digit (n % 10) ∷ tail) refl)
]

pub format_nat-nonempty : (n : ℕ) → ◌≢◌ {A = String} (format_nat n) ""
unfolding format_nat format_from
format_nat-nonempty n e =
    let shown : is_nonempty (format_nat n) ≡ true = elim (Bool-cases (ltb n 10)) [
      | inl small ↦ rw small refl
      | inr large ↦ rw large (format_from-nonempty n (n / 10) (digit (n % 10) ∷ []) refl)
    ] in
    let empty : is_nonempty (format_nat n) ≡ false = ap is_nonempty e in ground arith

-- An int64 by its bit pattern: the upper half is negative.
unfoldable pub format_int64 : ℕ → String
unfolding format_nat
format_int64 n = if ltb n (2 ^ 63) then format_nat n else ◌++◌ "-" (format_nat (2 ^ 64 - n))
