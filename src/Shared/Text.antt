-- ===== src/Shared/Text.antt =====
-- The functions of Go's package `strings` that the repository calls: TrimPrefix, and Split at a
-- separator that is a text.
use Prim.Native.Char.{Char, code}
use Prim.Native.String.{String, [], ◌∷◌, ◌++◌}
use Prim.Native.Nat.{ℕ, zero, suc, ◌-◌}
use mathlib.Core.Path.{◌≡◌, refl, sym, ap, ◌∙◌}
use mathlib.Core.Logic.{inl, inr}
use mathlib.Core.Bool.{Bool, true, false, ◌||◌}
use mathlib.Core.List.{List, [], ◌∷◌}
use mathlib.Core.Option.{Option, none, some}
use native.Mathlib.Omega.{arith}
use text.Mathlib.TextEquality.{Char-path}
use text.Mathlib.TextLemmas.{append-nil, nil-append, cons-append}
use bent.Shared.Tests.{nat_eq, if◌then◌else◌, get_or, is_some, Option-cases, Bool-cases}

-- What follows a prefix; `none` if the text does not begin with it.
unfoldable pub after_prefix : String → String → Option String
after_prefix [] s = some s
after_prefix (p ∷ prefix) [] = none
after_prefix (p ∷ prefix) (c ∷ s) = if nat_eq (code p) (code c) then after_prefix prefix s else none

-- `strings.TrimPrefix(s, prefix)`
unfoldable pub trim_prefix : String → String → String
unfolding after_prefix
trim_prefix s prefix = get_or (after_prefix prefix s) s

abbrev pub size : String → ℕ
size [] = 0
size (c ∷ s) = suc (size s)

-- A character in front of the first part.
abbrev pub push_char : Char → List String → List String
push_char c [] = (c ∷ []) ∷ []
push_char c (part ∷ parts) = (c ∷ part) ∷ parts

-- The parts of a text, once `skip` characters of it are left out.
split_from : String → ℕ → String → List String
split_from sep skip [] = [] ∷ []
split_from sep (suc skip) (c ∷ s) = split_from sep skip s
split_from sep zero (c ∷ s) = elim (after_prefix sep (c ∷ s)) [
  | some rest ↦ [] ∷ split_from sep (size sep - 1) s
  | none ↦ push_char c (split_from sep zero s)
]

-- `strings.Split(s, sep)` at a separator that is not empty.
unfoldable pub split_text : String → String → List String
unfolding split_from after_prefix
split_text s sep = split_from sep zero s

-- The separator before each of the parts.
abbrev pub joined_after : String → List String → String
joined_after sep [] = []
joined_after sep (part ∷ parts) = sep ++ (part ++ joined_after sep parts)

-- `strings.Join(parts, sep)`
abbrev pub join_text : String → List String → String
join_text sep [] = []
join_text sep (part ∷ parts) = part ++ joined_after sep parts

pub after_prefix_lem :
    (prefix s : String) {rest : String} → after_prefix prefix s ≡ some rest → s ≡ prefix ++ rest
unfolding after_prefix
after_prefix_lem [] s {rest} e = rw nil-append (ground arith)
after_prefix_lem (p ∷ prefix) [] e = ground arith
after_prefix_lem (p ∷ prefix) (c ∷ s) {rest} e = elim (Bool-cases (nat_eq (code p) (code c))) [
  | inl same ↦
      ap (λ (d : Char). d ∷ s) (Char-path c p (ground arith))
      ∙ ap (λ (t : String). p ∷ t) (after_prefix_lem prefix s (ground (arith, same)))
      ∙ sym (cons-append p prefix rest)
  | inr differ ↦ absurd (ground (arith, differ))
]

pub after_prefix-append : (prefix rest : String) → after_prefix prefix (prefix ++ rest) ≡ some rest
unfolding after_prefix
after_prefix-append [] rest = rw nil-append refl
after_prefix-append (p ∷ prefix) rest =
    rw cons-append (ground (arith, after_prefix-append prefix rest))

abbrev drop_text : ℕ → String → String
drop_text skip [] = []
drop_text zero (c ∷ s) = c ∷ s
drop_text (suc skip) (c ∷ s) = drop_text skip s

drop_text_zero : (s : String) → drop_text 0 s ≡ s
drop_text_zero [] = refl
drop_text_zero (c ∷ s) = refl

drop_text-size :
    (prefix s : String) {rest : String}
    → after_prefix prefix s ≡ some rest
    → drop_text (size prefix) s ≡ rest
unfolding after_prefix
drop_text-size [] [] e = ground arith
drop_text-size [] (c ∷ s) e = ground arith
drop_text-size (p ∷ prefix) [] e = ground arith
drop_text-size (p ∷ prefix) (c ∷ s) e = drop_text-size prefix s (ground arith)

abbrev is_cons : List String → Bool
is_cons [] = false
is_cons (part ∷ parts) = true

is_cons-push_char : (c : Char) (parts : List String) → is_cons (push_char c parts) ≡ true
is_cons-push_char c [] = refl
is_cons-push_char c (part ∷ parts) = refl

-- There is at least one part.
is_cons-split_from : (sep : String) (skip : ℕ) (s : String) → is_cons (split_from sep skip s) ≡ true
unfolding split_from
is_cons-split_from sep skip [] = refl
is_cons-split_from sep (suc skip) (c ∷ s) = is_cons-split_from sep skip s
is_cons-split_from sep zero (c ∷ s) = elim (Option-cases (after_prefix sep (c ∷ s))) [
  | inl other ↦ rw (split_from, other) (is_cons-push_char c (split_from sep zero s))
  | inr (rest, here) ↦ rw (split_from, here) refl
]

joined_after_lem :
    (sep : String) (parts : List String)
    → is_cons parts ≡ true
    → joined_after sep parts ≡ sep ++ join_text sep parts
joined_after_lem sep [] e = cc
joined_after_lem sep (part ∷ parts) e = refl

join_text-push_char :
    (sep : String) (c : Char) (parts : List String)
    → join_text sep (push_char c parts) ≡ c ∷ join_text sep parts
join_text-push_char sep c [] = append-nil (c ∷ [])
join_text-push_char sep c (part ∷ parts) = cons-append c part (joined_after sep parts)

join_text-split_from :
    (p : Char) (ps : String) (skip : ℕ) (s : String)
    → join_text (p ∷ ps) (split_from (p ∷ ps) skip s) ≡ drop_text skip s
unfolding split_from
join_text-split_from p ps skip [] = append-nil []
join_text-split_from p ps (suc skip) (c ∷ s) = join_text-split_from p ps skip s
join_text-split_from p ps zero (c ∷ s) = elim (Option-cases (after_prefix (p ∷ ps) (c ∷ s))) [
  | inl other ↦
      rw (split_from, other)
        (join_text-push_char (p ∷ ps) c (split_from (p ∷ ps) zero s)
          ∙ ap (λ (t : String). c ∷ t) (join_text-split_from p ps zero s ∙ drop_text_zero s))
  | inr (rest, here) ↦
      let later : after_prefix ps s ≡ some rest = unfold after_prefix in ground (arith) in
      rw (split_from, here)
        (nil-append (joined_after (p ∷ ps) (split_from (p ∷ ps) (size (p ∷ ps) - 1) s))
          ∙ joined_after_lem (p ∷ ps) (split_from (p ∷ ps) (size (p ∷ ps) - 1) s)
              (is_cons-split_from (p ∷ ps) (size (p ∷ ps) - 1) s)
          ∙ ap (λ (t : String). (p ∷ ps) ++ t)
              (join_text-split_from p ps (size (p ∷ ps) - 1) s
                ∙ ap (λ k. drop_text k s) (omega arith)
                ∙ drop_text-size ps s later)
          ∙ sym (after_prefix_lem (p ∷ ps) (c ∷ s) here))
]

-- The parts, joined again, are the text.
pub join-split_text : (p : Char) (ps s : String) → join_text (p ∷ ps) (split_text s (p ∷ ps)) ≡ s
unfolding split_text
join-split_text p ps s = join_text-split_from p ps zero s ∙ drop_text_zero s

-- Whether a text that is not empty occurs in another.
abbrev pub occurs : String → String → Bool
occurs sep [] = false
occurs sep (c ∷ s) = is_some (after_prefix sep (c ∷ s)) || occurs sep s

-- Whether it occurs in `before` and `rest` together, at a place within `before`.
abbrev pub occurs_within : String → String → String → Bool
occurs_within sep [] rest = false
occurs_within sep (c ∷ before) rest =
    is_some (after_prefix sep (c ∷ (before ++ rest))) || occurs_within sep before rest

abbrev pub is_split : List String → Bool
is_split [] = false
is_split (part ∷ parts) = is_cons parts

is_split-push_char :
    (c : Char) (parts : List String) → is_split (push_char c parts) ≡ is_split parts
is_split-push_char c [] = refl
is_split-push_char c (part ∷ parts) = refl

-- There are two parts or more exactly if the separator occurs.
pub is_split-split_text : (sep s : String) → is_split (split_text s sep) ≡ occurs sep s
unfolding split_text
is_split-split_text sep [] = refl
is_split-split_text sep (c ∷ s) = elim (Option-cases (after_prefix sep (c ∷ s))) [
  | inl other ↦
      rw (split_from, other)
        (is_split-push_char c (split_from sep zero s) ∙ is_split-split_text sep s)
  | inr (rest, here) ↦ rw (split_from, here) (is_cons-split_from sep (size sep - 1) s)
]

split_from_free : (sep s : String) → occurs sep s ≡ false → split_from sep zero s ≡ s ∷ []
unfolding split_from
split_from_free sep [] h = refl
split_from_free sep (c ∷ s) h = elim (Option-cases (after_prefix sep (c ∷ s))) [
  | inl other ↦ rw (split_from, other, split_from_free sep s (ground (arith, other))) refl
  | inr (rest, here) ↦ absurd (ground (arith, here))
]

split_from-append : (sep ps s : String) → split_from sep (size ps) (ps ++ s) ≡ split_from sep zero s
unfolding split_from
split_from-append sep [] s = rw nil-append refl
split_from-append sep (p ∷ ps) s = rw cons-append (split_from-append sep ps s)

-- A text that is put together from two parts falls apart into them.
pub split_text-append :
    (p : Char) (ps before after : String)
    → occurs_within (p ∷ ps) before ((p ∷ ps) ++ after) ≡ false
    → occurs (p ∷ ps) after ≡ false
    → split_text (before ++ ((p ∷ ps) ++ after)) (p ∷ ps) ≡ before ∷ after ∷ []
unfolding split_text
split_text-append p ps [] after h k =
    let here = after_prefix-append (p ∷ ps) after in
    let opened = cons-append p ps after in
    let less : size (p ∷ ps) - 1 ≡ size ps = omega arith in
    rw (nil-append, opened, split_from, rw opened at here)
      (ap (λ (parts : List String). [] ∷ parts)
        (ap (λ k. split_from (p ∷ ps) k (ps ++ after)) less
          ∙ split_from-append (p ∷ ps) ps after
          ∙ split_from_free (p ∷ ps) after k))
split_text-append p ps (c ∷ before) after h k =
    let ih = split_text-append p ps before after (ground arith) k in
    elim (Option-cases (after_prefix (p ∷ ps) (c ∷ (before ++ ((p ∷ ps) ++ after))))) [
      | inl other ↦ rw (cons-append, split_from, other, ih) refl
      | inr (rest, here) ↦ absurd (ground (arith, here))
    ]
