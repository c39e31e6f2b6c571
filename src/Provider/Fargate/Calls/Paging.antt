-- ===== src/Provider/Fargate/Calls/Paging.antt =====
-- The loop over the pages of an answer.
use bent.Provider.Fargate.Calls.{paged, ok, list_pages}
use bent.Provider.Fargate.Ecs.{answer, Page, Answer}
use mathlib.Core.List.{append-nil, append_assoc}
use bent.Shared.{
  length, concat, ℕ, zero, suc, ◌≤◌, String, ◌≡◌, refl, ◌∙◌, Option, none, some, List, [], ◌∷◌,
  ◌++◌, arith,
}

module _ {S : Type 0} (next : Option String → S → Answer Page × S) (explain : String → String) where
  -- From a token and a state the client serves these pages and ends in that state.
  pub data Serves : Option String → S → List (List String) → S → Type 0 where
    last :
        {token : Option String} {s s' : S} {page : Page}
        → next token s ≡ (answer page, s')
        → page.next_token ≡ none
        → Serves token s (page.arns ∷ []) s'
    more :
        {token : Option String} {s s' s'' : S} {page : Page} {token' : String}
        {pages : List (List String)}
        → next token s ≡ (answer page, s')
        → page.next_token ≡ some token'
        → Serves (some token') s' pages s''
        → Serves token s (page.arns ∷ pages) s''

  list_pages_from :
      (fuel : ℕ) (arns : List String) (token : Option String) (s : S) {s' : S}
      {pages : List (List String)}
      → Serves token s pages s'
      → length pages ≤ fuel
      → list_pages next explain fuel token arns s ≡ ok (arns ++ concat pages, s')
  unfolding list_pages
  list_pages_from zero arns token s (last e end) h = absurd (omega arith)
  list_pages_from zero arns token s (more e goes rest) h = absurd (omega arith)
  list_pages_from (suc fuel) arns token s (last e end) h =
      rw (list_pages, e, paged, end, append-nil) refl
  list_pages_from (suc fuel) arns token s
        (more {s' = s1} {page = page} {token' = token'} e goes rest) h =
      rw (list_pages, e, paged, goes)
        (list_pages_from fuel (arns ++ page.arns) (some token') s1 rest (omega arith)
          ∙ rw append_assoc refl)

  -- If the client serves finitely many pages, then with at least as much fuel the loop ends, with
  -- what all the pages hold, in order.
  pub list_pages_lem :
      {s s' : S} {pages : List (List String)} (fuel : ℕ)
      → Serves none s pages s'
      → length pages ≤ fuel
      → list_pages next explain fuel none [] s ≡ ok (concat pages, s')
  list_pages_lem {s} fuel served h = list_pages_from fuel [] none s served h
