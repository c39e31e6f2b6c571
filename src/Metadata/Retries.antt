-- ===== src/Metadata/Retries.antt =====
-- The attempts to reach the metadata endpoint: how many there are, and what they leave behind.
use bent.Metadata.{
  unless_done, failure, no_response, rest, success, metadata_response_once, Failure, max_retries,
  Session, retry, metadata_response, Result, HttpClient,
}
use bent.Shared.{ℕ, zero, suc, ◌<◌, String, ◌≡◌, refl, ◌⊎◌, inl, inr, Option, none, some, arith}

module _ (c : HttpClient) where
  abbrev pub if_failed :
      (Session c → Option (Session c)) → Result String × Session c → Option (Session c)
  if_failed again (success body, s) = none
  if_failed again (failure e, s) = again (rest c s)

  -- The session after so many attempts, if each of them fails.
  abbrev pub failing : ℕ → String → Session c → Option (Session c)
  failing zero endpoint s = some s
  failing (suc n) endpoint s =
      if_failed (λ s'. failing n endpoint s') (metadata_response_once c endpoint s)

  -- The body of the first attempt that succeeds, which is one of the first `n`.
  pub record IsFirst (n : ℕ) (endpoint : String) (s : Session c) (body : String) (s' : Session c)
      : Type 0 where
    pub tries : ℕ
    pub few : tries < n
    pub before : Session c
    pub failed : failing tries endpoint s ≡ some before
    pub answer : metadata_response_once c endpoint before ≡ (success body, s')

  -- What `n` attempts give.
  abbrev pub IsRetried : ℕ → String → Session c → Result String × Session c → Type 0
  IsRetried n endpoint s (success body, s') = IsFirst n endpoint s body s'
  IsRetried n endpoint s (failure e, s') = failing n endpoint s ≡ some s'

  Result-cases :
      {A : Type 0} (r : Result A × Session c)
      → ((a : A) × (r ≡ (success a, r.1))) ⊎ ((e : Failure) × (r ≡ (failure e, r.1)))
  Result-cases (success a, s) = inl (a, refl)
  Result-cases (failure e, s) = inr (e, refl)

  IsRetried-later :
      (n : ℕ) (endpoint : String) (s : Session c) (e : Failure) (s1 : Session c)
      (r : Result String × Session c)
      → metadata_response_once c endpoint s ≡ (failure e, s1)
      → IsRetried n endpoint (rest c s1) r
      → IsRetried (suc n) endpoint s r
  IsRetried-later n endpoint s e s1 (success body, s') once f = record {
    tries = suc f.tries;
    few = omega (arith, f.few);
    before = f.before;
    failed = rw (failing, once) f.failed;
    answer = f.answer;
  }
  IsRetried-later n endpoint s e s1 (failure e', s') once f = rw (failing, once) f

  retry-IsRetried :
      (n : ℕ) (e : Failure) (endpoint : String) (s : Session c)
      → IsRetried n endpoint s (retry c n e endpoint s)
  unfolding retry unless_done
  retry-IsRetried zero e endpoint s = refl
  retry-IsRetried (suc n) e endpoint s = elim (Result-cases (metadata_response_once c endpoint s)) [
    | inl (body, once) ↦
        rw once (record { tries = 0; few = omega arith; before = s; failed = refl; answer = once })
    | inr (e', once) ↦
        rw once
          (IsRetried-later n endpoint s e' _ _ once (retry-IsRetried n e' endpoint (rest c _)))
  ]

  -- The metadata endpoint is asked at most four times: the result is the body of the first attempt
  -- that succeeds, if one of the first four does, and otherwise an error after four attempts that
  -- have all failed, each with its pause.
  pub metadata_response-IsRetried :
      (endpoint : String) (s : Session c)
      → IsRetried max_retries endpoint s (metadata_response c endpoint s)
  unfolding metadata_response
  metadata_response-IsRetried endpoint s = retry-IsRetried max_retries no_response endpoint s
