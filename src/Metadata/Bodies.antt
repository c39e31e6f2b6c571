-- ===== src/Metadata/Bodies.antt =====
-- The bodies that the attempts leave open.
use bent.Metadata.{
  incorrect_status, no_response, rest, failure, Failure, max_retries, answered, Session,
  metadata_response, metadata_response_once, Answer, unless_done, retry, HttpClient,
}
use bent.Shared.{nat_eq, ℕ, zero, suc, ◌+◌, String, ◌≡◌, refl, false, some, arith}

module _ (c : HttpClient) where
  -- The endpoint answers every request of this address, but never with the status 200.
  abbrev pub IsUnwell : String → Type 0
  IsUnwell endpoint =
      (state : c.State)
      → (a : Answer) × ((c.get endpoint state).0 ≡ some a) × (nat_eq a.status_code 200 ≡ false)

  once_leaks :
      (endpoint : String) (s : Session c)
      → IsUnwell endpoint
      → (e : Failure) × (s' : Session c) × (metadata_response_once c endpoint s ≡ (failure e, s'))
        × (s'.unclosed ≡ s.unclosed + 1)
  unfolding metadata_response_once answered
  once_leaks endpoint s h =
      let (a, e, wrong) = h s.state in
      let s' : Session c = record {
        state = (c.get endpoint s.state).1;
        unclosed = s.unclosed + 1;
        slept = s.slept;
      } in
      (incorrect_status a.status_code, s', rw (e, wrong) refl, refl)

  retry_leaks :
      (n : ℕ) (e : Failure) (endpoint : String) (s : Session c)
      → IsUnwell endpoint
      → (retry c n e endpoint s).1.unclosed ≡ s.unclosed + n
  unfolding retry unless_done
  retry_leaks zero e endpoint s h = omega arith
  retry_leaks (suc n) e endpoint s h =
      let (e', s', once, more) = once_leaks endpoint s h in
      let later = retry_leaks n e' endpoint (rest c s') h in
      rw (retry, once) (omega (arith, more, later))

  -- While the endpoint answers with another status than 200, no body is ever closed: after the four
  -- attempts there are four more that are open.
  pub metadata_response_leaks :
      (endpoint : String) (s : Session c)
      → IsUnwell endpoint
      → (metadata_response c endpoint s).1.unclosed ≡ s.unclosed + 4
  unfolding metadata_response
  metadata_response_leaks endpoint s h = retry_leaks max_retries no_response endpoint s h
