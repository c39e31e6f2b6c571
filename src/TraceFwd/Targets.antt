-- ===== src/TraceFwd/Targets.antt =====
-- Which targets are asked, and what the client is told.
use Prim.Native.String
use bent.TraceFwd.{do_request, Reply, Incoming, Network, parse_targets}
use bent.Shared.{
  ◌==◌, Bool-cases, split_text, join_text, join-split_text, String, ◌≡◌, subst, ◌⊎◌, inl, inr, Bool,
  true, false, Option, none, some, List, [], ◌∷◌, ◌++◌, arith, string_key, nat_key,
}

module _ (net : Network) where
  abbrev pub if_answered : (net.State → Option net.State) → Bool × net.State → Option net.State
  if_answered next (true, s) = next s
  if_answered next (false, s) = none

  -- The state after these targets were asked in order and all have answered.
  abbrev pub answered : List String → Incoming → net.State → Option net.State
  answered [] r s = some s
  answered (target ∷ targets) r s =
      if_answered (λ s'. answered targets r s') (do_request net r target s)

  -- The target that did not answer.
  pub record IsFirst (targets : List String) (r : Incoming) (s s' : net.State) : Type 0 where
    pub before : List String
    pub target : String
    pub after : List String
    pub split : targets ≡ before ++ target ∷ after
    pub between : net.State
    pub asked : answered before r s ≡ some between
    pub failed : do_request net r target between ≡ (false, s')

  -- The dump, if the request could be dumped: 200 and the text, else an empty 500.
  abbrev pub IsDump : Option String → Reply → Type 0
  IsDump (some dump) reply =
      (reply.status ≡ 200)
      × (reply.body ≡ String.◌++◌ "\n========== your request ==========\n" dump)
  IsDump none reply = (reply.status ≡ 500) × (reply.body ≡ "")

  -- Either all targets have answered and the reply is the dump, or 500 without one; or one target
  -- fails, all those before it have answered, no other is asked, and the reply is an empty 500.
  abbrev pub IsServed : List String → Incoming → net.State → Reply × net.State → Type 0
  IsServed targets r s (reply, s') =
      ((answered targets r s ≡ some s') × IsDump r.dump reply)
      ⊎ (IsFirst targets r s s' × (reply.status ≡ 500) × (reply.body ≡ ""))

-- The targets of the environment, joined by commas, are the text in the environment; only an empty
-- one ends the program.
pub join-parse_targets :
    (env : String) (targets : List String)
    → parse_targets env ≡ some targets
    → join_text "," targets ≡ env
unfolding parse_targets
join-parse_targets env targets e = elim (Bool-cases (env == "")) [
  | inl missing ↦ absurd (ground (arith, missing))
  | inr given ↦
      let same : split_text env "," ≡ targets = ground (arith, given, e) in
      subst (λ (ts : List String). join_text "," ts ≡ env) same (join-split_text "," "" env)
]
