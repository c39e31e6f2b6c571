-- ===== src/Cache/Simple/Held.antt =====
-- When ADS holds a response back, and what becomes of the channel then.
use bent.Cache.Simple.{held_back}
use bent.Cache.Simple.Notify.{answers, is_current, is_held_back}
use bent.Cache.Simple.Usage.{uses}
use bent.Cache.Channels.{pending_in}
use bent.Cache.Resource.{Resource}
use bent.Cache.Snapshot.{superset, name_set, Snapshot}
use bent.Cache.Snapshot.Index.{contains-name_set, is_listed}
use bent.Cache.Status.{Request, ResponseWatch}
use bent.Shared.{
  nat_eq, ◌==◌, ==_refl, Bool-cases, is_some, length, Map, lookup, contains, ℕ, ◌+◌, ◌≤◌, String,
  ◌≡◌, refl, ◌≢◌, ◌⊎◌, inl, inr, Bool, true, false, ◌||◌, none, some, List, [], ◌∷◌, arith,
  string_key, nat_key,
}

-- The request names each of the resources.
abbrev pub AllRequested : List String → Map String Resource → Type 0
AllRequested names [] = Unit
AllRequested names ((name, r) ∷ m) = (is_listed name names ≡ true) × AllRequested names m

superset-cases :
    (names : List String) (m : Map String Resource)
    → ((superset (name_set names) m ≡ none) × AllRequested names m)
      ⊎ ((is_some (superset (name_set names) m) ≡ true)
          × (name : String) × (contains name m ≡ true)
          × (is_listed name names ≡ false))
unfolding superset lookup
superset-cases names [] = inl (refl, tt)
superset-cases names ((name, r) ∷ m) = elim (Bool-cases (is_listed name names)) [
  | inl named ↦ elim (superset-cases names m) [
    | inl (all, requested) ↦
        inl (ground (arith, all, named, contains-name_set name names), (named, requested))
    | inr (some_not, other, there, missing) ↦ inr (
      ground (arith, some_not, named, contains-name_set name names),
      other,
      ground (arith, there),
      missing,
    )
  ]
  | inr missing ↦ inr (
    ground (arith, missing, contains-name_set name names),
    name,
    ground (arith, ==_refl name),
    missing,
  )
]

-- Nothing is held back without ADS, or from a request that names no resource, or each that there is.
abbrev pub IsFree : Bool → Request → Map String Resource → Type 0
IsFree ads request resources =
    (ads ≡ false) ⊎ (request.resource_names ≡ []) ⊎ AllRequested request.resource_names resources

-- ADS waits until the request names each resource: one is missing.
pub record IsHeld (ads : Bool) (request : Request) (resources : Map String Resource) : Type 0 where
  pub mode : ads ≡ true
  pub names : request.resource_names ≢ []
  pub resource : String
  pub there : contains resource resources ≡ true
  pub unnamed : is_listed resource request.resource_names ≡ false

length-zero : (names : List String) → nat_eq (length names) 0 ≡ false → names ≢ []
length-zero [] e same = absurd (ground (arith, e))
length-zero (n ∷ names) e same = absurd (cc)

length-none : (names : List String) → nat_eq (length names) 0 ≡ true → names ≡ []
length-none [] e = refl
length-none (n ∷ names) e = absurd (ground (arith, e))

pub held_back-cases :
    (ads : Bool) (request : Request) (resources : Map String Resource)
    → ((held_back ads request resources ≡ false) × IsFree ads request resources)
      ⊎ ((held_back ads request resources ≡ true) × IsHeld ads request resources)
unfolding held_back
held_back-cases ads request resources =
    let names = request.resource_names in
    elim (Bool-cases ads) [
      | inr off ↦ inl (ground (arith, off), inl off)
      | inl on ↦ elim (Bool-cases (nat_eq (length names) 0)) [
        | inl nothing ↦ inl (ground (arith, nothing), inr (inl (length-none names nothing)))
        | inr something ↦ elim (superset-cases names resources) [
          | inl (all, requested) ↦ inl (ground (arith, all), inr (inr requested))
          | inr (some_not, name, there, missing) ↦ inr (
            ground (arith, on, something, some_not),
            record {
              mode = on;
              names = length-zero names something;
              resource = name;
              there = there;
              unnamed = missing;
            },
          )
        ]
      ]
    ]

module _ (ads : Bool) (snapshot : Snapshot) where
  answers_le :
      (c : ℕ) (ws : Map ℕ ResponseWatch) → pending_in c (answers ads snapshot ws) ≤ uses c ws
  answers_le c [] = omega arith
  answers_le c ((id, w) ∷ ws) =
      let ih = answers_le c ws in
      elim (Bool-cases (is_current snapshot w || is_held_back ads snapshot w)) [
        | inl skipped ↦ rw skipped (ground (arith, ih))
        | inr sent ↦ rw sent (ground (arith, ih))
      ]

  -- The channel of a watch whose response is held back gets no value from it.
  pub answers_held :
      (id : ℕ) (v : ResponseWatch) (ws : Map ℕ ResponseWatch)
      → lookup id ws ≡ some v
      → is_held_back ads snapshot v ≡ true
      → pending_in v.response (answers ads snapshot ws) + 1 ≤ uses v.response ws
  unfolding lookup
  answers_held id v [] e held = cc
  answers_held id v ((i, u) ∷ ws) e held = elim (Bool-cases (i == id)) [
    | inl hit ↦
        let same : u ≡ v = ground arith in
        let le = answers_le v.response ws in
        elim (Bool-cases (is_current snapshot v)) [
          | inl current ↦ rw (same, current) (ground (arith, le))
          | inr stale ↦ rw (same, stale, held) (ground (arith, le))
        ]
    | inr miss ↦
        let ih = answers_held id v ws (ground arith) held in
        elim (Bool-cases (is_current snapshot u || is_held_back ads snapshot u)) [
          | inl skipped ↦ rw skipped (ground (arith, ih))
          | inr sent ↦ rw sent (ground (arith, ih))
        ]
  ]
