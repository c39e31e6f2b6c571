-- ===== src/Cache/Snapshot/Consistency.antt =====
-- The consistency check of a snapshot.
use bent.Cache.Snapshot.{Snapshot, consistent, superset}
use bent.Cache.Resource.{get_resource_references, Resource, Decoders}
use bent.Shared.{
  length, Map, contains, String, ◌≡◌, refl, ◌↔◌, Bool, true, none, some, [], ◌∷◌, arith, string_key,
  nat_key,
}

-- Every resource of the map is named in the set.
abbrev pub AllListed : Map String Bool → Map String Resource → Type 0
AllListed names [] = Unit
AllListed names ((name, r) ∷ rest) = (contains name names ≡ true) × AllListed names rest

-- `superset` reports no error exactly if every resource is named.
pub superset_iff :
    (names : Map String Bool) (m : Map String Resource)
    → (superset names m ≡ none) ↔ AllListed names m
unfolding superset
superset_iff names [] = (λ e. tt, λ h. refl)
superset_iff names ((name, r) ∷ m) = grind (arith, superset_iff names m)

module _ (d : Decoders) where
  -- What the check promises: the resources of a kind are as many as the references to them, and
  -- each is referred to.
  pub record IsConsistent (s : Snapshot) : Type 0 where
    pub endpoints_count :
        length (get_resource_references d s.clusters.items) ≡ length s.endpoints.items
    pub endpoints_listed : AllListed (get_resource_references d s.clusters.items) s.endpoints.items
    pub routes_count : length (get_resource_references d s.listeners.items) ≡ length s.routes.items
    pub routes_listed : AllListed (get_resource_references d s.listeners.items) s.routes.items

  -- `Consistent` accepts a snapshot exactly if its endpoints and clusters fit together, and its
  -- routes and listeners.
  pub consistent_iff : (s : Snapshot) → (consistent d (some s) ≡ none) ↔ IsConsistent s
  unfolding consistent
  consistent_iff s =
      let eps = superset_iff (get_resource_references d s.clusters.items) s.endpoints.items in
      let rts = superset_iff (get_resource_references d s.listeners.items) s.routes.items in
      (
        λ e. record {
          endpoints_count = ground arith;
          endpoints_listed = eps.0 (ground arith);
          routes_count = ground arith;
          routes_listed = rts.0 (ground arith);
        },
        λ v.
            let e1 = eps.1 v.endpoints_listed in
            let e2 = rts.1 v.routes_listed in ground (arith, e1, e2),
      )
