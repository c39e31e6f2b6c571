-- ===== src/Cache/Simple/Fetching.antt =====
-- The polling method of the cache, and the contents of its responses.
use bent.Cache.Snapshot.{
  get_resources, version_up_to_date, missing_snapshot, get_version, Snapshot, name_set,
}
use bent.Cache.Status.{Request}
use bent.Cache.Snapshot.Index.{contains-name_set, is_listed}
use bent.Cache.Resource.{Resource}
use bent.Cache.Simple.{
  fetched, refused, node_id, SnapshotCache, Fetched, fetch, all_resources, create_response,
  named_resources,
}
use bent.Shared.{
  ==_iff, Option-cases, keep_if, Map, lookup, String, ◌≡◌, refl, ◌≢◌, ◌⊎◌, inl, inr, none, some,
  List, [], ◌∷◌, arith, string_key, nat_key,
}

-- The resources of a map, by their names, that a client asked for.
named_resources_lem :
    (names : List String) (m : Map String Resource)
    → named_resources (name_set names) m ≡ all_resources (keep_if (λ e. is_listed e.0 names) m)
unfolding named_resources all_resources
named_resources_lem names [] = refl
named_resources_lem names ((name, r) ∷ m) =
    ground (arith, contains-name_set name names, named_resources_lem names m)

-- The resources that a request with these names asks for: all of them, if it names none.
abbrev pub wanted : List String → Map String Resource → Map String Resource
wanted [] m = m
wanted (n ∷ names) m = keep_if (λ e. is_listed e.0 (n ∷ names)) m

create_response-resources_for :
    (names : List String) (request : Request) (m : Map String Resource) (version : String)
    → request.resource_names ≡ names
    → (create_response request m version).resources ≡ all_resources (wanted names m)
unfolding create_response
create_response-resources_for [] request m version e = rw e refl
create_response-resources_for (n ∷ names) request m version e =
    rw e (ground (arith, named_resources_lem (n ∷ names) m))

-- A response has the request's resources and no others, in the map's order: those that it names, or
-- all of them if it names none.
pub create_response-resources :
    (request : Request) (m : Map String Resource) (version : String)
    → (create_response request m version).resources
      ≡ all_resources (wanted request.resource_names m)
create_response-resources request m version =
    create_response-resources_for request.resource_names request m version refl

pub create_response_version :
    (request : Request) (m : Map String Resource) (version : String)
    → (create_response request m version).version ≡ version
unfolding create_response
create_response_version request m version = refl

-- What `Fetch` returns when the node has a snapshot.
abbrev pub FetchedFrom : Request → Snapshot → Fetched → Type 0
FetchedFrom request snapshot r =
    ((get_version (some snapshot) request.type_url ≡ request.version_info)
      × (r ≡ refused version_up_to_date))
    ⊎ ((get_version (some snapshot) request.type_url ≢ request.version_info)
        × (r
            ≡ fetched (
                create_response request (get_resources (some snapshot) request.type_url)
                  (get_version (some snapshot) request.type_url))))

-- `Fetch` has three results. Without a snapshot for the node it fails and names the node; if the
-- client has the snapshot's version it is refused; otherwise it gets the response.
pub fetch_cases :
    (request : Request) (cache : SnapshotCache)
    → ((lookup (node_id request.node) cache.snapshots ≡ none)
        × (fetch request cache ≡ refused (missing_snapshot (node_id request.node))))
      ⊎ ((snapshot : Snapshot) × (lookup (node_id request.node) cache.snapshots ≡ some snapshot)
          × FetchedFrom request snapshot (fetch request cache))
unfolding fetch
fetch_cases request cache = elim (Option-cases (lookup (node_id request.node) cache.snapshots)) [
  | inl missing ↦ inl (missing, rw missing refl)
  | inr (snapshot, stored) ↦ inr (
    snapshot,
    stored,
    rw (stored, fetch)
        (ground
          (arith, ==_iff request.version_info (get_version (some snapshot) request.type_url))),
  )
]
