-- ===== src/Server/Rpc/Fetching.antt =====
-- The fetching RPCs on the snapshot cache, said without the type URLs.
use bent.Cache.Simple.Fetching.{
  create_response_version, create_response-resources, wanted, fetch_cases,
}
use bent.Cache.Simple.{node_id, create_response, all_resources, World}
use bent.Server.Rpc.{
  fetch_typed, fetch_secrets, fetch_listeners, fetch_routes, fetch_clusters, fetch_endpoints,
  refuse_fetch, fetch_accepted, fetch_answer, fetch,
}
use bent.Cache.Status.{Request}
use bent.Cache.Resource.{Resource}
use bent.Server.{
  created, secrets, marshal_error, cache_error, listeners, routes, callback_error, uncreated,
  discovery_response, clusters, marshal_all, Output, endpoints, create_discovery_response, Created,
  type_url_of, Callbacks, Kind,
}
use bent.Cache.Snapshot.{
  version_up_to_date, missing_snapshot, Resources, Snapshot, get_resources, get_version,
}
use bent.Server.Watcher.{snapshot_watcher}
use bent.Cache.Simple
use bent.Shared.{
  Option-cases, lookup, ℕ, String, ◌≡◌, refl, sym, ◌∙◌, ◌≢◌, inl, inr, Option, none, some, List,
  arith, string_key, nat_key,
}

-- The group of a snapshot for a kind.
abbrev pub group_for : Kind → Snapshot → Resources
group_for endpoints s = s.endpoints
group_for clusters s = s.clusters
group_for routes s = s.routes
group_for listeners s = s.listeners
group_for secrets s = s.secrets

get_version-type_url_of :
    (k : Kind) (s : Snapshot) → get_version (some s) (type_url_of k) ≡ (group_for k s).version
unfolding get_version
get_version-type_url_of endpoints s = refl
get_version-type_url_of clusters s = refl
get_version-type_url_of routes s = refl
get_version-type_url_of listeners s = refl
get_version-type_url_of secrets s = refl

get_resources-type_url_of :
    (k : Kind) (s : Snapshot) → get_resources (some s) (type_url_of k) ≡ (group_for k s).items
unfolding get_resources
get_resources-type_url_of endpoints s = refl
get_resources-type_url_of clusters s = refl
get_resources-type_url_of routes s = refl
get_resources-type_url_of listeners s = refl
get_resources-type_url_of secrets s = refl

module _ (marshal : Resource → Option (List ℕ)) (callbacks : Option Callbacks) where
  -- The RPC of a kind.
  abbrev pub fetch_of : Kind → Option Request → World → Created × List Output
  fetch_of endpoints = fetch_endpoints snapshot_watcher marshal callbacks
  fetch_of clusters = fetch_clusters snapshot_watcher marshal callbacks
  fetch_of routes = fetch_routes snapshot_watcher marshal callbacks
  fetch_of listeners = fetch_listeners snapshot_watcher marshal callbacks
  fetch_of secrets = fetch_secrets snapshot_watcher marshal callbacks

  abbrev pub refusal : Request → Option String
  refusal req = elim callbacks [ none ↦ none | some cb ↦ cb.on_fetch_request req ]

  -- The response with the resources of a group that the names ask for.
  abbrev pub response_from : Kind → List String → Resources → Created
  response_from k names g =
      elim (marshal_all marshal (type_url_of k) (all_resources (wanted names g.items))) [
        | none ↦ uncreated marshal_error
        | some resources ↦ created (record {
          version_info = g.version;
          resources = resources;
          type_url = type_url_of k;
          nonce = "";
        })
      ]

  -- What the client of a kind gets for a request: what the callback refuses with, what the cache
  -- fails with, or the resources that it asked for.
  pub data IsFetched (k : Kind) (req : Request) (w : World) (r : Created) : Type 0 where
    refused_by :
        (e : String)
        → refusal (record req { type_url = type_url_of k }) ≡ some e
        → r ≡ uncreated (callback_error e)
        → IsFetched k req w r
    unknown_node :
        refusal (record req { type_url = type_url_of k }) ≡ none
        → lookup (node_id req.node) w.snapshots ≡ none
        → r ≡ uncreated (cache_error (missing_snapshot (node_id req.node)))
        → IsFetched k req w r
    up_to_date :
        (s : Snapshot)
        → refusal (record req { type_url = type_url_of k }) ≡ none
        → lookup (node_id req.node) w.snapshots ≡ some s
        → (group_for k s).version ≡ req.version_info
        → r ≡ uncreated (cache_error version_up_to_date)
        → IsFetched k req w r
    served :
        (s : Snapshot)
        → refusal (record req { type_url = type_url_of k }) ≡ none
        → lookup (node_id req.node) w.snapshots ≡ some s
        → (group_for k s).version ≢ req.version_info
        → r ≡ response_from k req.resource_names (group_for k s)
        → IsFetched k req w r

  refuse_fetch_lem :
      (cb : Option Callbacks) (req : Request)
      → refuse_fetch snapshot_watcher marshal callbacks cb req
        ≡ (elim cb [ none ↦ none | some c ↦ c.on_fetch_request req ])
  unfolding refuse_fetch
  refuse_fetch_lem none req = refl
  refuse_fetch_lem (some c) req = refl

  created_response :
      (k : Kind) (req : Request) (s : Snapshot)
      → create_discovery_response marshal
          (some (
            create_response req
              (get_resources (some s) (type_url_of k))
              (get_version (some s) (type_url_of k))))
          (type_url_of k)
        ≡ response_from k req.resource_names (group_for k s)
  unfolding create_discovery_response discovery_response
  created_response k req s =
      let items = get_resources (some s) (type_url_of k) in
      let version = get_version (some s) (type_url_of k) in
      rw
        (
          create_response-resources req items version,
          create_response_version req items version,
          get_version-type_url_of k s,
          get_resources-type_url_of k s,
        )
        (ground arith)

  -- The cache's part.
  answered :
      (k : Kind) (req : Request) (w : World)
      → refusal (record req { type_url = type_url_of k }) ≡ none
      → IsFetched k req w
          (fetch_answer snapshot_watcher marshal callbacks
            (record req { type_url = type_url_of k })
            (Simple.fetch (record req { type_url = type_url_of k }) w.cache)).0
  unfolding fetch_answer
  answered k req w accepted =
      let req' : Request = record req { type_url = type_url_of k } in
      elim (fetch_cases req' w.cache) [
        | inl (missing, failed) ↦ unknown_node accepted missing (rw failed refl)
        | inr (s, stored, inl (same, failed)) ↦
            up_to_date s accepted stored (sym (get_version-type_url_of k s) ∙ same) (rw failed refl)
        | inr (s, stored, inr (differ, got)) ↦
            served s accepted stored (λ same. differ (get_version-type_url_of k s ∙ same))
              (rw got (created_response k req' s))
      ]

  -- The RPC with the type URL of a kind.
  fetch-IsFetched :
      (k : Kind) (req : Request) (w : World)
      → IsFetched k req w
          (fetch snapshot_watcher marshal callbacks (record req { type_url = type_url_of k }) w).0
  unfolding fetch fetch_accepted
  fetch-IsFetched k req w =
      let req' : Request = record req { type_url = type_url_of k } in
      let same = refuse_fetch_lem callbacks req' in
      elim (Option-cases (refuse_fetch snapshot_watcher marshal callbacks callbacks req')) [
        | inl fine ↦ rw fine (answered k req w (sym same ∙ fine))
        | inr (e, refused) ↦ rw refused (refused_by e (sym same ∙ refused) refl)
      ]

  -- A fetching RPC, on each of its branches: the callback refuses; the node has no snapshot; the
  -- client has the version of the kind's group; or the client is sent the resources of that group
  -- which it names, all of them if it names none, with the group's version and the kind's type URL,
  -- unless one of them cannot be marshalled.
  pub fetch_of-IsFetched :
      (k : Kind) (req : Request) (w : World) → IsFetched k req w (fetch_of k (some req) w).0
  unfolding fetch_endpoints fetch_clusters fetch_routes fetch_listeners fetch_secrets fetch_typed
  fetch_of-IsFetched endpoints req w = fetch-IsFetched endpoints req w
  fetch_of-IsFetched clusters req w = fetch-IsFetched clusters req w
  fetch_of-IsFetched routes req w = fetch-IsFetched routes req w
  fetch_of-IsFetched listeners req w = fetch-IsFetched listeners req w
  fetch_of-IsFetched secrets req w = fetch-IsFetched secrets req w
