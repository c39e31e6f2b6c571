-- ===== src/Cache/Snapshot.antt =====
-- pkg/cache/snapshot.go: a versioned group of resources for each type, and the consistency check.
-- `superset` and `nameSet` are of simple.go, and stand here because the check calls them.
pub mod Index
pub mod Consistency
pub mod Typed
use bent.Shared.{
  nat_eq, if◌then◌else◌, ◌==◌, length, Map, insert, contains, ℕ, String, Bool, true, Option, none,
  some, List, [], ◌∷◌, string_key, nat_key,
}
use bent.Cache.Resource.{
  Resource, Decoders, get_resource_name, get_resource_references, endpoint_type, cluster_type,
  route_type, listener_type, secret_type,
}

pub record Resources : Type 0 where
  pub version : String
  pub items : Map String Resource

-- The zero value of the struct.
abbrev pub no_resources : Resources
no_resources = record { version = ""; items = [] }

pub index_from : List Resource → Map String Resource → Map String Resource
index_from [] indexed = indexed
index_from (item ∷ items) indexed = index_from items (insert (get_resource_name item) item indexed)

unfoldable pub index_resources_by_name : List Resource → Map String Resource
unfolding index_from
index_resources_by_name items = index_from items []

unfoldable pub new_resources : String → List Resource → Resources
new_resources version items = record { version = version; items = index_resources_by_name items }

pub record Snapshot : Type 0 where
  pub endpoints : Resources
  pub clusters : Resources
  pub routes : Resources
  pub listeners : Resources
  pub secrets : Resources

-- The zero value, which a lookup of a missing node returns.
abbrev pub zero_snapshot : Snapshot
zero_snapshot = record {
  endpoints = no_resources;
  clusters = no_resources;
  routes = no_resources;
  listeners = no_resources;
  secrets = no_resources;
}

-- The secrets keep their zero value.
unfoldable pub new_snapshot :
    String → List Resource → List Resource → List Resource → List Resource → Snapshot
unfolding new_resources
new_snapshot version endpoints clusters routes listeners = record {
  endpoints = new_resources version endpoints;
  clusters = new_resources version clusters;
  routes = new_resources version routes;
  listeners = new_resources version listeners;
  secrets = no_resources;
}

-- The switch that `GetResources` and `GetVersion` share: the group for a type, if it is known.
select_group : Snapshot → String → Option Resources
select_group s typ =
    if typ == endpoint_type
    then some s.endpoints
    else if typ == cluster_type
    then some s.clusters
    else if typ == route_type
    then some s.routes
    else if typ == listener_type
    then some s.listeners
    else if typ == secret_type
    then some s.secrets
    else none

items_of : Option Resources → Map String Resource
items_of none = []
items_of (some r) = r.items

version_of : Option Resources → String
version_of none = ""
version_of (some r) = r.version

-- `none` is the nil pointer.
group : Option Snapshot → String → Option Resources
unfolding select_group
group none typ = none
group (some s) typ = select_group s typ

unfoldable pub get_resources : Option Snapshot → String → Map String Resource
unfolding items_of group
get_resources s typ = items_of (group s typ)

unfoldable pub get_version : Option Snapshot → String → String
unfolding version_of group
get_version s typ = version_of (group s typ)

pub name_set_from : List String → Map String Bool → Map String Bool
name_set_from [] set = set
name_set_from (name ∷ names) set = name_set_from names (insert name true set)

unfoldable pub name_set : List String → Map String Bool
unfolding name_set_from
name_set names = name_set_from names []

-- The errors of the package, by what they print.
pub data Error : Type 0 where
  nil_snapshot : Error
  not_listed : String → Error
  mismatched_endpoints : Map String Bool → ℕ → Error
  mismatched_routes : Map String Bool → ℕ → Error
  version_up_to_date : Error
  missing_snapshot : String → Error

-- `none` is the nil error.
unfoldable pub superset : Map String Bool → Map String Resource → Option Error
superset names [] = none
superset names ((name, res) ∷ rest) =
    if contains name names then superset names rest else some (not_listed name)

or_else : Option Error → Option Error → Option Error
or_else (some e) next = some e
or_else none next = next

module _ (d : Decoders) where
  consistent_routes : Snapshot → Option Error
  consistent_routes s =
      let routes = get_resource_references d s.listeners.items in
      if nat_eq (length routes) (length s.routes.items)
      then superset routes s.routes.items
      else some (mismatched_routes routes (length s.routes.items))

  consistent_endpoints : Snapshot → Option Error
  consistent_endpoints s =
      let endpoints = get_resource_references d s.clusters.items in
      if nat_eq (length endpoints) (length s.endpoints.items)
      then superset endpoints s.endpoints.items
      else some (mismatched_endpoints endpoints (length s.endpoints.items))

  unfoldable pub consistent : Option Snapshot → Option Error
  unfolding consistent_endpoints consistent_routes or_else
  consistent none = some nil_snapshot
  consistent (some s) = or_else (consistent_endpoints s) (consistent_routes s)
