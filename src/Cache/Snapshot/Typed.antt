-- ===== src/Cache/Snapshot/Typed.antt =====
-- The types of the resources in a snapshot.
use bent.Cache.Snapshot.{
  Resources, no_resources, items_of, select_group, group, get_resources, new_resources,
  index_resources_by_name, new_snapshot, Snapshot, index_from,
}
use bent.Cache.Resource.{
  null, other, secret_type, secret, listener_type, listener, route, route_type, cluster_type,
  cluster, endpoint_type, endpoint, get_resource_name, Resource,
}
use bent.Shared.{
  if◌then◌else◌, ◌==◌, ==_iff, Bool-cases, Map, insert, String, ◌≡◌, inl, inr, Option, none, some,
  List, [], ◌∷◌, string_key, nat_key,
}

-- The type URL of a payload.
abbrev pub resource_type : Resource → String
resource_type (endpoint v) = endpoint_type
resource_type (cluster v) = cluster_type
resource_type (route v) = route_type
resource_type (listener v) = listener_type
resource_type (secret v) = secret_type
resource_type other = ""
resource_type null = ""

abbrev pub AllOf : String → List Resource → Type 0
AllOf url [] = Unit
AllOf url (r ∷ rs) = (resource_type r ≡ url) × AllOf url rs

abbrev pub EntriesOf : String → Map String Resource → Type 0
EntriesOf url [] = Unit
EntriesOf url ((name, r) ∷ m) = (resource_type r ≡ url) × EntriesOf url m

-- Each group of a snapshot holds resources of its own type.
abbrev pub IsTyped : Snapshot → Type 0
IsTyped s = (url : String) → EntriesOf url (get_resources (some s) url)

EntriesOf-insert :
    (url name : String) (r : Resource) (m : Map String Resource)
    → resource_type r ≡ url
    → EntriesOf url m
    → EntriesOf url (insert name r m)
unfolding insert
EntriesOf-insert url name r [] e h = (e, tt)
EntriesOf-insert url name r ((n, p) ∷ m) e h = elim (Bool-cases (n == name)) [
  | inl hit ↦ rw hit (e, h.1)
  | inr miss ↦ rw miss (h.0, EntriesOf-insert url name r m e h.1)
]

index_from-EntriesOf :
    (url : String) (rs : List Resource) (m : Map String Resource)
    → AllOf url rs
    → EntriesOf url m
    → EntriesOf url (index_from rs m)
unfolding index_from
index_from-EntriesOf url [] m all h = h
index_from-EntriesOf url (r ∷ rs) m all h =
    index_from-EntriesOf url rs (insert (get_resource_name r) r m) all.1
      (EntriesOf-insert url (get_resource_name r) r m all.0 h)

items-EntriesOf :
    (url : String) (rs : List Resource) → AllOf url rs → EntriesOf url (index_resources_by_name rs)
unfolding index_resources_by_name
items-EntriesOf url rs all = index_from-EntriesOf url rs [] all tt

-- One test of the switch on the type.
switched :
    (url type : String) (r : Resources) (o : Option Resources)
    → EntriesOf type r.items
    → EntriesOf url (items_of o)
    → EntriesOf url (items_of (if url == type then some r else o))
unfolding items_of
switched url type r o h h' = elim (Bool-cases (url == type)) [
  | inl hit ↦ rw (hit, (==_iff url type).0 hit) h
  | inr miss ↦ rw miss h'
]

pub new_snapshot-IsTyped :
    (version : String) (endpoints clusters routes listeners : List Resource)
    → AllOf endpoint_type endpoints
    → AllOf cluster_type clusters
    → AllOf route_type routes
    → AllOf listener_type listeners
    → IsTyped (new_snapshot version endpoints clusters routes listeners)
unfolding new_snapshot new_resources get_resources group select_group items_of
new_snapshot-IsTyped version endpoints clusters routes listeners e c r l url =
    switched url endpoint_type _ _ (items-EntriesOf endpoint_type endpoints e) (
      switched url cluster_type _ _ (items-EntriesOf cluster_type clusters c) (
        switched url route_type _ _ (items-EntriesOf route_type routes r) (
          switched url listener_type _ _ (items-EntriesOf listener_type listeners l)
            (switched url secret_type no_resources none tt tt))))
