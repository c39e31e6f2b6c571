-- ===== src/Cache/Snapshot/Index.antt =====
-- What the indexes of a snapshot hold.
use bent.Cache.Snapshot.{index_from, name_set_from, name_set, index_resources_by_name}
use bent.Cache.Resource.{get_resource_name, Resource}
use bent.Shared.{
  if◌then◌else◌, ◌==◌, is_some, Map, lookup, insert, contains, lookup-insert, String, ◌≡◌, refl,
  Bool, true, false, ◌||◌, Option, none, some, List, [], ◌∷◌, arith, string_key, nat_key,
}

abbrev pub is_listed : String → List String → Bool
is_listed name [] = false
is_listed name (n ∷ names) = n == name || is_listed name names

-- The last resource of a list that has a name.
abbrev pub last_named : String → List Resource → Option Resource
last_named name [] = none
last_named name (r ∷ rs) =
    let later = last_named name rs in
    if is_some later then later else if get_resource_name r == name then some r else none

index_from_lem :
    (name : String) (items : List Resource) (m : Map String Resource)
    → lookup name (index_from items m)
      ≡ (if is_some (last_named name items) then last_named name items else lookup name m)
unfolding index_from
index_from_lem name [] m = refl
index_from_lem name (r ∷ rs) m = ground (
  arith,
  index_from_lem name rs (insert (get_resource_name r) r m),
  lookup-insert (get_resource_name r) name r m,
)

-- The index holds, under each name, the last resource of that name, and nothing under a name that
-- no resource has.
pub lookup-index_resources_by_name :
    (name : String) (items : List Resource)
    → lookup name (index_resources_by_name items) ≡ last_named name items
unfolding index_resources_by_name lookup
lookup-index_resources_by_name name items = ground (arith, index_from_lem name items [])

name_set_from_lem :
    (name : String) (names : List String) (m : Map String Bool)
    → contains name (name_set_from names m) ≡ (contains name m || is_listed name names)
unfolding name_set_from
name_set_from_lem name [] m = ground arith
name_set_from_lem name (n ∷ names) m =
    ground (arith, name_set_from_lem name names (insert n true m), lookup-insert n name true m)

pub contains-name_set :
    (name : String) (names : List String) → contains name (name_set names) ≡ is_listed name names
unfolding name_set lookup
contains-name_set name names = ground (arith, name_set_from_lem name names [])
