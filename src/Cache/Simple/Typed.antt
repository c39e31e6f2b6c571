-- ===== src/Cache/Simple/Typed.antt =====
-- The types of the resources in a response.
use bent.Cache.Simple.Notify.{due}
use bent.Cache.Snapshot.Typed.{IsTyped, EntriesOf, AllOf}
use bent.Cache.Resource.{Resource}
use bent.Cache.Snapshot.{name_set, get_resources, Snapshot}
use bent.Cache.Status.{ResponseWatch, Response}
use bent.Cache.Simple.{create_response, named_resources, all_resources}
use bent.Shared.{
  nat_eq, Bool-cases, length, Map, contains, String, ◌≡◌, refl, inl, inr, Bool, not, some, [], ◌∷◌,
  string_key, nat_key,
}

-- The resources of a response have the type that its request asks for.
abbrev pub IsTypedResponse : Response → Type 0
IsTypedResponse a = AllOf a.request.type_url a.resources

named_resources-AllOf :
    (url : String) (set : Map String Bool) (m : Map String Resource)
    → EntriesOf url m
    → AllOf url (named_resources set m)
unfolding named_resources
named_resources-AllOf url set [] h = tt
named_resources-AllOf url set ((name, r) ∷ m) h = elim (Bool-cases (contains name set)) [
  | inl listed ↦ rw listed (h.0, named_resources-AllOf url set m h.1)
  | inr other ↦ rw other (named_resources-AllOf url set m h.1)
]

all_resources-AllOf :
    (url : String) (m : Map String Resource) → EntriesOf url m → AllOf url (all_resources m)
unfolding all_resources
all_resources-AllOf url [] h = tt
all_resources-AllOf url ((name, r) ∷ m) h = (h.0, all_resources-AllOf url m h.1)

pub due-IsTypedResponse : (s : Snapshot) (v : ResponseWatch) → IsTyped s → IsTypedResponse (due s v)
unfolding create_response
due-IsTypedResponse s v h =
    let url = v.request.type_url in
    let m = get_resources (some s) url in
    elim (Bool-cases (not (nat_eq (length v.request.resource_names) 0))) [
      | inl some_names ↦
          rw some_names (named_resources-AllOf url (name_set v.request.resource_names) m (h url))
      | inr no_names ↦ rw no_names (all_resources-AllOf url m (h url))
    ]

pub due-request : (s : Snapshot) (v : ResponseWatch) → (due s v).request ≡ v.request
unfolding create_response
due-request s v = refl
