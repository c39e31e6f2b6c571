-- ===== src/Provider/Node/Routes.antt =====
-- The virtual hosts of a route are told apart by their names.
use bent.Provider.Annotations.{Panics-cases, value}
use bent.Provider.Cluster.{Cluster}
use bent.Envoy.{ListenerMessage, VirtualHost}
use bent.Provider.Node.{
  hosts, seen, append_vhost, skip_vhost, add_endpoints, ensure_cluster, ensure_route, add_vhosts,
  add_route, add_cluster, add_listener, Node, add_vhost, new_node,
}
use bent.Shared.{
  if◌then◌else◌, ◌==◌, ==_iff, Bool-cases, get_or, lookup, insert, contains, lookup-insert, String,
  ◌≡◌, refl, sym, ap, ◌∙◌, subst, inl, inr, Bool, false, ◌||◌, List, [], ◌∷◌, ◌++◌, arith,
  string_key, nat_key,
}

abbrev pub is_named : String → List VirtualHost → Bool
is_named name [] = false
is_named name (v ∷ vs) = v.name == name || is_named name vs

-- No two virtual hosts of the list have one name.
abbrev pub Distinct : List VirtualHost → Type 0
Distinct [] = Unit
Distinct (v ∷ vs) = (is_named v.name vs ≡ false) × Distinct vs

is_named-append :
    (name : String) (v : VirtualHost) (vs : List VirtualHost)
    → is_named name (vs ++ v ∷ []) ≡ (is_named name vs || v.name == name)
is_named-append name v [] = ground arith
is_named-append name v (x ∷ vs) = ground (arith, is_named-append name v vs)

Distinct-append :
    (v : VirtualHost) (vs : List VirtualHost)
    → Distinct vs
    → is_named v.name vs ≡ false
    → Distinct (vs ++ v ∷ [])
Distinct-append v [] d e = (refl, tt)
Distinct-append v (x ∷ vs) (new, d) e = (
  ground (arith, is_named-append x.name v vs, ==_iff x.name v.name, ==_iff v.name x.name),
  Distinct-append v vs d (ground arith),
)

-- The set of a route holds the names of its virtual hosts, which differ.
pub record IsUnique (n : Node) : Type 0 where
  pub distinct : (r : String) → Distinct (hosts r n)
  pub tracked : (r name : String) → contains name (seen r n) ≡ is_named name (hosts r n)

pub new_node-IsUnique : (name : String) → IsUnique (new_node name)
unfolding new_node lookup
new_node-IsUnique name = record { distinct = λ r. tt; tracked = λ r k. refl }

seen-skip_vhost : (r q : String) (n : Node) → seen q (skip_vhost r n) ≡ seen q n
unfolding skip_vhost
seen-skip_vhost r q n = ground (arith, lookup-insert r q (seen r n) n.vhost_exists, ==_iff r q)

hosts-append_vhost :
    (r q : String) (n : Node) (v : VirtualHost)
    → hosts q (append_vhost r n v) ≡ (if r == q then hosts r n ++ v ∷ [] else hosts q n)
unfolding append_vhost
hosts-append_vhost r q n v =
    let old = get_or (lookup r n.routes) (record { name = r; virtual_hosts = [] }) in
    ground (
      arith,
      lookup-insert r q (record old { virtual_hosts = old.virtual_hosts ++ v ∷ [] }) n.routes,
    )

seen-append_vhost :
    (r q : String) (n : Node) (v : VirtualHost)
    → seen q (append_vhost r n v) ≡ (if r == q then insert v.name tt (seen r n) else seen q n)
unfolding append_vhost
seen-append_vhost r q n v = rw lookup-insert (ground arith)

skip_vhost-IsUnique : (r : String) (n : Node) → IsUnique n → IsUnique (skip_vhost r n)
unfolding skip_vhost
skip_vhost-IsUnique r n u = record {
  distinct = u.distinct;
  tracked = λ q k. ap (contains k) (seen-skip_vhost r q n) ∙ u.tracked q k;
}

append_vhost-IsUnique :
    (r : String) (n : Node) (v : VirtualHost)
    → contains v.name (seen r n) ≡ false
    → IsUnique n
    → IsUnique (append_vhost r n v)
append_vhost-IsUnique r n v new u = record {
  distinct = λ q. subst Distinct (sym (hosts-append_vhost r q n v)) (elim (Bool-cases (r == q)) [
    | inl same ↦
        rw same (Distinct-append v (hosts r n) (u.distinct r) (sym (u.tracked r v.name) ∙ new))
    | inr differ ↦ rw differ (u.distinct q)
  ]);
  tracked = λ q k.
      ap (contains k) (seen-append_vhost r q n v)
      ∙ (elim (Bool-cases (r == q)) [
        | inl same ↦ rw same (
            ground (
              arith,
              lookup-insert v.name k tt (seen r n),
              is_named-append k v (hosts r n),
              u.tracked r k,
            ))
        | inr differ ↦ rw differ (u.tracked q k)
      ])
      ∙ ap (is_named k) (sym (hosts-append_vhost r q n v));
}

add_vhost-IsUnique :
    (r : String) (n : Node) (v : VirtualHost) → IsUnique n → IsUnique (add_vhost r n v)
unfolding add_vhost
add_vhost-IsUnique r n v u = elim (Bool-cases (contains v.name (seen r n))) [
  | inl old ↦ rw old (skip_vhost-IsUnique r n u)
  | inr new ↦ rw new (append_vhost-IsUnique r n v new u)
]

add_vhosts-IsUnique :
    (r : String) (n : Node) (vs : List VirtualHost) → IsUnique n → IsUnique (add_vhosts r n vs)
unfolding add_vhosts
add_vhosts-IsUnique r n [] u = u
add_vhosts-IsUnique r n (v ∷ vs) u =
    add_vhosts-IsUnique r (add_vhost r n v) vs (add_vhost-IsUnique r n v u)

-- To make an empty route changes no virtual host.
hosts-ensure_route : (r q : String) (n : Node) → hosts q (ensure_route r n) ≡ hosts q n
unfolding ensure_route
hosts-ensure_route r q n =
    ground (arith, lookup-insert r q (record { name = r; virtual_hosts = [] }) n.routes, ==_iff r q)

seen-ensure_route : (r q : String) (n : Node) → seen q (ensure_route r n) ≡ seen q n
unfolding ensure_route
seen-ensure_route r q n = ground arith

-- `AddRoute` adds no virtual host twice: in every route of the node the names of the virtual hosts
-- differ, and the set of names that the node keeps for a route is theirs.
pub add_route-IsUnique :
    (n : Node) (r : String) (vs : List VirtualHost) → IsUnique n → IsUnique (add_route n r vs)
unfolding add_route
add_route-IsUnique n r vs u = add_vhosts-IsUnique r (ensure_route r n) vs (record {
  distinct = λ q. subst Distinct (sym (hosts-ensure_route r q n)) (u.distinct q);
  tracked = λ q k.
      ap (contains k) (seen-ensure_route r q n)
      ∙ u.tracked q k
      ∙ ap (is_named k) (sym (hosts-ensure_route r q n));
})

ensure_cluster_keeps :
    (n : Node) (c : Cluster) {n' : Node}
    → ensure_cluster n c ≡ value n'
    → (n'.routes ≡ n.routes) × (n'.vhost_exists ≡ n.vhost_exists)
unfolding ensure_cluster
ensure_cluster_keeps n c e = ground arith

IsUnique-of_eq :
    (n n' : Node)
    → n'.routes ≡ n.routes
    → n'.vhost_exists ≡ n.vhost_exists
    → IsUnique n
    → IsUnique n'
IsUnique-of_eq n n' routes exists u = record {
  distinct = λ r. rw routes (u.distinct r);
  tracked = λ r k. rw (routes, exists) (u.tracked r k);
}

-- `AddCluster` does not touch the routes.
pub add_cluster-IsUnique :
    (cs : List Cluster) (n n' : Node) → IsUnique n → add_cluster n cs ≡ value n' → IsUnique n'
unfolding add_cluster add_endpoints
add_cluster-IsUnique [] n n' u e = subst IsUnique {x = n} {y = n'} (ground arith) u
add_cluster-IsUnique (c ∷ cs) n n' u e = elim (Panics-cases (ensure_cluster n c)) [
  | inl crash ↦ absurd (ground (arith, crash))
  | inr (n1, ensured) ↦
      let (routes, exists) = ensure_cluster_keeps n c ensured in
      add_cluster-IsUnique cs (add_endpoints n1 c.name c.endpoints) n'
        (IsUnique-of_eq n (add_endpoints n1 c.name c.endpoints) routes exists u) (rw ensured at e)
]

pub add_listener-IsUnique :
    (n : Node) (ls : List ListenerMessage) → IsUnique n → IsUnique (add_listener n ls)
unfolding add_listener
add_listener-IsUnique n ls u = record { distinct = u.distinct; tracked = u.tracked }
