-- ===== src/Provider/Fargate/Nodes.antt =====
-- The nodes that `GetClusters` finds, and when it ends in a panic.
use bent.Provider.Fargate.Labels.Services.{find_endpoints_lem, find_endpoints_panic}
use bent.Provider.Cluster.{Endpoint}
use bent.Provider.Annotations.{value, Panics, panic}
use bent.Provider.Updater.{ProviderClusters}
use bent.Provider.Fargate.Labels.{invalid_task_arn, task_arn_to_node_id, node_id, NodeId}
use bent.Provider.Fargate.Ecs.{TaskDefinition, Task}
use bent.Provider.Fargate.{add_services, add_task, add_tasks, add_node}
use bent.Shared.{
  ◌==◌, Bool-cases, Option-cases, Map, lookup, contains, lookup-insert, String, ◌≡◌, refl, inl, inr,
  Bool, true, false, ◌&&◌, ◌||◌, List, [], ◌∷◌, arith, string_key, nat_key,
}

-- The definitions of the tasks are all there.
abbrev pub is_loaded : Map String TaskDefinition → List Task → Bool
is_loaded defs [] = true
is_loaded defs (t ∷ ts) = contains t.task_definition_arn defs && is_loaded defs ts

abbrev pub all_loaded : Map String TaskDefinition → Map String (List Task) → Bool
all_loaded defs [] = true
all_loaded defs ((arn, ts) ∷ rest) = is_loaded defs ts && all_loaded defs rest

abbrev pub has_node_id : String → NodeId → Bool
has_node_id node (node_id id) = id == node
has_node_id node (invalid_task_arn arn) = false

-- Whether a task of the list, or of a service, has a node identifier.
abbrev pub is_node_in : String → List Task → Bool
is_node_in node [] = false
is_node_in node (t ∷ ts) = has_node_id node (task_arn_to_node_id t.task_arn) || is_node_in node ts

abbrev pub is_node : String → Map String (List Task) → Bool
is_node node [] = false
is_node node ((arn, ts) ∷ rest) = is_node_in node ts || is_node node rest

contains-add_node :
    (node : String) (id : NodeId) (endpoints : Map String (List Endpoint)) (out : ProviderClusters)
    → contains node (add_node id endpoints out) ≡ (has_node_id node id || contains node out)
unfolding add_node
contains-add_node node (invalid_task_arn arn) endpoints out = refl
contains-add_node node (node_id id) endpoints out =
    rw lookup-insert
      (elim (Bool-cases (id == node)) [ inl same ↦ rw same refl | inr differ ↦ rw differ refl ])

-- What the loops do: they panic if a definition is missing, and otherwise add the nodes.
abbrev pub Adds : Bool → (String → Bool) → ProviderClusters → Panics ProviderClusters → Type 0
Adds false nodes out r = r ≡ panic
Adds true nodes out r =
    (out' : ProviderClusters) × (r ≡ value out')
    × ((node : String) → contains node out' ≡ (nodes node || contains node out))

Adds-add_task :
    (defs : Map String TaskDefinition) (t : Task) (out : ProviderClusters)
    → Adds
        (contains t.task_definition_arn defs)
        (λ node. has_node_id node (task_arn_to_node_id t.task_arn))
        out
        (add_task defs t out)
unfolding add_task
Adds-add_task defs t out = elim (Option-cases (lookup t.task_definition_arn defs)) [
  | inl missing ↦ rw (missing, add_task, find_endpoints_panic) refl
  | inr (d, found) ↦
      let (services, e, spec) = find_endpoints_lem t d in
      rw (found, add_task, e)
        (_, refl, λ node. contains-add_node node (task_arn_to_node_id t.task_arn) services out)
]

Adds-add_tasks :
    (defs : Map String TaskDefinition) (ts : List Task) (out : ProviderClusters)
    → Adds (is_loaded defs ts) (λ node. is_node_in node ts) out (add_tasks defs ts out)
unfolding add_tasks
Adds-add_tasks defs [] out = (out, refl, λ node. refl)
Adds-add_tasks defs (t ∷ ts) out =
    let first = Adds-add_task defs t out in
    elim (Bool-cases (contains t.task_definition_arn defs)) [
      | inr missing ↦
          let e : add_task defs t out ≡ panic = rw missing at first in
          rw (missing, add_tasks, e) refl
      | inl there ↦
          let one : Adds true (λ node. has_node_id node (task_arn_to_node_id t.task_arn)) out
              (add_task defs t out) =
            rw there at first in
          let rest = Adds-add_tasks defs ts one.0 in
          rw (there, add_tasks, one.1)
            (elim (Bool-cases (is_loaded defs ts)) [
              | inr missing ↦
                  let e : add_tasks defs ts one.0 ≡ panic = rw missing at rest in
                  rw (missing, e) refl
              | inl all ↦
                  let more : Adds true (λ node. is_node_in node ts) one.0
                      (add_tasks defs ts one.0) =
                    rw all at rest in
                  rw all (more.0, more.1, λ node. ground (arith, more.2 node, one.2 node))
            ])
    ]

-- If every task's definition could be loaded, the loops over the tasks of a cluster return, and the
-- nodes are those that there were and one for each task with a valid ARN; if one is missing they
-- end in a panic.
pub add_services_lem :
    (defs : Map String TaskDefinition) (services : Map String (List Task)) (out : ProviderClusters)
    → Adds
        (all_loaded defs services)
        (λ node. is_node node services)
        out
        (add_services defs services out)
unfolding add_services
add_services_lem defs [] out = (out, refl, λ node. refl)
add_services_lem defs ((arn, ts) ∷ services) out =
    let first = Adds-add_tasks defs ts out in
    elim (Bool-cases (is_loaded defs ts)) [
      | inr missing ↦
          let e : add_tasks defs ts out ≡ panic = rw missing at first in
          rw (missing, add_services, e) refl
      | inl there ↦
          let one : Adds true (λ node. is_node_in node ts) out (add_tasks defs ts out) =
            rw there at first in
          let rest = add_services_lem defs services one.0 in
          rw (there, add_services, one.1)
            (elim (Bool-cases (all_loaded defs services)) [
              | inr missing ↦
                  let e : add_services defs services one.0 ≡ panic = rw missing at rest in
                  rw (missing, e) refl
              | inl all ↦
                  let more : Adds true (λ node. is_node node services) one.0
                      (add_services defs services one.0) =
                    rw all at rest in
                  rw all (more.0, more.1, λ node. ground (arith, more.2 node, one.2 node))
            ])
    ]
