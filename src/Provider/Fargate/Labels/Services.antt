-- ===== src/Provider/Fargate/Labels/Services.antt =====
-- The endpoints of a service of a task, said without the maps that the loops fill.
use bent.Provider.Annotations.{value, panic}
use bent.Provider.Cluster.{Endpoint}
use bent.Provider.Fargate.Ecs.{
  TaskDefinition, Task, Container, ContainerDefinition, NetworkInterface,
}
use bent.Provider.Fargate.Labels.{
  find_task_targets, label_target, definitions_targets, targets_endpoints, append_target,
  containers_endpoints, nics_endpoints, labels_targets, find_endpoints, TaskTarget,
}
use mathlib.Core.List.{append-nil, append_assoc}
use bent.Shared.{
  if◌then◌else◌, ◌==◌, Bool-cases, Map, lookup, insert, list_at, list_at-append, String, ◌≡◌, refl,
  ◌∙◌, inl, inr, Option, none, some, List, [], ◌∷◌, ◌++◌, arith, string_key, nat_key,
}

-- The targets in a container that the labels name, in order.
abbrev pub target_at : String → Option (String × TaskTarget) → List TaskTarget
target_at container none = []
target_at container (some (name, t)) = if name == container then t ∷ [] else []

abbrev pub targets_in_labels : Map String String → String → Map String String → List TaskTarget
targets_in_labels all container [] = []
targets_in_labels all container ((label, val) ∷ labels) =
    target_at container (label_target all label val) ++ targets_in_labels all container labels

abbrev pub targets_in : String → List ContainerDefinition → List TaskTarget
targets_in container [] = []
targets_in container (d ∷ ds) =
    targets_in_labels d.docker_labels container d.docker_labels ++ targets_in container ds

-- The endpoints of a target at each network interface.
abbrev pub endpoints_at : TaskTarget → List NetworkInterface → List Endpoint
endpoints_at t [] = []
endpoints_at t (nic ∷ nics) =
    record { address = nic.private_ipv4_address; annotations = t.annotations; port = t.port }
    ∷ endpoints_at t nics

abbrev pub endpoints_of_targets : String → List NetworkInterface → List TaskTarget → List Endpoint
endpoints_of_targets service nics [] = []
endpoints_of_targets service nics (t ∷ ts) =
    (if t.cluster_name == service then endpoints_at t nics else [])
    ++ endpoints_of_targets service nics ts

abbrev pub endpoints_of_service : String → List ContainerDefinition → List Container → List Endpoint
endpoints_of_service service ds [] = []
endpoints_of_service service ds (c ∷ cs) =
    endpoints_of_targets service c.network_interfaces (targets_in c.name ds)
    ++ endpoints_of_service service ds cs

list_at-append_target :
    (container : String) (o : Option (String × TaskTarget)) (m : Map String (List TaskTarget))
    → list_at container (append_target o m) ≡ list_at container m ++ target_at container o
unfolding append_target
list_at-append_target container none m = rw append-nil refl
list_at-append_target container (some (name, t)) m = list_at-append name container t m

list_at-labels_targets :
    (all labels : Map String String) (container : String) (m : Map String (List TaskTarget))
    → list_at container (labels_targets all labels m)
      ≡ list_at container m ++ targets_in_labels all container labels
unfolding labels_targets
list_at-labels_targets all [] container m = rw append-nil refl
list_at-labels_targets all ((label, val) ∷ labels) container m =
    list_at-labels_targets all labels container (append_target (label_target all label val) m)
    ∙ rw (list_at-append_target container (label_target all label val) m, append_assoc) refl

list_at-definitions_targets :
    (ds : List ContainerDefinition) (container : String) (m : Map String (List TaskTarget))
    → list_at container (definitions_targets ds m) ≡ list_at container m ++ targets_in container ds
unfolding definitions_targets
list_at-definitions_targets [] container m = rw append-nil refl
list_at-definitions_targets (d ∷ ds) container m =
    list_at-definitions_targets ds container (labels_targets d.docker_labels d.docker_labels m)
    ∙ rw (list_at-labels_targets d.docker_labels d.docker_labels container m, append_assoc) refl

list_at-nics_endpoints :
    (t : TaskTarget) (nics : List NetworkInterface) (service : String)
    (m : Map String (List Endpoint))
    → list_at service (nics_endpoints t nics m)
      ≡ list_at service m ++ (if t.cluster_name == service then endpoints_at t nics else [])
unfolding nics_endpoints
list_at-nics_endpoints t [] service m = ground (arith, append-nil (list_at service m))
list_at-nics_endpoints t (nic ∷ nics) service m =
    let e : Endpoint = record {
      address = nic.private_ipv4_address;
      annotations = t.annotations;
      port = t.port;
    } in
    list_at-nics_endpoints t nics service
      (insert t.cluster_name (list_at t.cluster_name m ++ e ∷ []) m)
    ∙ rw (list_at-append t.cluster_name service e m)
        (elim (Bool-cases (t.cluster_name == service)) [
          | inl same ↦ rw (same, append_assoc) refl
          | inr differ ↦ rw (differ, append-nil, append-nil) refl
        ])

list_at-targets_endpoints :
    (nics : List NetworkInterface) (ts : List TaskTarget) (service : String)
    (m : Map String (List Endpoint))
    → list_at service (targets_endpoints nics ts m)
      ≡ list_at service m ++ endpoints_of_targets service nics ts
unfolding targets_endpoints
list_at-targets_endpoints nics [] service m = rw append-nil refl
list_at-targets_endpoints nics (t ∷ ts) service m =
    list_at-targets_endpoints nics ts service (nics_endpoints t nics m)
    ∙ rw (list_at-nics_endpoints t nics service m, append_assoc) refl

list_at-containers_endpoints :
    (ds : List ContainerDefinition) (cs : List Container) (service : String)
    (m : Map String (List Endpoint))
    → list_at service (containers_endpoints (definitions_targets ds []) cs m)
      ≡ list_at service m ++ endpoints_of_service service ds cs
unfolding containers_endpoints lookup
list_at-containers_endpoints ds [] service m = rw append-nil refl
list_at-containers_endpoints ds (c ∷ cs) service m =
    let targets = list_at-definitions_targets ds c.name [] in
    list_at-containers_endpoints ds cs service
      (targets_endpoints c.network_interfaces (list_at c.name (definitions_targets ds [])) m)
    ∙ rw
        (
          list_at-targets_endpoints c.network_interfaces
              (list_at c.name (definitions_targets ds [])) service m,
          targets,
          append_assoc,
        )
        refl

-- `findEndpoints` of a task whose definition is there returns, and under each service it has, in
-- order, an endpoint for each container, target of the container in that service, and network
-- interface of the container.
pub find_endpoints_lem :
    (task : Task) (d : TaskDefinition)
    → (services : Map String (List Endpoint)) × (find_endpoints task (some d) ≡ value services)
      × ((service : String)
          → list_at service services
            ≡ endpoints_of_service service d.container_definitions task.containers)
unfolding find_endpoints find_task_targets lookup
find_endpoints_lem task d = (
  _,
  refl,
  λ service. list_at-containers_endpoints d.container_definitions task.containers service [],
)

-- Without the definition it ends in a panic.
pub find_endpoints_panic : (task : Task) → find_endpoints task none ≡ panic
unfolding find_endpoints find_task_targets
find_endpoints_panic task = refl
