-- ===== src/Provider/Fargate/Labels.antt =====
-- pkg/provider/fargate/fargate.go: what the docker labels of a task's definition say of its services,
-- and the node of a task. Go goes through a map in any order; here it is the order of the list.
pub mod NodeIds
pub mod Services
use Prim.Native.String
use bent.Provider.Annotations.{
  Annotations, Number, nonneg, negative, invalid, atoi, split, uint32_mod, Panics, value, panic,
}
use bent.Provider.Cluster.{Endpoint}
use bent.Provider.Fargate.Ecs.{
  Task, TaskDefinition, ContainerDefinition, Container, NetworkInterface,
}
use bent.Shared.{
  if◌then◌else◌, ◌==◌, get_or, Map, lookup, insert, trim_prefix, split_text, ℕ, ◌-◌, ◌%◌, String,
  Option, none, some, List, [], ◌∷◌, ◌++◌, string_key, nat_key, ◌>>=◌,
}

-- An ARN, or an ARN that does not name a task.
pub data NodeId : Type 0 where
  node_id : String → NodeId
  invalid_task_arn : String → NodeId

-- `parts[1]`, if there are two parts.
second_part : String → List String → NodeId
second_part arn [] = invalid_task_arn arn
second_part arn (first ∷ []) = invalid_task_arn arn
second_part arn (first ∷ second ∷ more) = node_id second

unfoldable pub task_arn_to_node_id : String → NodeId
unfolding second_part
task_arn_to_node_id arn = second_part arn (split_text arn "task/")

pub record TaskTarget : Type 0 where
  pub cluster_name : String
  pub annotations : Annotations
  pub port : ℕ

-- The loop of `stripKeyPrefix`.
strip_from : String → Map String String → Annotations → Annotations
strip_from prefix [] annotations = annotations
strip_from prefix ((key, val) ∷ labels) annotations =
    let annotation = trim_prefix key prefix in
    strip_from prefix labels
      (if annotation == key then annotations else insert annotation val annotations)

unfoldable pub strip_key_prefix : String → Map String String → Annotations
unfolding strip_from
strip_key_prefix prefix labels = strip_from prefix labels []

-- `uint32(port)` keeps the low 32 bits of the two's complement; a text that is no number has none.
port_of : Number → Option ℕ
port_of (nonneg n) = some (n % uint32_mod)
port_of (negative n) = some ((uint32_mod - n % uint32_mod) % uint32_mod)
port_of invalid = none

-- The service of a label is found, and its value is split at the colons.
target_of : String → String → Map String String → List String → Option (String × TaskTarget)
unfolding port_of strip_key_prefix
target_of label name labels [] = none
target_of label name labels (container ∷ []) = none
target_of label name labels (container ∷ port ∷ more) = do
  p ← port_of (atoi port)
  some (
    container,
    record {
      cluster_name = name;
      annotations = strip_key_prefix (String.◌++◌ label ".annotations.") labels;
      port = p;
    },
  )

-- The target of a label, with the name of its container, if the label has one.
unfoldable pub label_target : Map String String → String → String → Option (String × TaskTarget)
unfolding target_of
label_target labels label val =
    let name = trim_prefix label "envoy.service." in
    if label == name then none else target_of label name labels (split b':' val)

-- `targets[container] = append(targets[container], target)`
append_target :
    Option (String × TaskTarget) → Map String (List TaskTarget) → Map String (List TaskTarget)
append_target none targets = targets
append_target (some (container, target)) targets =
    insert container (get_or (lookup container targets) [] ++ target ∷ []) targets

labels_targets :
    Map String String
    → Map String String
    → Map String (List TaskTarget)
    → Map String (List TaskTarget)
unfolding append_target
labels_targets all [] targets = targets
labels_targets all ((label, val) ∷ labels) targets =
    labels_targets all labels (append_target (label_target all label val) targets)

definitions_targets :
    List ContainerDefinition → Map String (List TaskTarget) → Map String (List TaskTarget)
unfolding labels_targets
definitions_targets [] targets = targets
definitions_targets (d ∷ ds) targets =
    definitions_targets ds (labels_targets d.docker_labels d.docker_labels targets)

-- A nil definition ends the call in a panic; the error is always nil.
unfoldable pub find_task_targets : Option TaskDefinition → Panics (Map String (List TaskTarget))
unfolding definitions_targets
find_task_targets none = panic
find_task_targets (some d) = value (definitions_targets d.container_definitions [])

-- The loop over the network interfaces of a container.
nics_endpoints :
    TaskTarget → List NetworkInterface → Map String (List Endpoint) → Map String (List Endpoint)
nics_endpoints t [] services = services
nics_endpoints t (nic ∷ nics) services = nics_endpoints t nics (
    insert t.cluster_name
      (get_or (lookup t.cluster_name services) []
        ++ record { address = nic.private_ipv4_address; annotations = t.annotations; port = t.port }
          ∷ [])
      services)

targets_endpoints :
    List NetworkInterface
    → List TaskTarget
    → Map String (List Endpoint)
    → Map String (List Endpoint)
unfolding nics_endpoints
targets_endpoints nics [] services = services
targets_endpoints nics (t ∷ ts) services =
    targets_endpoints nics ts (nics_endpoints t nics services)

containers_endpoints :
    Map String (List TaskTarget)
    → List Container
    → Map String (List Endpoint)
    → Map String (List Endpoint)
unfolding targets_endpoints
containers_endpoints targets [] services = services
containers_endpoints targets (c ∷ cs) services =
    containers_endpoints targets cs
      (targets_endpoints c.network_interfaces (get_or (lookup c.name targets) []) services)

unfoldable pub find_endpoints : Task → Option TaskDefinition → Panics (Map String (List Endpoint))
unfolding containers_endpoints
find_endpoints task taskdef = elim (find_task_targets taskdef) [
  | panic ↦ panic
  | value targets ↦ value (containers_endpoints targets task.containers [])
]
