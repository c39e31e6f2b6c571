-- ===== src/Tests/Fargate.antt =====
-- The theorems on the Fargate provider, at an ECS of one cluster with one task.
use bent.Provider.Fargate.Labels.Services.{find_endpoints_lem, endpoints_of_service}
use bent.Provider.Fargate.Calls.Listing.{list_tasks_lem, IsListed}
use bent.Provider.Annotations.{value}
use bent.Provider.Fargate.Crashes.{add_cluster_services_panics}
use bent.Provider.Fargate.Labels.NodeIds.{task_arn_to_node_id_lem}
use bent.Provider.Fargate.{add_services, add_cluster_services}
use bent.Provider.Cluster.{Endpoint}
use bent.Provider.Fargate.Calls.{
  list_task_arns, slice_walk, group_tasks, list_tasks, panicked, ok, list_pages,
}
use bent.Provider.Fargate.Calls.Paging.{last, Serves}
use bent.Provider.Fargate.Labels.{node_id, find_endpoints, task_arn_to_node_id}
use bent.Provider.Fargate.Nodes.{add_services_lem, is_node, Adds}
use bent.Provider.Fargate.Ecs.{refusal, answer, TaskDefinition, EcsClient, Task, Page}
use bent.Shared.{
  Map, lookup, insert, list_at, after_prefix, concat, ℕ, ◌+◌, String, ◌≡◌, refl, true, none, some,
  List, [], ◌∷◌, map, arith, string_key, nat_key,
}

abbrev pub definition : TaskDefinition
definition = record {
  container_definitions = record { docker_labels = ("envoy.service.backend", "web:80") ∷ [] } ∷ [];
}

abbrev pub task : String → Task
task arn = record {
  task_arn = arn;
  task_definition_arn = "def";
  containers =
      record {
        name = "web";
        network_interfaces = record { private_ipv4_address = "10.0.0.1" } ∷ [];
      }
      ∷ [];
}

abbrev pub page : String → Page
page arn = record { arns = arn ∷ []; next_token = none }

-- It counts its calls, and refuses to describe any definition.
abbrev pub ecs : EcsClient
ecs = record {
  State = ℕ;
  list_clusters = λ token s. (answer (page "cluster"), s + 1);
  describe_clusters = λ ids s. (refusal "not here", s + 1);
  list_tasks = λ cluster token s. (answer (page "arn:task/1"), s + 1);
  describe_tasks =
      λ cluster ids s. (answer (record { found = map task ids; failures = [] }), s + 1);
  describe_task_definition = λ arn s. (refusal "not here", s + 1);
}

-- It has lost the first task, and describes the others from the last one on.
abbrev reversed : List String → List Task → List Task
reversed [] found = found
reversed (arn ∷ arns) found = reversed arns (task arn ∷ found)

abbrev tail : List String → List String
tail [] = []
tail (arn ∷ arns) = arns

abbrev lossy : EcsClient
lossy = record ecs {
  list_tasks = λ cluster token s.
      (answer (record { arns = "task/1" ∷ "task/2" ∷ "task/3" ∷ []; next_token = none }), s + 1);
  describe_tasks = λ cluster ids s. (
    answer (record {
      found = reversed (tail ids) [];
      failures = record { arn = some "task/1"; reason = some "MISSING" } ∷ [];
    }),
    s + 1,
  );
}

abbrev three : Page
three = record { arns = "task/1" ∷ "task/2" ∷ "task/3" ∷ []; next_token = none }

abbrev served :
    Serves
      (lossy.list_tasks "cluster")
      (λ e. e)
      none
      0
      (("task/1" ∷ "task/2" ∷ "task/3" ∷ []) ∷ [])
      1
served = last {page = three} refl refl

list_tasks_lem_example :
    (tasks : Map String (List Task)) × (s : ℕ) × (list_tasks lossy 1 "cluster" 0 ≡ ok (tasks, s))
    × IsListed lossy "cluster" (concat (("task/1" ∷ "task/2" ∷ "task/3" ∷ []) ∷ [])) 1 tasks s
list_tasks_lem_example =
    list_tasks_lem lossy "cluster" (λ ids s few. (_, s + 1, refl, ((refl, refl), tt))) 1 served
      (omega arith)

find_endpoints_lem_example :
    (services : Map String (List Endpoint)) × (find_endpoints (task "arn:task/1") (some definition)
      ≡ value services)
    × ((service : String)
        → list_at service services
          ≡ endpoints_of_service service definition.container_definitions
              (task "arn:task/1").containers)
find_endpoints_lem_example = find_endpoints_lem (task "arn:task/1") definition

abbrev services : Map String (List Task)
services = ("def", task "arn:task/1" ∷ task "other" ∷ []) ∷ []

add_services_lem_example :
    Adds true
      (λ node. is_node node services)
      []
      (add_services (("def", definition) ∷ []) services [])
unfolding lookup
add_services_lem_example = add_services_lem (("def", definition) ∷ []) services []

task_arn_to_node_id_lem_example : task_arn_to_node_id "arn:task/1" ≡ node_id "1"
unfolding after_prefix
task_arn_to_node_id_lem_example = task_arn_to_node_id_lem "arn:" "1" refl refl

add_cluster_services_panics_example :
    add_cluster_services ecs 1 (record { cluster_arn = "cluster"; cluster_name = "c" }) ([], 0)
    ≡ panicked
unfolding list_tasks list_task_arns list_pages slice_walk group_tasks insert lookup
add_cluster_services_panics_example =
    add_cluster_services_panics ecs "def" (λ s. ("not here", s + 1, refl)) 1
      (record { cluster_arn = "cluster"; cluster_name = "c" }) [] 0 2
      (("def", task "arn:task/1" ∷ []) ∷ []) refl refl
