-- ===== src/Provider/Fargate/Ecs.antt =====
-- The ECS client of the AWS SDK, which is not in the repository: its answers as plain data, with the
-- fields that the repository reads, and its calls as an interface over an unknown state. The
-- pointers of the answers are not nil, as ECS documents for the fields here; `next_token` and the
-- fields of a failure may be.
use bent.Shared.{Map, String, Option, List}

pub record NetworkInterface : Type 0 where
  pub private_ipv4_address : String

pub record Container : Type 0 where
  pub name : String
  pub network_interfaces : List NetworkInterface

pub record Task : Type 0 where
  pub task_arn : String
  pub task_definition_arn : String
  pub containers : List Container

pub record ContainerDefinition : Type 0 where
  pub docker_labels : Map String String

pub record TaskDefinition : Type 0 where
  pub container_definitions : List ContainerDefinition

pub record EcsCluster : Type 0 where
  pub cluster_arn : String
  pub cluster_name : String

pub record Page : Type 0 where
  pub arns : List String
  pub next_token : Option String

-- Why one of the things asked for is missing in the answer. The source goes through the pointers.
pub record Failure : Type 0 where
  pub arn : Option String
  pub reason : Option String

-- What was asked for, as far as it was found, in any order.
pub record Described {ℓ} (A : Type ℓ) : Type ℓ where
  pub found : List A
  pub failures : List Failure

-- An answer, or the text of the error.
pub data Answer {ℓ} (A : Type ℓ) : Type ℓ where
  answer : A → Answer A
  refusal : String → Answer A

-- The cluster of `describe_tasks` is `none` where the request leaves it out.
pub record EcsClient : Type 1 where
  pub State : Type 0
  pub list_clusters : Option String → State → Answer Page × State
  pub describe_clusters : List String → State → Answer (Described EcsCluster) × State
  pub list_tasks : String → Option String → State → Answer Page × State
  pub describe_tasks : Option String → List String → State → Answer (Described Task) × State
  pub describe_task_definition : String → State → Answer TaskDefinition × State
