-- ===== src/Metadata.antt =====
-- cmd/envoy/metadata.go: the program beside a proxy that asks the metadata endpoint of its task for
-- the task's ARN and prints the node identifier of the proxy.
pub mod Retries
pub mod Bodies
pub mod NodeIds
use bent.Provider.Fargate.Labels.{invalid_task_arn, node_id, NodeId, task_arn_to_node_id}
use Prim.Native.String
use bent.Shared.{
  nat_eq, if◌then◌else◌, Map, ℕ, zero, suc, ◌+◌, ◌/◌, String, not, Option, none, some, List, ◌++◌,
}

-- The integers of Go, over the native numbers.
pub data ℤ : Type 0 where
  pos : ℕ → ℤ
  negsuc : ℕ → ℤ

pub record LimitsResponse : Type 0 where
  pub cpu : ℕ
  pub memory : ℕ

pub record PortResponse : Type 0 where
  pub container_port : ℕ
  pub protocol : String
  pub host_port : ℕ

pub record Network : Type 0 where
  pub network_mode : String
  pub ipv4_addresses : List String
  pub ipv6_addresses : List String

-- A time is the number of its nanoseconds.
pub record HealthStatus : Type 0 where
  pub status : String
  pub since : Option ℕ
  pub exit_code : ℤ
  pub output : String

pub record ContainerResponse : Type 0 where
  pub id : String
  pub name : String
  pub docker_name : String
  pub image : String
  pub image_id : String
  pub ports : List PortResponse
  pub labels : Map String String
  pub desired_status : String
  pub known_status : String
  pub exit_code : Option ℤ
  pub limits : LimitsResponse
  pub created_at : Option ℕ
  pub started_at : Option ℕ
  pub finished_at : Option ℕ
  pub container_type : String
  pub health : HealthStatus
  pub networks : List Network

pub record TaskResponse : Type 0 where
  pub cluster : String
  pub task_arn : String
  pub family : String
  pub revision : String
  pub desired_status : String
  pub known_status : String
  pub containers : List ContainerResponse
  pub limits : LimitsResponse

abbrev pub v2_metadata_endpoint : String
v2_metadata_endpoint = "http://169.254.170.2/v2/metadata"

abbrev pub max_retries : ℕ
max_retries = 4

-- Seconds.
abbrev pub duration_between_retries : ℕ
duration_between_retries = 2

-- An answer of the endpoint: its status, and its body, if that can be read to its end.
pub record Answer : Type 0 where
  pub status_code : ℕ
  pub body : Option String

-- The HTTP client, and `json.Unmarshal` into the two responses.
pub record HttpClient : Type 1 where
  pub State : Type 0
  -- `none` is an error of the request.
  pub get : String → State → Option Answer × State
  pub task_response : String → Option TaskResponse
  pub container_response : String → Option ContainerResponse

pub data Failure : Type 0 where
  no_response : Failure
  incorrect_status : ℕ → Failure
  unreadable_body : Failure
  unparsable_body : Failure

-- What a call returns.
pub data Result (A : Type 0) : Type 0 where
  success : A → Result A
  failure : Failure → Result A

-- The client, the bodies that were received and not closed, and the seconds slept.
pub record Session (c : HttpClient) : Type 0 where
  pub state : c.State
  pub unclosed : ℕ
  pub slept : ℕ

-- What the program prints, or its exit code.
pub data Ended : Type 0 where
  printed : String → Ended
  exited : ℕ → Ended

module _ (c : HttpClient) where
  read_all : Option String → Session c → Result String × Session c
  read_all none s = (failure unreadable_body, s)
  read_all (some body) s = (success body, s)

  answered : Option Answer → Session c → Result String × Session c
  unfolding read_all
  answered none s = (failure no_response, s)
  answered (some a) s =
      if not (nat_eq a.status_code 200)
      then (failure (incorrect_status a.status_code), record s { unclosed = s.unclosed + 1 })
      else read_all a.body s

  unfoldable pub metadata_response_once : String → Session c → Result String × Session c
  unfolding answered
  metadata_response_once endpoint s =
      let (answer, state) = c.get endpoint s.state in answered answer (record s { state = state })

  abbrev pub rest : Session c → Session c
  rest s = record s { slept = s.slept + duration_between_retries }

  -- The loop ends with a body, and goes on after an error.
  pub unless_done :
      (Failure → Session c → Result String × Session c)
      → Result String × Session c
      → Result String × Session c
  unless_done again (success body, s) = (success body, s)
  unless_done again (failure e, s) = again e (rest s)

  -- The loop: the attempts that are left, and the error so far.
  unfoldable pub retry : ℕ → Failure → String → Session c → Result String × Session c
  unfolding unless_done
  retry zero e endpoint s = (failure e, s)
  retry (suc n) e endpoint s =
      unless_done (λ e' s'. retry n e' endpoint s') (metadata_response_once endpoint s)

  -- With no attempt at all the body and the error would both be nil.
  unfoldable pub metadata_response : String → Session c → Result String × Session c
  unfolding retry
  metadata_response endpoint s = retry max_retries no_response endpoint s

  parsed : {A : Type 0} → Option A → Result A
  parsed none = failure unparsable_body
  parsed (some a) = success a

  unmarshalled : {A : Type 0} → (String → Option A) → Result String → Result A
  unfolding parsed
  unmarshalled parse (failure e) = failure e
  unmarshalled parse (success body) = parsed (parse body)

  unfoldable pub task_metadata : Session c → Result TaskResponse × Session c
  unfolding unmarshalled
  task_metadata s =
      let (r, s') = metadata_response v2_metadata_endpoint s in (unmarshalled c.task_response r, s')

  unfoldable pub container_metadata : String → Session c → Result ContainerResponse × Session c
  unfolding unmarshalled
  container_metadata id s =
      let (r, s') = metadata_response (String.◌++◌ v2_metadata_endpoint (String.◌++◌ "/" id)) s in
      (unmarshalled c.container_response r, s')

  identified : NodeId → Ended
  identified (node_id id) = printed id
  identified (invalid_task_arn arn) = exited 1

  exposed : Result TaskResponse → Ended
  unfolding identified
  exposed (failure e) = exited 1
  exposed (success t) = identified (task_arn_to_node_id t.task_arn)

  unfoldable pub main : Session c → Ended
  unfolding exposed
  main s = exposed (task_metadata (record s { slept = s.slept + 5 })).0
