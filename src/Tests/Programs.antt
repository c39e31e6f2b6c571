-- ===== src/Tests/Programs.antt =====
-- The theorems on the small programs, at an endpoint that is not well at first, and at two targets.
use bent.Metadata.Bodies.{metadata_response_leaks}
use bent.Metadata.Retries.{metadata_response-IsRetried, IsRetried}
use bent.TraceFwd.{Network, Incoming}
use bent.Metadata.{
  v2_metadata_endpoint, TaskResponse, Session, LimitsResponse, HttpClient, metadata_response,
}
use bent.Shared.{
  ltb, if◌then◌else◌, ℕ, ◌+◌, ◌≡◌, refl, true, none, some, [], ◌∷◌, string_key, nat_key,
}

abbrev no_limits : LimitsResponse
no_limits = record { cpu = 0; memory = 0 }

abbrev response : TaskResponse
response = record {
  cluster = "c";
  task_arn = "arn:task/1";
  family = "web";
  revision = "1";
  desired_status = "RUNNING";
  known_status = "RUNNING";
  containers = [];
  limits = no_limits;
}

-- It answers with 503 before its third request; the state counts the requests.
abbrev recovering : HttpClient
recovering = record {
  State = ℕ;
  get = λ endpoint s.
      (some (record { status_code = if ltb s 2 then 503 else 200; body = some "task" }), s + 1);
  task_response = λ body. some response;
  container_response = λ body. none;
}

abbrev unwell : HttpClient
unwell = record recovering {
  get = λ endpoint s. (some (record { status_code = 503; body = none }), s + 1);
}

abbrev fresh : Session recovering
fresh = record { state = 0; unclosed = 0; slept = 0 }

abbrev fresh_unwell : Session unwell
fresh_unwell = record { state = 0; unclosed = 0; slept = 0 }

metadata_response-IsRetried_example :
    IsRetried recovering 4 v2_metadata_endpoint fresh
      (metadata_response recovering v2_metadata_endpoint fresh)
metadata_response-IsRetried_example =
    metadata_response-IsRetried recovering v2_metadata_endpoint fresh

metadata_response_leaks_example :
    (metadata_response unwell v2_metadata_endpoint fresh_unwell).1.unclosed ≡ 4
metadata_response_leaks_example =
    metadata_response_leaks unwell v2_metadata_endpoint fresh_unwell
      (λ state. (record { status_code = 503; body = none }, refl, refl))

-- The second target does not answer; the state counts the requests.
abbrev network : Network
network = record {
  State = ℕ;
  canonical = λ key. key;
  is_url = λ target. true;
  answer = λ r s. (ltb s 1, s + 1);
}

abbrev incoming : Incoming
incoming = record { header = ("x-b3-flags", "1" ∷ []) ∷ []; dump = some "GET /" }
