-- ===== src/Metadata/NodeIds.antt =====
-- What the program prints for its proxy.
use bent.Provider.Fargate.Labels.NodeIds.{task_arn_to_node_id_lem}
use bent.Metadata.{
  task_metadata, success, printed, TaskResponse, Session, identified, exposed, main, HttpClient,
}
use Prim.Native.String
use bent.Shared.{occurs, occurs_within, ◌+◌, String, ◌≡◌, refl, false}

module _ (c : HttpClient) where
  -- The session in which the endpoint is asked, five seconds after the start.
  abbrev pub waited : Session c → Session c
  waited s = record s { slept = s.slept + 5 }

  -- A task whose ARN ends in "task/" and an identifier, and has "task/" nowhere else, gives its
  -- proxy that identifier.
  pub main_lem :
      (s : Session c) (t : TaskResponse) (before id : String)
      → (task_metadata c (waited s)).0 ≡ success t
      → t.task_arn ≡ String.◌++◌ before (String.◌++◌ "task/" id)
      → occurs_within "task/" before (String.◌++◌ "task/" id) ≡ false
      → occurs "task/" id ≡ false
      → main c s ≡ printed id
  unfolding main exposed identified
  main_lem s t before id told arn once_only clean =
      rw (told, exposed, arn, task_arn_to_node_id_lem before id once_only clean) refl
