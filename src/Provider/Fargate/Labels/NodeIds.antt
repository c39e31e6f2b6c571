-- ===== src/Provider/Fargate/Labels/NodeIds.antt =====
-- The node of a task: the text after "task/" in the task's ARN.
use bent.Provider.Fargate.Labels.{invalid_task_arn, node_id, task_arn_to_node_id, second_part}
use Prim.Native.String
use bent.Shared.{
  split_text, occurs, occurs_within, is_split, is_split-split_text, split_text-append, String, ◌≡◌,
  refl, ◌∙◌, false, List, [], ◌∷◌,
}

second_part_lem :
    (arn : String) (parts : List String)
    → is_split parts ≡ false
    → second_part arn parts ≡ invalid_task_arn arn
unfolding second_part
second_part_lem arn [] h = refl
second_part_lem arn (first ∷ []) h = refl
second_part_lem arn (first ∷ second ∷ more) h = cc

-- An ARN in which "task/" does not occur is refused.
pub task_arn_to_node_id_invalid :
    (arn : String) → occurs "task/" arn ≡ false → task_arn_to_node_id arn ≡ invalid_task_arn arn
unfolding task_arn_to_node_id
task_arn_to_node_id_invalid arn h =
    second_part_lem arn (split_text arn "task/") (is_split-split_text "task/" arn ∙ h)

-- The node of an ARN that is put together from what stands before "task/" and an identifier is the
-- identifier, if "task/" occurs nowhere else in it.
pub task_arn_to_node_id_lem :
    (before id : String)
    → occurs_within "task/" before (String.◌++◌ "task/" id) ≡ false
    → occurs "task/" id ≡ false
    → task_arn_to_node_id (String.◌++◌ before (String.◌++◌ "task/" id)) ≡ node_id id
unfolding task_arn_to_node_id
task_arn_to_node_id_lem before id h k = rw (split_text-append "t" "ask/" before id h k) refl
