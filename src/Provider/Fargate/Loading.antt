-- ===== src/Provider/Fargate/Loading.antt =====
-- The definitions of the tasks that `listTasks` groups are all loaded, if ECS hands each over.
use bent.Provider.Fargate.{keys}
use bent.Provider.Fargate.Calls.Definitions.{contains-get_task_definitions, is_in, HandsOver}
use bent.Provider.Fargate.Labels.{task_arn_to_node_id}
use bent.Provider.Fargate.Nodes.{all_loaded, has_node_id, is_node_in, is_loaded, is_node}
use bent.Provider.Fargate.Calls.{get_task_definitions, group_tasks}
use bent.Provider.Fargate.Ecs.{EcsClient, TaskDefinition, Task}
use bent.Shared.{
  ◌==◌, ==_iff, ==_refl, Bool-cases, Map, lookup, contains, insert, list_at, String, ◌≡◌, refl, ◌∙◌,
  inl, inr, Bool, true, ◌&&◌, ◌||◌, List, [], ◌∷◌, ◌++◌, arith, string_key, nat_key,
}

-- All tasks of a group have the definition that the group stands under.
abbrev is_group : String → List Task → Bool
is_group arn [] = true
is_group arn (t ∷ ts) = t.task_definition_arn == arn && is_group arn ts

abbrev pub grouped : Map String (List Task) → Bool
grouped [] = true
grouped ((arn, ts) ∷ rest) = is_group arn ts && grouped rest

is_group-append :
    (arn : String) (ts us : List Task)
    → is_group arn (ts ++ us) ≡ (is_group arn ts && is_group arn us)
is_group-append arn [] us = refl
is_group-append arn (t ∷ ts) us = ground (arith, is_group-append arn ts us)

is_node_in-append :
    (node : String) (ts us : List Task)
    → is_node_in node (ts ++ us) ≡ (is_node_in node ts || is_node_in node us)
is_node_in-append node [] us = refl
is_node_in-append node (t ∷ ts) us = ground (arith, is_node_in-append node ts us)

-- A task is added to its group.
abbrev with_task : Task → Map String (List Task) → Map String (List Task)
with_task t m = insert t.task_definition_arn (list_at t.task_definition_arn m ++ t ∷ []) m

grouped-with_task :
    (t : Task) (m : Map String (List Task)) → grouped m ≡ true → grouped (with_task t m) ≡ true
unfolding insert lookup
grouped-with_task t [] h = ground (arith, ==_refl t.task_definition_arn)
grouped-with_task t ((arn, ts) ∷ m) h = ground (
  arith,
  grouped-with_task t m,
  is_group-append arn ts (t ∷ []),
  ==_iff arn t.task_definition_arn,
  ==_refl t.task_definition_arn,
)

is_node-with_task :
    (node : String) (t : Task) (m : Map String (List Task))
    → is_node node (with_task t m)
      ≡ (has_node_id node (task_arn_to_node_id t.task_arn) || is_node node m)
unfolding insert lookup
is_node-with_task node t [] = ground arith
is_node-with_task node t ((arn, ts) ∷ m) =
    ground (arith, is_node-with_task node t m, is_node_in-append node ts (t ∷ []))

pub grouped-group_tasks :
    (ts : List Task) (m : Map String (List Task))
    → grouped m ≡ true
    → grouped (group_tasks ts m) ≡ true
unfolding group_tasks
grouped-group_tasks [] m h = h
grouped-group_tasks (t ∷ ts) m h = grouped-group_tasks ts (with_task t m) (grouped-with_task t m h)

pub is_node-group_tasks :
    (node : String) (ts : List Task) (m : Map String (List Task))
    → is_node node (group_tasks ts m) ≡ (is_node_in node ts || is_node node m)
unfolding group_tasks
is_node-group_tasks node [] m = refl
is_node-group_tasks node (t ∷ ts) m =
    ground (arith, is_node-group_tasks node ts (with_task t m), is_node-with_task node t m)

is_loaded-is_group :
    (defs : Map String TaskDefinition) (arn : String) (ts : List Task)
    → contains arn defs ≡ true
    → is_group arn ts ≡ true
    → is_loaded defs ts ≡ true
is_loaded-is_group defs arn [] h g = refl
is_loaded-is_group defs arn (t ∷ ts) h g = elim (Bool-cases (t.task_definition_arn == arn)) [
  | inl same ↦
      let e = (==_iff t.task_definition_arn arn).0 same in
      rw (e, h) (is_loaded-is_group defs arn ts h (rw same at g))
  | inr differ ↦ absurd (ground (arith, differ, g))
]

keys_loaded :
    (defs : Map String TaskDefinition) (m : Map String (List Task))
    → ((a : String) → is_in a (keys m) ≡ true → contains a defs ≡ true)
    → grouped m ≡ true
    → all_loaded defs m ≡ true
unfolding keys
keys_loaded defs [] h g = refl
keys_loaded defs ((arn, ts) ∷ m) h g =
    let here =
      is_loaded-is_group defs arn ts (h arn (ground (arith, ==_refl arn))) (ground (arith, g)) in
    let there = keys_loaded defs m (λ a i. h a (ground (arith, i))) (ground (arith, g)) in
    ground (arith, here, there)

-- No definition is missing.
pub all_loaded-get_task_definitions :
    (c : EcsClient)
    → HandsOver c
    → (ts : List Task) (s : c.State)
    → all_loaded (get_task_definitions c (keys (group_tasks ts [])) s).0 (group_tasks ts []) ≡ true
all_loaded-get_task_definitions c promise ts s =
    let m = group_tasks ts [] in
    keys_loaded (get_task_definitions c (keys m) s).0 m
      (λ a i. contains-get_task_definitions c promise a (keys m) s ∙ i)
      (grouped-group_tasks ts [] refl)
