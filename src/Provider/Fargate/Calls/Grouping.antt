-- ===== src/Provider/Fargate/Calls/Grouping.antt =====
-- The tasks of a cluster, by their definitions.
use bent.Provider.Fargate.Ecs.{answer, EcsClient, Task}
use mathlib.Core.List.{append-nil, append_assoc, map-append}
use bent.Provider.Fargate.Calls.{
  warned, ok, tasks_described, list_task_arns, list_tasks, describe_tasks, group_tasks,
}
use bent.Provider.Fargate.Calls.Paging.{Serves, list_pages_lem}
use bent.Provider.Fargate.Calls.Windows.{Fits, walk_all, slice_walk_lem}
use bent.Shared.{
  if◌then◌else◌, ◌==◌, Bool-cases, length, All, keep_if, Map, insert, list_at, list_at-append,
  concat, ℕ, ◌≤◌, String, ◌≡◌, refl, ◌∙◌, inl, inr, none, some, List, [], ◌∷◌, ◌++◌, map, arith,
  string_key, nat_key,
}

-- The tasks that a definition has, in order.
abbrev pub tasks_of : String → List Task → List Task
tasks_of arn ts = keep_if (λ (t : Task). t.task_definition_arn == arn) ts

pub list_at-group_tasks :
    (arn : String) (ts : List Task) (m : Map String (List Task))
    → list_at arn (group_tasks ts m) ≡ list_at arn m ++ tasks_of arn ts
unfolding group_tasks
list_at-group_tasks arn [] m = rw append-nil refl
list_at-group_tasks arn (t ∷ ts) m =
    list_at-group_tasks arn ts
      (insert t.task_definition_arn (list_at t.task_definition_arn m ++ t ∷ []) m)
    ∙ rw (list_at-append t.task_definition_arn arn t m, append_assoc)
        (elim (Bool-cases (t.task_definition_arn == arn)) [
          | inl same ↦ rw same refl
          | inr differ ↦ rw differ refl
        ])

pub group_tasks-append :
    (ts us : List Task) (m : Map String (List Task))
    → group_tasks (ts ++ us) m ≡ group_tasks us (group_tasks ts m)
unfolding group_tasks
group_tasks-append [] us m = refl
group_tasks-append (t ∷ ts) us m =
    group_tasks-append ts us
      (insert t.task_definition_arn (list_at t.task_definition_arn m ++ t ∷ []) m)

module _ (c : EcsClient) (cluster : String) (task_at : String → Task) where
  -- An ECS that has all the tasks: a call for at most a hundred of the cluster answers with them, in
  -- the order of the request.
  abbrev pub Describes : Type 0
  Describes =
      (ids : List String) (s : c.State)
      → length ids ≤ 100
      → (s' : c.State) × (c.describe_tasks (if cluster == "" then none else some cluster) ids s
          ≡ (answer (record { found = map task_at ids; failures = [] }), s'))

  walk_all-describe_tasks :
      Describes
      → (windows : List (List String)) (m : Map String (List Task)) (s : c.State)
      → All (Fits 100) windows
      → (s' : c.State) × (walk_all (describe_tasks c cluster) windows (m, s)
          ≡ ok (group_tasks (map task_at (concat windows)) m, s'))
  unfolding describe_tasks tasks_described group_tasks warned
  walk_all-describe_tasks promise [] m s fits = (s, refl)
  walk_all-describe_tasks promise (ids ∷ windows) m s (fit, fits) =
      let (s1, e) = promise ids s fit.1 in
      let m1 = group_tasks (map task_at ids) m in
      let (s2, e') = walk_all-describe_tasks promise windows m1 s1 fits in
      (s2, rw (e, tasks_described, map-append, group_tasks-append) e')

  -- `listTasks` groups the tasks of all pages.
  pub list_tasks_returns :
      Describes
      → (fuel : ℕ) {s s1 : c.State} {pages : List (List String)}
      → Serves (c.list_tasks cluster) (λ e. e) none s pages s1
      → length pages ≤ fuel
      → (s2 : c.State) × (list_tasks c fuel cluster s
          ≡ ok (group_tasks (map task_at (concat pages)) [], s2))
  unfolding list_tasks list_task_arns
  list_tasks_returns promise fuel {s} {s1} {pages} served h =
      let arns = list_pages_lem (c.list_tasks cluster) (λ e. e) fuel served h in
      let (windows, together, fits, walked) =
        slice_walk_lem (describe_tasks c cluster) 100 (concat pages) ([], s1) (omega arith) in
      let (s2, e) = walk_all-describe_tasks promise windows [] s1 fits in
      (s2, rw (arns, walked) (e ∙ rw together refl))
