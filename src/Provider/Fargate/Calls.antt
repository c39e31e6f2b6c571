-- ===== src/Provider/Fargate/Calls.antt =====
-- pkg/provider/fargate/util.go, clusters.go and tasks.go: the calls of ECS. A call that returns hands
-- its result on together with the state of the client. The pages of an answer have no bound in the
-- source, so their loop takes fuel.
pub mod Paging
pub mod Windows
pub mod Grouping
pub mod Listing
pub mod Clusters
pub mod Definitions
use Prim.Native.String
use bent.Provider.Fargate.Ecs.{
  Answer, answer, refusal, Described, Failure, EcsClient, EcsCluster, Page, Task, TaskDefinition,
}
use bent.Shared.{
  ltb, if◌then◌else◌, ◌==◌, is_some, get_or, length, Map, lookup, insert, size, take, drop, ℕ, zero,
  suc, ◌+◌, ◌-◌, String, true, false, not, ◌&&◌, Option, none, some, List, [], ◌∷◌, ◌++◌,
  string_key, nat_key,
}

pub data Reply {ℓ} (A : Type ℓ) : Type ℓ where
  ok : A → Reply A
  err : String → Reply A
  -- A panic, and a loop that goes on beyond its fuel.
  panicked : Reply A
  unfinished : Reply A

infixl 5 ◌>>=◌
abbrev pub ◌>>=◌ {ℓ κ} : {A : Type ℓ} {B : Type κ} → Reply A → (A → Reply B) → Reply B
ok a >>= f = f a
err e >>= f = err e
panicked >>= f = panicked
unfinished >>= f = unfinished

-- `min`
unfoldable pub min : ℕ → ℕ → ℕ
min i j = if ltb i j then i else j

module _ {ℓ κ} {A : Type ℓ} {S : Type κ} (fn : List A → S → Reply S) where
  -- The loop of `sliceWalk` from index `i`. Each round moves by one at least, so the length of the
  -- input is fuel enough.
  walk_from : ℕ → ℕ → ℕ → List A → S → Reply S
  unfolding min
  walk_from zero i window input s = if ltb i (length input) then unfinished else ok s
  walk_from (suc fuel) i window input s = elim (ltb i (length input)) [
    | false ↦ ok s
    | true ↦ fn (take (min window (length input - i)) (drop i input)) s >>= λ s'.
        walk_from fuel (i + window) window input s'
  ]

  -- The window sizes of the callers are constants; a size below 1 is 0 here.
  unfoldable pub slice_walk : ℕ → List A → S → Reply S
  unfolding walk_from
  slice_walk window input s =
      if ltb window 1 then err "bad window size" else walk_from (length input) 0 window input s

-- The loop over the pages of an answer; `explain` is what becomes of the text of an error.
module _ {S : Type 0} (next : Option String → S → Answer Page × S) (explain : String → String) where
  paged : Answer Page × S → List String → Reply (List String × Option String × S)
  paged (answer page, s) arns = ok (arns ++ page.arns, page.next_token, s)
  paged (refusal e, s) arns = err (explain e)

  unfoldable pub list_pages : ℕ → Option String → List String → S → Reply (List String × S)
  unfolding paged
  list_pages zero token arns s = unfinished
  list_pages (suc fuel) token arns s =
      paged (next token s) arns >>= λ (r : List String × Option String × S). elim r.1 [
        | none ↦ ok (r.0, r.2)
        | some token' ↦ list_pages fuel (some token') r.0 r.2
      ]

abbrev pub window_size : ℕ
window_size = 100

-- `tasks[*t.TaskDefinitionArn] = append(tasks[*t.TaskDefinitionArn], t)`
unfoldable pub group_tasks : List Task → Map String (List Task) → Map String (List Task)
group_tasks [] tasks = tasks
group_tasks (t ∷ ts) tasks =
    group_tasks ts (
      insert t.task_definition_arn (get_or (lookup t.task_definition_arn tasks) [] ++ t ∷ []) tasks)

unfoldable pub index_clusters : List EcsCluster → Map String EcsCluster → Map String EcsCluster
index_clusters [] result = result
index_clusters (s ∷ ss) result = index_clusters ss (insert s.cluster_arn s result)

-- The loop that logs the failures goes through both pointers of each.
pub warned {ℓ} : {A : Type ℓ} → List Failure → Reply A → Reply A
warned [] next = next
warned (f ∷ fs) next = if is_some f.arn && is_some f.reason then warned fs next else panicked

module _ (c : EcsClient) where
  unfoldable pub list_cluster_arns : ℕ → c.State → Reply (List String × c.State)
  list_cluster_arns fuel s =
      list_pages c.list_clusters (λ e. String.◌++◌ "could not retrieve ECS clusters: " e) fuel none
        [] s

  clusters_described :
      Answer (Described EcsCluster) × c.State
      → Map String EcsCluster
      → Reply (Map String EcsCluster × c.State)
  unfolding warned
  clusters_described (answer out, s) result =
      warned out.failures (ok (index_clusters out.found result, s))
  clusters_described (refusal e, s) result = err (String.◌++◌ "failed to describe clusters: " e)

  -- The function that `listClusters` hands to `sliceWalk`.
  describe_clusters :
      List String → Map String EcsCluster × c.State → Reply (Map String EcsCluster × c.State)
  unfolding clusters_described
  describe_clusters ids (result, s) = clusters_described (c.describe_clusters ids s) result

  unfoldable pub list_clusters : ℕ → c.State → Reply (Map String EcsCluster × c.State)
  unfolding describe_clusters
  list_clusters fuel s = list_cluster_arns fuel s >>= λ (r : List String × c.State).
      slice_walk describe_clusters window_size r.0 ([], r.1)

  unfoldable pub list_task_arns : ℕ → String → c.State → Reply (List String × c.State)
  list_task_arns fuel cluster s = list_pages (c.list_tasks cluster) (λ e. e) fuel none [] s

  tasks_described :
      Answer (Described Task) × c.State
      → Map String (List Task)
      → Reply (Map String (List Task) × c.State)
  unfolding warned
  tasks_described (answer out, s) tasks = warned out.failures (ok (group_tasks out.found tasks, s))
  tasks_described (refusal e, s) tasks = err (String.◌++◌ "failed to load task instance data: " e)

  -- The function that `listTasks` hands to `sliceWalk`.
  describe_tasks :
      String
      → List String
      → Map String (List Task) × c.State
      → Reply (Map String (List Task) × c.State)
  unfolding tasks_described
  describe_tasks cluster ids (tasks, s) =
      tasks_described (c.describe_tasks (if cluster == "" then none else some cluster) ids s) tasks

  unfoldable pub list_tasks : ℕ → String → c.State → Reply (Map String (List Task) × c.State)
  unfolding describe_tasks
  list_tasks fuel cluster s = list_task_arns fuel cluster s >>= λ (r : List String × c.State).
      slice_walk (describe_tasks cluster) window_size r.0 ([], r.1)

  -- A definition that cannot be loaded is left out.
  definition_loaded :
      String
      → Answer TaskDefinition × c.State
      → Map String TaskDefinition
      → Map String TaskDefinition × c.State
  definition_loaded arn (answer d, s) defs = (insert arn d defs, s)
  definition_loaded arn (refusal e, s) defs = (defs, s)

  pub definitions_from :
      List String → Map String TaskDefinition × c.State → Map String TaskDefinition × c.State
  unfolding definition_loaded
  definitions_from [] r = r
  definitions_from (arn ∷ arns) (defs, s) =
      definitions_from arns (definition_loaded arn (c.describe_task_definition arn s) defs)

  unfoldable pub get_task_definitions : List String → c.State → Map String TaskDefinition × c.State
  unfolding definitions_from
  get_task_definitions arns s = definitions_from arns ([], s)
