-- ===== src/Provider/Fargate/Calls/Listing.antt =====
-- The tasks of a cluster, whatever of them ECS describes and in whatever order.
use bent.Provider.Fargate.Ecs.{answer, EcsClient, Task, Described, Failure}
use bent.Provider.Fargate.Calls.{
  ok, tasks_described, list_task_arns, list_tasks, describe_tasks, group_tasks, warned, Reply,
}
use bent.Provider.Fargate.Calls.Paging.{Serves, list_pages_lem}
use bent.Provider.Fargate.Calls.Windows.{Fits, walk_all, slice_walk_lem}
use bent.Provider.Fargate.Calls.Grouping.{group_tasks-append, list_at-group_tasks, tasks_of}
use bent.Shared.{
  if◌then◌else◌, ◌==◌, is_some, length, All, Map, lookup, list_at, concat, ℕ, ◌≤◌, String, ◌≡◌,
  refl, true, none, some, List, [], ◌∷◌, ◌++◌, arith, string_key, nat_key,
}

-- Each failure names what is missing and why.
abbrev pub IsExplained : Failure → Type 0
IsExplained f = (is_some f.arn ≡ true) × (is_some f.reason ≡ true)

warned_explained :
    {A : Type 0} (fs : List Failure) (next : Reply A) → All IsExplained fs → warned fs next ≡ next
unfolding warned
warned_explained [] next h = refl
warned_explained (f ∷ fs) next h = rw (h.0.0, h.0.1) (warned_explained fs next h.1)

module _ (c : EcsClient) (cluster : String) where
  -- ECS refuses no call for at most a hundred tasks. It may leave tasks out, with a failure for each
  -- that says which and why, and answer in any order.
  abbrev pub AnswersTasks : Type 0
  AnswersTasks =
      (ids : List String) (s : c.State)
      → length ids ≤ 100
      → (out : Described Task) × (s' : c.State) × (c.describe_tasks
            (if cluster == "" then none else some cluster) ids s
          ≡ (answer out, s'))
        × All IsExplained out.failures

  -- The calls for the windows, one after the other, have found these tasks.
  abbrev pub HaveFound : List (List String) → c.State → List Task → c.State → Type 0
  HaveFound [] s found s' = (found ≡ []) × (s' ≡ s)
  HaveFound (ids ∷ windows) s found s' =
      (out : Described Task) × (s1 : c.State) × (rest : List Task) × (c.describe_tasks
          (if cluster == "" then none else some cluster) ids s
        ≡ (answer out, s1))
      × (found ≡ out.found ++ rest)
      × HaveFound windows s1 rest s'

  -- What `listTasks` has done for these ARNs: it has asked for all of them, in order, at most a
  -- hundred at a time, and has under each definition its tasks of the answers, in their order.
  pub record IsListed (arns : List String) (s : c.State) (tasks : Map String (List Task))
      (s' : c.State) : Type 0 where
    pub windows : List (List String)
    pub all : concat windows ≡ arns
    pub few : All (Fits 100) windows
    pub found : List Task
    pub asked : HaveFound windows s found s'
    pub grouped : (arn : String) → list_at arn tasks ≡ tasks_of arn found

  walk_all-HaveFound :
      AnswersTasks
      → (windows : List (List String)) (m : Map String (List Task)) (s : c.State)
      → All (Fits 100) windows
      → (found : List Task) × (s' : c.State) × (walk_all (describe_tasks c cluster) windows (m, s)
          ≡ ok (group_tasks found m, s'))
        × HaveFound windows s found s'
  unfolding describe_tasks tasks_described group_tasks
  walk_all-HaveFound promise [] m s fits = ([], s, refl, (refl, refl))
  walk_all-HaveFound promise (ids ∷ windows) m s (fit, fits) =
      let (out, s1, e, explained) = promise ids s fit.1 in
      let m1 = group_tasks out.found m in
      let (rest, s2, e', asked) = walk_all-HaveFound promise windows m1 s1 fits in
      let logged =
        warned_explained {A = Map String (List Task) × c.State} out.failures (ok (m1, s1))
          explained in
      (
        out.found ++ rest,
        s2,
        rw (e, tasks_described, logged, group_tasks-append) e',
        (out, s1, rest, e, refl, asked),
      )

  -- If ECS serves the ARNs of the tasks of a cluster in no more pages than there is fuel, and refuses
  -- no call for at most a hundred of them, then `listTasks` returns, however many tasks there are and
  -- whatever tasks the answers leave out with a failure that is explained; it asks for all ARNs of
  -- the pages, in order and at most a hundred at a time, and has under each definition exactly its
  -- tasks of the answers, in the order of the answers.
  pub list_tasks_lem :
      AnswersTasks
      → (fuel : ℕ) {s s1 : c.State} {pages : List (List String)}
      → Serves (c.list_tasks cluster) (λ e. e) none s pages s1
      → length pages ≤ fuel
      → (tasks : Map String (List Task)) × (s2 : c.State) × (list_tasks c fuel cluster s
          ≡ ok (tasks, s2))
        × IsListed (concat pages) s1 tasks s2
  unfolding list_tasks list_task_arns lookup
  list_tasks_lem promise fuel {s} {s1} {pages} served h =
      let arns = list_pages_lem (c.list_tasks cluster) (λ e. e) fuel served h in
      let (windows, together, fits, walked) =
        slice_walk_lem (describe_tasks c cluster) 100 (concat pages) ([], s1) (omega arith) in
      let (found, s2, e, asked) = walk_all-HaveFound promise windows [] s1 fits in
      (
        group_tasks found [],
        s2,
        rw (arns, walked) e,
        record {
          windows = windows;
          all = together;
          few = fits;
          found = found;
          asked = asked;
          grouped = λ arn. list_at-group_tasks arn found [];
        },
      )
