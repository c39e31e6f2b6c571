-- ===== src/Provider/Fargate/Calls/Definitions.antt =====
-- Which definitions are loaded: those that ECS does not refuse to hand over.
use bent.Provider.Fargate.Calls.{get_task_definitions, definition_loaded, definitions_from}
use bent.Provider.Fargate.Ecs.{answer, TaskDefinition, Answer, refusal, EcsClient}
use bent.Shared.{
  ◌==◌, ==_iff, Bool-cases, Map, lookup, contains, insert, lookup-insert, String, ◌≡◌, refl, ◌∙◌,
  inl, inr, Bool, false, ◌||◌, none, List, [], ◌∷◌, arith, string_key, nat_key,
}

abbrev pub is_in : String → List String → Bool
is_in a [] = false
is_in a (x ∷ xs) = x == a || is_in a xs

module _ (c : EcsClient) (arn : String) where
  -- Every call for the definition is refused.
  abbrev pub IsRefused : Type 0
  IsRefused =
      (s : c.State)
      → (e : String) × (s' : c.State) × (c.describe_task_definition arn s ≡ (refusal e, s'))

  lookup-definition_loaded :
      (a : String) (r : Answer TaskDefinition × c.State) (defs : Map String TaskDefinition)
      → (a == arn) ≡ false
      → lookup arn (definition_loaded c a r defs).0 ≡ lookup arn defs
  unfolding definition_loaded
  lookup-definition_loaded a (answer d, s) defs differ = rw (lookup-insert, differ) refl
  lookup-definition_loaded a (refusal e, s) defs differ = refl

  lookup-definitions_from :
      IsRefused
      → (arns : List String) (defs : Map String TaskDefinition) (s : c.State)
      → lookup arn defs ≡ none
      → lookup arn (definitions_from c arns (defs, s)).0 ≡ none
  unfolding definitions_from definition_loaded
  lookup-definitions_from refused [] defs s h = h
  lookup-definitions_from refused (a ∷ arns) defs s h = elim (Bool-cases (a == arn)) [
    | inl same ↦
        let (e, s', answered) = refused s in
        let it = (==_iff a arn).0 same in
        rw (definitions_from, it, answered, definition_loaded)
          (lookup-definitions_from refused arns defs s' h)
    | inr differ ↦
        let r = definition_loaded c a (c.describe_task_definition a s) defs in
        lookup-definitions_from refused arns r.0 r.1
          (lookup-definition_loaded a (c.describe_task_definition a s) defs differ ∙ h)
  ]

  pub lookup-get_task_definitions :
      IsRefused
      → (arns : List String) (s : c.State) → lookup arn (get_task_definitions c arns s).0 ≡ none
  unfolding get_task_definitions lookup
  lookup-get_task_definitions refused arns s = lookup-definitions_from refused arns [] s refl

or_false : (b : Bool) → (b || false) ≡ b
or_false b = ground arith

module _ (c : EcsClient) where
  -- An ECS that has all the definitions: a call for one answers with it.
  abbrev pub HandsOver : Type 0
  HandsOver =
      (arn : String) (s : c.State)
      → (d : TaskDefinition) × (s' : c.State) × (c.describe_task_definition arn s ≡ (answer d, s'))

  contains-definitions_from :
      HandsOver
      → (a : String) (arns : List String) (defs : Map String TaskDefinition) (s : c.State)
      → contains a (definitions_from c arns (defs, s)).0 ≡ (is_in a arns || contains a defs)
  unfolding definitions_from definition_loaded
  contains-definitions_from promise a [] defs s = refl
  contains-definitions_from promise a (arn ∷ arns) defs s =
      let (d, s', e) = promise arn s in
      rw (definitions_from, e, definition_loaded)
        (ground (
          arith,
          contains-definitions_from promise a arns (insert arn d defs) s',
          lookup-insert arn a d defs,
        ))

  pub contains-get_task_definitions :
      HandsOver
      → (a : String) (arns : List String) (s : c.State)
      → contains a (get_task_definitions c arns s).0 ≡ is_in a arns
  unfolding get_task_definitions lookup
  contains-get_task_definitions promise a arns s =
      contains-definitions_from promise a arns [] s ∙ or_false (is_in a arns)
