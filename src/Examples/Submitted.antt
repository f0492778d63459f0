-- ===== src/Examples/Submitted.antt =====
-- Submitted workflows, one of them with a cycle.
use favetto.Common.{
  ◌≡◌, refl, arith, [], ◌∷◌, List, Text, codes, text_eq, none, some, Result, ok, err, ◌↔◌, trim,
  trim_start, trim_end, is_whitespace,
}
use favetto.Executor.State.{State}
use favetto.Workflow.Spec.{
  WorkflowCreateTask, CreateError, keys, dependencies, check_specs, bump, push_edge, link_deps,
  link_specs, unlinked, relax_one, relax, drain, build, roots, visited, validate_create_dag,
}
use favetto.Workflow.Accept.{
  IsWorkflow, Reorders, validate_create_dag-returns, validate_create_dag-IsWorkflow,
}
use favetto.Workflow.Progress.{Runnable, validate_create_dag-Runnable}
use favetto.Workflow.Create.{
  WorkflowError, WorkflowCreateParams, WorkflowCreateResult, create_workflow,
}
use favetto.Workflow.Answers.{Answers, create_workflow-Answers}
use favetto.Examples.Data.{ext, state}

abbrev task_of : Text → Text → List Text → WorkflowCreateTask
task_of key name deps = record { key = key; name = name; input = none; depends_on = some deps }

abbrev diamond : List WorkflowCreateTask
diamond =
    task_of (codes "d") (codes "work") (codes "b" ∷ codes "c" ∷ [])
    ∷ task_of (codes "b") (codes "work") (codes "a" ∷ [])
    ∷ task_of (codes "c") (codes "plan") (codes "a" ∷ codes "a" ∷ [])
    ∷ task_of (codes "a") (codes "plan") []
    ∷ []

abbrev circle : List WorkflowCreateTask
circle =
    task_of (codes "a") (codes "work") (codes "b" ∷ [])
    ∷ task_of (codes "b") (codes "work") (codes "a" ∷ [])
    ∷ []

abbrev catalog : List Text
catalog = codes "plan" ∷ codes "work" ∷ []

-- the order of insertion, as one order of iteration of a hash map
abbrev in_order : List Text → List Text
in_order xs = xs

in_order-Reorders : Reorders in_order
in_order-Reorders x xs = refl

diamond_accepted : validate_create_dag in_order catalog diamond ≡ some (ok tt)
unfolding validate_create_dag build visited roots drain relax relax_one check_specs link_specs
    link_deps bump push_edge unlinked dependencies text_eq trim trim_start trim_end is_whitespace
diamond_accepted = refl

circle_refused : validate_create_dag in_order catalog circle ≡ some (err CreateError.cycle)
unfolding validate_create_dag build visited roots drain relax relax_one check_specs link_specs
    link_deps bump push_edge unlinked dependencies text_eq trim trim_start trim_end is_whitespace
circle_refused = refl

validate_create_dag-returns_example :
    (r : Result CreateError Unit) × (validate_create_dag in_order catalog circle ≡ some r)
validate_create_dag-returns_example =
    validate_create_dag-returns in_order catalog circle in_order-Reorders

validate_create_dag-IsWorkflow_example :
    (validate_create_dag in_order catalog diamond ≡ some (ok tt)) ↔ IsWorkflow catalog diamond
validate_create_dag-IsWorkflow_example =
    validate_create_dag-IsWorkflow in_order catalog diamond in_order-Reorders

validate_create_dag-Runnable_example : Runnable diamond (codes "a" ∷ []) (keys diamond)
unfolding text_eq
validate_create_dag-Runnable_example =
    validate_create_dag-Runnable in_order catalog diamond (codes "a" ∷ []) in_order-Reorders
      diamond_accepted (omega arith)

abbrev params : WorkflowCreateParams
params = record { idempotency_key = codes "release"; root_id = none; tasks = some diamond }

create_workflow-Answers_example :
    (a : State × Result WorkflowError WorkflowCreateResult) × (create_workflow in_order ext params
        state
      ≡ some a)
    × Answers params state a
create_workflow-Answers_example =
    create_workflow-Answers in_order ext params state in_order-Reorders
