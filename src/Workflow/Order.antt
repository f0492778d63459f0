-- ===== src/Workflow/Order.antt =====
-- An order in which the submitted tasks can run.
use favetto.Common.{◌≡◌, true, List, [], ◌∷◌, ◌++◌, Text, text_eq, All, if◌then◌else◌}
use favetto.Workflow.Spec.{WorkflowCreateTask, dependencies, contains, keys}
use favetto.Workflow.Counts.{count}

-- what the tasks under a key depend on
unfoldable pub deps_of : List WorkflowCreateTask → Text → List Text
unfolding dependencies
deps_of [] k = []
deps_of (t ∷ ts) k = if text_eq k t.key then dependencies t ++ deps_of ts k else deps_of ts k

-- Each key of the list stands before (that is, after, as the last one to run is the first item)
-- all that its task depends on.
abbrev pub IsOrdered : List WorkflowCreateTask → List Text → Type 0
IsOrdered ts [] = Unit
IsOrdered ts (k ∷ ks) = All (λ d. contains d ks ≡ true) (deps_of ts k) × IsOrdered ts ks

-- The keys of the tasks, each as often as it is a key, the last to run first: every task comes
-- after the tasks that it depends on.
pub record RunOrder (ts : List WorkflowCreateTask) : Type 0 where
  pub order : List Text
  pub same : (k : Text) → count k order ≡ count k (keys ts)
  pub ordered : IsOrdered ts order
