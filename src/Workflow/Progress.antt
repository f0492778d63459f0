-- ===== src/Workflow/Progress.antt =====
-- An accepted workflow never gets stuck.
use favetto.Common.{
  ◌≡◌, ◌==◌, ◌<◌, refl, sym, ◌∙◌, arith, true, false, Bool-cases, inl, inr, List, [], ◌∷◌, Text,
  text_eq_refl, some, ok, All, All-mono,
}
use favetto.Workflow.Spec.{WorkflowCreateTask, contains, keys, validate_create_dag}
use favetto.Workflow.Counts.{
  lacking, lacking_zero, All-lacking, All-intro, All-contains, contains-count,
}
use favetto.Workflow.Order.{deps_of, IsOrdered}
use favetto.Workflow.Accept.{Reorders, validate_create_dag-IsWorkflow}

-- an unfinished key of the list whose dependencies are all finished
pub record Runnable (ts : List WorkflowCreateTask) (done ks : List Text) : Type 0 where
  pub key : Text
  pub member : contains key ks ≡ true
  pub unfinished : contains key done ≡ false
  pub unblocked : All (λ d. contains d done ≡ true) (deps_of ts key)

ordered-Runnable :
    (ts : List WorkflowCreateTask) (done ks : List Text)
    → IsOrdered ts ks
    → 0 < lacking done ks
    → Runnable ts done ks
ordered-Runnable ts done [] o h = absurd (omega arith)
ordered-Runnable ts done (k ∷ ks) o h = elim (Bool-cases (lacking done ks == 0)) [
  | inl none_left ↦
      let finished = lacking_zero done ks (ground arith) in
      record {
        key = k;
        member = rw (text_eq_refl k) refl;
        unfinished = ground arith;
        unblocked =
            All-mono (λ d. contains d ks ≡ true) (λ d. contains d done ≡ true) (deps_of ts k)
              (λ d. All-contains (λ x. contains x done ≡ true) d ks finished) o.0;
      }
  | inr some_left ↦
      let rest = ordered-Runnable ts done ks o.1 (ground arith) in
      record {
        key = rest.key;
        member = ground (arith, rest.member);
        unfinished = rest.unfinished;
        unblocked = rest.unblocked;
      }
]

-- Whichever keys of an accepted workflow are finished, if one is not, then some unfinished key has
-- all its dependencies finished: the workflow is never blocked by itself.
pub validate_create_dag-Runnable :
    (hash_order : List Text → List Text) (catalog : List Text) (ts : List WorkflowCreateTask)
    (done : List Text)
    → Reorders hash_order
    → validate_create_dag hash_order catalog ts ≡ some (ok tt)
    → 0 < lacking done (keys ts)
    → Runnable ts done (keys ts)
validate_create_dag-Runnable hash_order catalog ts done reorders accepted h =
    let o = ((validate_create_dag-IsWorkflow hash_order catalog ts reorders).0 accepted).runs in
    let key_of : (x : Text) → contains x o.order ≡ contains x (keys ts) =
      λ x. ground (arith, o.same x, contains-count x o.order, contains-count x (keys ts)) in
    let left : 0 < lacking done o.order = elim (Bool-cases (lacking done o.order == 0)) [
      | inr e ↦ ground (arith, e)
      | inl e ↦
          let finished = lacking_zero done o.order (ground (arith, e)) in
          let all : lacking done (keys ts) ≡ 0 = All-lacking done (keys ts) (
            All-intro (λ x. contains x done ≡ true) (keys ts)
              (λ x m.
                All-contains (λ y. contains y done ≡ true) x o.order finished (key_of x ∙ m))) in
          absurd (omega (arith, all, h))
    ] in
    let r = ordered-Runnable ts done o.order o.ordered left in
    record {
      key = r.key;
      member = sym (key_of r.key) ∙ r.member;
      unfinished = r.unfinished;
      unblocked = r.unblocked;
    }
