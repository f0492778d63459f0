-- ===== src/Examples/Named.antt =====
-- The names, references and graph of a small catalog.
use favetto.Common.{
  ◌≡◌, ◌↔◌, refl, false, [], ◌∷◌, some, codes, is_some, is_empty, contains_char, if◌then◌else◌,
  text_eq,
}
use favetto.Catalog.Needs.{needs_parts}
use favetto.Catalog.Graph.{build_graph, build_dot}
use favetto.Catalog.Reorder.{swap, keep, build_graph-Reordered}
use favetto.Catalog.Repos.{split_repo, qualify, has_name, resolve_needs}
use favetto.Catalog.Qualified.{split_repo-qualify}
use favetto.Catalog.Resolved.{needs_parts-resolve_needs}
use favetto.Examples.Data.{plan_def, work_def, report_def}

build_graph-Reordered_example :
    (build_graph (plan_def ∷ work_def ∷ report_def ∷ [])
      ≡ build_graph (plan_def ∷ report_def ∷ work_def ∷ []))
    × (build_dot (plan_def ∷ work_def ∷ report_def ∷ [])
        ≡ build_dot (plan_def ∷ report_def ∷ work_def ∷ []))
unfolding text_eq
build_graph-Reordered_example =
    build_graph-Reordered (plan_def ∷ work_def ∷ report_def ∷ [])
      (plan_def ∷ report_def ∷ work_def ∷ []) (keep plan_def (swap work_def report_def [] refl))

split_repo-qualify_example :
    (split_repo (codes "repo:web/pipelines/plan") ≡ some (codes "web", codes "pipelines/plan")) ↔ (
      (codes "repo:web/pipelines/plan" ≡ qualify (codes "web") (codes "pipelines/plan"))
      × (is_empty (codes "web") ≡ false)
      × (is_empty (codes "pipelines/plan") ≡ false)
      × (contains_char 47 (codes "web") ≡ false))
split_repo-qualify_example =
    split_repo-qualify (codes "repo:web/pipelines/plan") (codes "web") (codes "pipelines/plan")

needs_parts-resolve_needs_example :
    let (source, kind) = needs_parts (codes "plan:failed") in
    let names = codes "repo:web/plan" ∷ codes "repo:web/work" ∷ [] in
    needs_parts (resolve_needs names (codes "web") (codes "plan:failed")) ≡ (
      if is_some (split_repo source)
          then source
          else if has_name names (qualify (codes "web") source)
          then qualify (codes "web") source
          else source,
      kind,
    )
needs_parts-resolve_needs_example =
    needs_parts-resolve_needs (codes "repo:web/plan" ∷ codes "repo:web/work" ∷ []) (codes "web")
      (codes "plan:failed")
