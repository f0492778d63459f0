-- ===== src/Catalog/Reorder.antt =====
-- The graph does not depend on the order of the catalog: crates/favetto-core/src/workflow.rs.
use favetto.Common.{
  refl, sym, ◌∙◌, ◌≡◌, refl, ap, ◌∙◌, arith, Bool, false, ◌||◌, Bool-cases, inl, inr, List, [], ◌∷◌,
  ◌++◌, Text, text_eq, map, codes,
}
use mathlib.Core.Path.{fun_ext}
use favetto.Catalog.Def.{TaskDef}
use favetto.Catalog.Graph.{
  text_le, insert_def, sort_defs, in_catalog, externals, task_node, external_node, all_edges,
  WorkflowGraph, build_graph, build_dot, lines_of, node_line, edge_line,
}
use favetto.Catalog.Names.{text_le_total, text_le_antisym, text_le_trans}

-- the same definitions, in an order that differs only between definitions of different names
pub data Reordered : List TaskDef → List TaskDef → Type 0 where
  nil : Reordered [] []
  keep : (d : TaskDef) {ds es : List TaskDef} → Reordered ds es → Reordered (d ∷ ds) (d ∷ es)
  swap :
      (d e : TaskDef) (ds : List TaskDef)
      → text_eq d.name e.name ≡ false
      → Reordered (d ∷ e ∷ ds) (e ∷ d ∷ ds)
  both : {ds es fs : List TaskDef} → Reordered ds es → Reordered es fs → Reordered ds fs

insert_behind :
    (d f : TaskDef) (fs : List TaskDef)
    → text_le d.name f.name ≡ false
    → insert_def d (f ∷ fs) ≡ f ∷ insert_def d fs
unfolding insert_def
insert_behind d f fs p = rw p refl

insert_comm :
    (d e : TaskDef) (ds : List TaskDef)
    → text_eq d.name e.name ≡ false
    → insert_def d (insert_def e ds) ≡ insert_def e (insert_def d ds)
unfolding insert_def
insert_comm d e [] h = ground (arith, h, text_le_total d.name e.name, text_le_antisym d.name e.name)
insert_comm d e (f ∷ fs) h = elim (Bool-cases (text_le e.name f.name)) [
  | inl p ↦ elim (Bool-cases (text_le d.name f.name)) [
    | inl q ↦
        rw (p, q)
          (ground (arith, h, p, q, text_le_total d.name e.name, text_le_antisym d.name e.name))
    | inr q ↦ rw (p, q) (ground (arith, p, q, text_le_trans d.name e.name f.name))
  ]
  | inr p ↦ elim (Bool-cases (text_le d.name f.name)) [
    | inl q ↦ rw (p, q) (ground (arith, p, q, text_le_trans e.name d.name f.name))
    | inr q ↦
        ap (insert_def d) (insert_behind e f fs p)
        ∙ insert_behind d f (insert_def e fs) q
        ∙ ap (λ es. f ∷ es) (insert_comm d e fs h)
        ∙ sym (insert_behind e f (insert_def d fs) p)
        ∙ sym (ap (insert_def e) (insert_behind d f fs q))
  ]
]

Reordered-sort_defs : {ds es : List TaskDef} → Reordered ds es → sort_defs ds ≡ sort_defs es
unfolding sort_defs
Reordered-sort_defs nil = refl
Reordered-sort_defs (keep d r) = ap (insert_def d) (Reordered-sort_defs r)
Reordered-sort_defs (swap d e ds h) = insert_comm d e (sort_defs ds) h
Reordered-sort_defs (both r q) = Reordered-sort_defs r ∙ Reordered-sort_defs q

Reordered-in_catalog :
    {ds es : List TaskDef} → Reordered ds es → (x : Text) → in_catalog ds x ≡ in_catalog es x
Reordered-in_catalog nil x = refl
Reordered-in_catalog (keep d r) x = ap (λ b. text_eq x d.name || b) (Reordered-in_catalog r x)
Reordered-in_catalog (swap d e ds h) x = ground arith
Reordered-in_catalog (both r q) x = Reordered-in_catalog r x ∙ Reordered-in_catalog q x

-- The graph of the catalog and its rendering do not depend on the order in which definitions of
-- different names stand in it.
pub build_graph-Reordered :
    (ds es : List TaskDef)
    → Reordered ds es
    → (build_graph ds ≡ build_graph es) × (build_dot ds ≡ build_dot es)
unfolding build_graph build_dot
build_graph-Reordered ds es r = (same, ap rendered same)
  where
    graph : List TaskDef → (Text → Bool) → WorkflowGraph
    graph sorted known = record {
      nodes = map task_node sorted ++ map external_node (externals known sorted []);
      edges = all_edges sorted;
    }

    same : build_graph ds ≡ build_graph es
    same =
        ap (λ sorted. graph sorted (in_catalog ds)) (Reordered-sort_defs r)
        ∙ ap (graph (sort_defs es)) (fun_ext (Reordered-in_catalog r))

    rendered : WorkflowGraph → Text
    rendered g =
        codes "digraph workflow {\n  rankdir=LR;\n  node [shape=box, style=rounded];\n"
        ++ lines_of node_line g.nodes
        ++ lines_of edge_line g.edges
        ++ codes "}\n"
