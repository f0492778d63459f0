-- ===== src/Catalog/Graph.antt =====
-- The graph of the catalog: crates/favetto-core/src/workflow.rs, with the types of
-- crates/favetto-wire/src/workflow.rs. A BTreeSet is its items in order, without repetition.
use favetto.Common.{
  ◌==◌, ltb, Bool, true, false, List, [], ◌∷◌, ◌++◌, none, some, is_some, map, any, if◌then◌else◌,
  Text, codes, text_eq,
}
use favetto.Catalog.Def.{TaskDef}
use favetto.Catalog.Needs.{NeedsKind, needs_parts}

pub record WorkflowNode : Type 0 where
  pub name : Text
  pub scheduled : Bool
  pub external : Bool

pub data WorkflowEdgeKind : Type 0 where
  spawn needs needs_succeeded needs_failed join : WorkflowEdgeKind

pub record WorkflowEdge : Type 0 where
  pub from : Text
  pub to : Text
  pub kind : WorkflowEdgeKind

pub record WorkflowGraph : Type 0 where
  pub nodes : List WorkflowNode
  pub edges : List WorkflowEdge

-- the order of `str`, by bytes, which is that of the code points
unfoldable pub text_le : Text → Text → Bool
text_le [] t = true
text_le (x ∷ xs) [] = false
text_le (x ∷ xs) (y ∷ ys) = let rest = text_le xs ys in if x == y then rest else ltb x y

-- `sort_by(|a, b| a.name.cmp(&b.name))`, which is stable
unfoldable pub insert_def : TaskDef → List TaskDef → List TaskDef
unfolding text_le
insert_def d [] = d ∷ []
insert_def d (e ∷ es) =
    let rest = insert_def d es in if text_le d.name e.name then d ∷ e ∷ es else e ∷ rest

unfoldable pub sort_defs : List TaskDef → List TaskDef
unfolding insert_def
sort_defs [] = []
sort_defs (d ∷ ds) = insert_def d (sort_defs ds)

-- `BTreeSet::insert`
unfoldable pub insert_name : Text → List Text → List Text
unfolding text_le
insert_name x [] = x ∷ []
insert_name x (y ∷ ys) =
    let rest = insert_name x ys in
    if text_eq x y then y ∷ ys else if text_le x y then x ∷ y ∷ ys else y ∷ rest

-- `names.contains`
abbrev pub in_catalog : List TaskDef → Text → Bool
in_catalog ds x = any (λ d. text_eq x d.name) ds

-- the names that one definition refers to
unfoldable pub references : TaskDef → List Text
references d =
    elim d.spawn as (λ _. List Text) [ none ↦ [] | some s ↦ s ∷ [] ]
    ++ elim d.needs as (λ _. List Text) [ none ↦ [] | some n ↦ (needs_parts n).0 ∷ [] ]

unfoldable pub add_unknown : (Text → Bool) → List Text → List Text → List Text
unfolding insert_name
add_unknown known [] set = set
add_unknown known (x ∷ xs) set = add_unknown known xs (if known x then set else insert_name x set)

-- the names outside the catalog, over the definitions in order
unfoldable pub externals : (Text → Bool) → List TaskDef → List Text → List Text
unfolding references add_unknown
externals known [] set = set
externals known (d ∷ ds) set = externals known ds (add_unknown known (references d) set)

unfoldable pub task_node : TaskDef → WorkflowNode
task_node d = record { name = d.name; scheduled = is_some d.schedule; external = false }

unfoldable pub external_node : Text → WorkflowNode
external_node x = record { name = x; scheduled = false; external = true }

unfoldable pub edge_kind : NeedsKind → WorkflowEdgeKind
edge_kind NeedsKind.finished = needs
edge_kind NeedsKind.succeeded = needs_succeeded
edge_kind NeedsKind.failed = needs_failed
edge_kind NeedsKind.all_finished = join

-- the edges of one definition, that of `spawn` first
unfoldable pub edges_of : TaskDef → List WorkflowEdge
unfolding edge_kind
edges_of d =
    elim d.spawn as (λ _. List WorkflowEdge) [
      | none ↦ []
      | some s ↦ record { from = d.name; to = s; kind = spawn } ∷ []
    ]
    ++ elim d.needs as (λ _. List WorkflowEdge) [
      | none ↦ []
      | some n ↦
          record { from = (needs_parts n).0; to = d.name; kind = edge_kind (needs_parts n).1 } ∷ []
    ]

unfoldable pub all_edges : List TaskDef → List WorkflowEdge
unfolding edges_of
all_edges [] = []
all_edges (d ∷ ds) = edges_of d ++ all_edges ds

unfoldable pub build_graph : List TaskDef → WorkflowGraph
unfolding sort_defs externals task_node external_node all_edges
build_graph ts =
    let sorted = sort_defs ts in
    record {
      nodes = map task_node sorted ++ map external_node (externals (in_catalog ts) sorted []);
      edges = all_edges sorted;
    }

-- a quote and a backslash are escaped
unfoldable pub dot_escape : Text → Text
dot_escape [] = []
dot_escape (c ∷ cs) =
    if c == 92
    then 92 ∷ 92 ∷ dot_escape cs
    else if c == 34
    then 92 ∷ 34 ∷ dot_escape cs
    else c ∷ dot_escape cs

unfoldable pub node_line : WorkflowNode → Text
unfolding dot_escape
node_line n =
    let id = dot_escape n.name in
    if n.external
    then codes "  \""
      ++ id
      ++ codes "\" [label=\""
      ++ id
      ++ codes " (external)\", style=\"rounded,dashed\"];\n"
    else if n.scheduled
    then codes "  \"" ++ id ++ codes "\" [label=\"" ++ id ++ codes "\", peripheries=2];\n"
    else codes "  \"" ++ id ++ codes "\" [label=\"" ++ id ++ codes "\"];\n"

unfoldable pub edge_label : WorkflowEdgeKind → Text
edge_label spawn = codes "spawn\"];\n"
edge_label needs = codes "needs\", style=dashed];\n"
edge_label needs_succeeded = codes "needs:succeeded\", style=dashed];\n"
edge_label needs_failed = codes "needs:failed\", style=dashed];\n"
edge_label join = codes "join\", style=dashed];\n"

unfoldable pub edge_line : WorkflowEdge → Text
unfolding dot_escape edge_label
edge_line e =
    codes "  \""
    ++ dot_escape e.from
    ++ codes "\" -> \""
    ++ dot_escape e.to
    ++ codes "\" [label=\""
    ++ edge_label e.kind

abbrev pub lines_of : {A : Type 0} → (A → Text) → List A → Text
lines_of f [] = []
lines_of f (x ∷ xs) = f x ++ lines_of f xs

unfoldable pub build_dot : List TaskDef → Text
unfolding build_graph node_line edge_line
build_dot ts =
    codes "digraph workflow {\n  rankdir=LR;\n  node [shape=box, style=rounded];\n"
    ++ lines_of node_line (build_graph ts).nodes
    ++ lines_of edge_line (build_graph ts).edges
    ++ codes "}\n"
