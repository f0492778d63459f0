-- ===== src/Catalog/Repos.antt =====
-- Names that are qualified by a repository: crates/favetto-core/src/tasks.rs.
use favetto.Common.{
  ℕ, ◌==◌, ◌||◌, Bool, List, [], ◌∷◌, ◌++◌, Option, none, some, is_some, map, any, if◌then◌else◌,
  Text, codes, text_eq, strip_prefix, is_empty, bytes, slice_from,
}
use favetto.Catalog.Def.{TaskDef}
use favetto.Catalog.Needs.{needs_parts}

-- `REPO_PREFIX`
unfoldable pub repo_prefix : Text
repo_prefix = codes "repo:"

-- `str::split_once` of a character
unfoldable pub split_once : ℕ → Text → Option (Text × Text)
split_once sep [] = none
split_once sep (c ∷ cs) =
    let rest = split_once sep cs in
    if c == sep then some ([], cs) else elim rest [ none ↦ none | some (a, b) ↦ some (c ∷ a, b) ]

-- the two parts, if neither is empty
abbrev pub nonempty_parts : Option (Text × Text) → Option (Text × Text)
nonempty_parts none = none
nonempty_parts (some (repo, rel)) = if is_empty repo || is_empty rel then none else some (repo, rel)

unfoldable pub split_repo : Text → Option (Text × Text)
unfolding repo_prefix split_once
split_repo name = elim (strip_prefix repo_prefix name) [
  | none ↦ none
  | some rest ↦ nonempty_parts (split_once 47 rest)
]

unfoldable pub display_name : Text → Text
unfolding split_repo
display_name name = elim (split_repo name) [ none ↦ name | some (repo, rel) ↦ rel ]

unfoldable pub qualify : Text → Text → Text
unfolding repo_prefix
qualify repo rel = repo_prefix ++ repo ++ 47 ∷ rel

-- `names.contains`
abbrev pub has_name : List Text → Text → Bool
has_name names x = any (text_eq x) names

-- a `needs` value of a task of the repository
unfoldable pub resolve_needs : List Text → Text → Text → Text
unfolding split_repo qualify
resolve_needs names repo needs =
    let (source, kind) = needs_parts needs in
    if is_some (split_repo source)
    then needs
    else if has_name names (qualify repo source)
    then qualify repo source ++ slice_from needs (bytes source)
    else needs

unfoldable pub resolve_spawn : List Text → Text → Text → Text
unfolding split_repo qualify
resolve_spawn names repo spawn =
    if is_some (split_repo spawn)
    then spawn
    else if has_name names (qualify repo spawn)
    then qualify repo spawn
    else spawn

abbrev pub map_option : (Text → Text) → Option Text → Option Text
map_option f none = none
map_option f (some x) = some (f x)

unfoldable pub resolve_def : List Text → TaskDef → TaskDef
unfolding split_repo resolve_needs resolve_spawn
resolve_def names d = elim (split_repo d.name) [
  | none ↦ d
  | some (repo, rel) ↦ record d {
    needs = map_option (resolve_needs names repo) d.needs;
    spawn = map_option (resolve_spawn names repo) d.spawn;
  }
]

unfoldable pub resolve_repo_refs : List TaskDef → List TaskDef
unfolding resolve_def
resolve_repo_refs ds = map (resolve_def (map (λ d. d.name) ds)) ds
