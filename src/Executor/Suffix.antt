-- ===== src/Executor/Suffix.antt =====
-- A branch name gives its task id back: crates/favetto/src/executor.rs.
use favetto.Common.{
  len_utf8, bytes, ◌==◌, ◌≡◌, refl, arith, true, Text, [], ◌∷◌, ◌++◌, length, none, some, ap, ◌∙◌,
  if◌then◌else◌, ◌&&◌,
}
use favetto.Model.Task.{Task}
use favetto.Executor.State.{External}
use favetto.Executor.Branch.{
  all_hex, slug, task_id_prefix, branch_name, rsplit_once, suffix_of, branch_suffix,
}

hex-no_dash : (b : Text) → all_hex b ≡ true → rsplit_once b'-' b ≡ none
unfolding rsplit_once
hex-no_dash [] h = refl
hex-no_dash (c ∷ b) h = rw (hex-no_dash b (ground arith)) (ground arith)

split_last : (a b : Text) → all_hex b ≡ true → rsplit_once b'-' (a ++ b'-' ∷ [] ++ b) ≡ some (a, b)
unfolding rsplit_once
split_last [] b h = rw (hex-no_dash b h) refl
split_last (c ∷ a) b h = rw (split_last a b h) refl

hex-bytes : (b : Text) → all_hex b ≡ true → bytes b ≡ length b
unfolding bytes len_utf8
hex-bytes [] h = refl
hex-bytes (c ∷ b) h = ground (arith, hex-bytes b)

valid :
    (b : Text)
    → all_hex b ≡ true
    → length b ≡ 8
    → (if bytes b == 8 && all_hex b then some b else none) ≡ some b
valid b hex eight = ground (arith, hex, hex-bytes b hex)

-- Whatever the name of the task, the branch of its worktree gives back the first eight digits of
-- its id, if the text of the id begins with eight hexadecimal digits.
pub branch_suffix-branch_name :
    (ext : External) (t : Task)
    → all_hex (task_id_prefix ext t.id) ≡ true
    → length (task_id_prefix ext t.id) ≡ 8
    → branch_suffix (branch_name ext t) ≡ some (task_id_prefix ext t.id)
unfolding branch_suffix branch_name
branch_suffix-branch_name ext t hex eight =
    let short : Text = task_id_prefix ext t.id in
    ap suffix_of (split_last (slug t.name) short hex) ∙ valid short hex eight
