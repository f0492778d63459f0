-- ===== src/Executor/Branch.antt =====
-- The branch of a worktree: `branch_name` and `branch_suffix` of crates/favetto/src/executor.rs.
use favetto.Common.{
  strip_prefix, bytes, ℕ, ◌==◌, leb, if◌then◌else◌, Bool, true, ◌&&◌, ◌||◌, Text, codes, [], ◌∷◌,
  ◌++◌, map, take, Option, none, some,
}
use favetto.Model.Task.{Uuid, Task}
use favetto.Executor.State.{External}

-- `char::is_ascii_alphanumeric` and `char::is_ascii_hexdigit`
abbrev pub is_alphanumeric : ℕ → Bool
is_alphanumeric c =
    (leb b'0' c && leb c b'9') || (leb b'A' c && leb c b'Z') || (leb b'a' c && leb c b'z')

abbrev pub is_hexdigit : ℕ → Bool
is_hexdigit c =
    (leb b'0' c && leb c b'9') || (leb b'A' c && leb c b'F') || (leb b'a' c && leb c b'f')

abbrev pub all_hex : Text → Bool
all_hex [] = true
all_hex (c ∷ cs) = is_hexdigit c && all_hex cs

unfoldable pub slug_char : ℕ → ℕ
slug_char c = if is_alphanumeric c || c == b'-' || c == b'_' then c else b'-'

-- Every character of the slug has one byte, so `truncate(40)` keeps 40 characters.
unfoldable pub slug : Text → Text
unfolding slug_char
slug name = take 40 (map slug_char name)

-- `task_id_prefix`
unfoldable pub task_id_prefix : External → Uuid → Text
task_id_prefix ext id = take 8 (ext.uuid_text id)

unfoldable pub branch_name : External → Task → Text
unfolding slug task_id_prefix
branch_name ext t = codes "favetto/" ++ slug t.name ++ codes "-" ++ task_id_prefix ext t.id

-- `str::rsplit_once` of a character
unfoldable pub rsplit_once : ℕ → Text → Option (Text × Text)
rsplit_once sep [] = none
rsplit_once sep (c ∷ cs) = elim (rsplit_once sep cs) [
  | some (a, b) ↦ some (c ∷ a, b)
  | none ↦ if c == sep then some ([], cs) else none
]

-- the part behind the last dash, if it is an id
abbrev pub suffix_of : Option (Text × Text) → Option Text
suffix_of none = none
suffix_of (some (a, b)) = if bytes b == 8 && all_hex b then some b else none

unfoldable pub branch_suffix : Text → Option Text
unfolding rsplit_once
branch_suffix branch = elim (strip_prefix (codes "favetto/") branch) [
  | none ↦ none
  | some rest ↦ suffix_of (rsplit_once b'-' rest)
]
