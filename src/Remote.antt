-- ===== src/Remote.antt =====
-- What `git` and `jj` print about a repository's remotes: the programs run them, and their outcome
-- is a parameter. Used by crossbridge-server/src/slug.rs and crossbridge-client/src/slug.rs.
use crossbridge.Prelude.{
  ℕ, Bool, Option, none, some, List, [], ◌∷◌, if◌then◌else◌, is_empty, nat_eq, Result,
}
use crossbridge.Prelude.Text.{Text, split, strip_suffix}

-- `std::process::Output`, with the text of `String::from_utf8_lossy` for the output.
pub record Output : Type 0 where
  pub success : Bool
  pub stdout : Text

-- A repository: its path as `display` prints it, whether `.jj` is a directory in it, and what
-- `git remote get-url origin` and `jj git remote list` come to, an error being that of the start.
pub record Repo : Type 0 where
  pub path : Text
  pub has_jj : Bool
  pub git_get_url : Result Text Output
  pub jj_remote_list : Result Text Output

abbrev is_newline : ℕ → Bool
is_newline c = nat_eq c 0x0A

drop_cr : Text → Text
unfolding strip_suffix
drop_cr w = elim (strip_suffix (0x0D ∷ []) w) [ some v ↦ v | none ↦ w ]

line_pieces : List Text → List Text
unfolding drop_cr
line_pieces [] = []
line_pieces (w ∷ []) = if is_empty w then [] else w ∷ []
line_pieces (w ∷ v ∷ ws) = drop_cr w ∷ line_pieces (v ∷ ws)

-- `s.lines()`
unfoldable pub lines : Text → List Text
unfolding line_pieces split
lines s = line_pieces (split is_newline s)

-- `s.splitn(2, p)`: the first piece, and the second, which may be missing.
unfoldable pub splitn2 : (ℕ → Bool) → Text → Text × Option Text
splitn2 p [] = ([], none)
splitn2 p (c ∷ s) =
    let (first, second) = splitn2 p s in if p c then ([], some s) else (c ∷ first, second)
