-- ===== src/Server/Slug.antt =====
-- crossbridge-server/src/slug.rs: the name of the own repository.
pub mod Laws
use mathlib.Core.Option
use crossbridge.Prelude.{
  ℕ, Bool, true, false, not, ◌&&◌, ◌||◌, Option, none, some, List, [], ◌∷◌, ◌++◌, if◌then◌else◌,
  is_empty, nat_eq, Result, ok, err, ok_or, map_err, ◌==◌,
}
use crossbridge.Prelude.Text.{
  Text, codes, text_has_eq, trim, trim_end_matches, split_once, contains_text, take_until,
  after_last, strip_suffix, is_whitespace,
}
use crossbridge.Protocol.Roots.{Env, own_slug_from_env, non_empty}
use crossbridge.Remote.{Output, Repo, lines, splitn2}

abbrev pub is_slash : ℕ → Bool
is_slash c = nat_eq c 0x2F

-- `?` and `#`
abbrev pub is_tail : ℕ → Bool
is_tail c = nat_eq c 0x3F || nat_eq c 0x23

-- What follows the first slash of what follows the scheme.
unfoldable pub url_path : Text → Option Text
url_path url =
    let after_scheme : Text = elim (split_once (codes "://") url) [ some r ↦ r.1 | none ↦ url ] in
    elim (split_once (codes "/") after_scheme) [ some r ↦ some r.1 | none ↦ none ]

unfoldable pub path_part : Text → Option Text
path_part url =
    if contains_text (codes "://") url
    then url_path url
    else elim (split_once (codes ":") url) [ some r ↦ some r.1 | none ↦ some url ]

unfoldable pub strip_git : Text → Text
strip_git last = elim (strip_suffix (codes ".git") last) [ some s ↦ s | none ↦ last ]

unfoldable pub last_segment : Text → Text
last_segment path = trim (after_last is_slash (trim_end_matches is_slash (take_until is_tail path)))

unfoldable pub parse_slug : Text → Option Text
parse_slug raw = if is_empty (trim raw) then none else elim (path_part (trim raw)) [
  | none ↦ none
  | some path ↦ non_empty (strip_git (last_segment path))
]

unfoldable pub git_origin_url : Repo → Result Text (Option Text)
git_origin_url repo = elim (repo.git_get_url) [
  | err e ↦ err (codes "running git in " ++ repo.path ++ codes ": " ++ e)
  | ok out ↦ if out.success then ok (non_empty (trim out.stdout)) else ok none
]

-- The first remote of the list that is named `origin` and has a URL.
unfoldable pub find_origin : List Text → Option Text
find_origin [] = none
find_origin (line ∷ rest) =
    let later = find_origin rest in
    let (name, url) = splitn2 is_whitespace line in
    let url' = trim (elim url [ some u ↦ u | none ↦ [] ]) in
    if (trim name == codes "origin") && not (is_empty url') then some url' else later

unfoldable pub jj_origin_url : Repo → Result Text (Option Text)
jj_origin_url repo = elim (repo.jj_remote_list) [
  | err e ↦ err (codes "running jj in " ++ repo.path ++ codes ": " ++ e)
  | ok out ↦ if out.success then ok (find_origin (lines out.stdout)) else ok none
]

unfoldable pub origin_remote_url : Repo → Result Text (Option Text)
origin_remote_url repo = if repo.has_jj then jj_origin_url repo else git_origin_url repo

unfoldable pub derive_from_repo : Repo → Result Text Text
derive_from_repo repo = elim (origin_remote_url repo) [
  | err e ↦ err e
  | ok none ↦ err (
      codes "pass `--slug <NAME>` explicitly: cannot auto-derive repo slug for "
      ++ repo.path
      ++ codes
          " (no `origin` remote configured)\n\nExample:\n    crossbridge-server --group <GROUP> --slug <NAME>")
  | ok (some url) ↦ ok_or (parse_slug url) (
      codes "could not parse repo slug from origin remote URL `"
      ++ url
      ++ codes "` for "
      ++ repo.path)
]

unfoldable pub resolve_slug : Option Text → Env → Repo → Result Text Text
resolve_slug (some s) env repo =
    ok_or (non_empty (trim s)) (codes "--slug must be a non-empty string")
resolve_slug none env repo = elim (own_slug_from_env env) [
  | some s ↦ ok s
  | none ↦ derive_from_repo repo
]
