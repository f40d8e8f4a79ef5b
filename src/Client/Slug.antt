-- ===== src/Client/Slug.antt =====
-- crossbridge-client/src/slug.rs: the name of the own repository, as the client finds it.
pub mod Laws
use crossbridge.Prelude.{
  ℕ, Bool, true, false, not, ◌&&◌, ◌||◌, Option, none, some, List, [], ◌∷◌, ◌++◌, if◌then◌else◌,
  is_empty, nat_eq, Result, ok, err, ok_or, ◌==◌,
}
use crossbridge.Prelude.Text.{
  Text, codes, text_has_eq, trim, after_last, strip_suffix, split_whitespace,
}
use crossbridge.Protocol.Roots.{Env, own_slug_from_env, non_empty}
use crossbridge.Remote.{Output, Repo, lines}

-- `/` and `:`
abbrev pub is_separator : ℕ → Bool
is_separator c = nat_eq c 0x2F || nat_eq c 0x3A

unfoldable pub strip_git : Text → Text
strip_git last = elim (strip_suffix (codes ".git") last) [ some s ↦ s | none ↦ last ]

unfoldable pub parse_origin_url : Text → Option Text
parse_origin_url url =
    if is_empty (trim url) then none else non_empty (strip_git (after_last is_separator (trim url)))

abbrev pub no_slug : Text
no_slug = codes "cannot determine repo slug from git remote"

unfoldable pub git_origin_url : Repo → Result Text Text
git_origin_url repo = elim (repo.git_get_url) [
  | err e ↦ err (no_slug ++ codes ": " ++ e)
  | ok out ↦ if out.success then ok_or (non_empty (trim out.stdout)) no_slug else err no_slug
]

-- The first two words of a line are the name and the URL.
unfoldable pub find_origin : List Text → Option Text
find_origin [] = none
find_origin (line ∷ rest) =
    let later = find_origin rest in
    elim (split_whitespace line) [
      | [] ↦ later
      | name ∷ [] ↦ later
      | name ∷ url ∷ more ↦
          if (name == codes "origin") && not (is_empty url) then some url else later
    ]

unfoldable pub jj_origin_url : Repo → Option Text
jj_origin_url repo = elim (repo.jj_remote_list) [
  | err e ↦ none
  | ok out ↦ if out.success then find_origin (lines out.stdout) else none
]

unfoldable pub read_origin_url : Repo → Result Text Text
read_origin_url repo =
    let git = git_origin_url repo in
    if repo.has_jj then elim (jj_origin_url repo) [ some url ↦ ok url | none ↦ git ] else git

unfoldable pub derive_own_slug : Repo → Result Text Text
derive_own_slug repo = elim (read_origin_url repo) [
  | err e ↦ err e
  | ok url ↦ ok_or (parse_origin_url url) no_slug
]

unfoldable pub resolve_own_slug : Option Text → Env → Repo → Result Text Text
resolve_own_slug (some s) env repo =
    ok_or (non_empty (trim s)) (codes "--slug must be a non-empty string")
resolve_own_slug none env repo = elim (own_slug_from_env env) [
  | some s ↦ ok s
  | none ↦ derive_own_slug repo
]
