-- ===== src/Server/Slug/Laws.antt =====
-- crossbridge-server/src/slug.rs: what the name of a repository is made of.
use crossbridge.Prelude.{
  ℕ, Bool, false, some, [], ◌∷◌, ◌≡◌, ◌≢◌, inl, inr, any, arith, Option-cases,
}
use crossbridge.Prelude.Text.{
  Text, codes, strip_suffix, trim, trim_end_matches, after_last, take_until,
}
use crossbridge.Prelude.Text.Laws.{any-trim, any-strip_suffix, any-after_last}
use crossbridge.Protocol.Roots.{non_empty}
use crossbridge.Server.Slug.{is_slash, is_tail, strip_git, last_segment, path_part, parse_slug}

any-strip_git : (q : ℕ → Bool) (s : Text) → any q s ≡ false → any q (strip_git s) ≡ false
unfolding strip_git
any-strip_git q s h = elim (Option-cases (strip_suffix (codes ".git") s)) [
  | inl e ↦ ground arith
  | inr (t, e) ↦ ground (arith, any-strip_suffix q (codes ".git") s {t = t} e h)
]

no_slash-last_segment : (path : Text) → any is_slash (last_segment path) ≡ false
unfolding last_segment
no_slash-last_segment path =
    any-trim is_slash (after_last is_slash (trim_end_matches is_slash (take_until is_tail path)))
      (any-after_last is_slash (trim_end_matches is_slash (take_until is_tail path)))

non_empty_sound : (s t : Text) → non_empty s ≡ some t → (s ≡ t) × (t ≢ [])
non_empty_sound [] t h = ground arith
non_empty_sound (c ∷ s) t h = ground arith

-- A name that the server takes from a URL is not empty and has no slash.
pub parse_slug-IsName :
    (url slug : Text) → parse_slug url ≡ some slug → (slug ≢ []) × (any is_slash slug ≡ false)
unfolding parse_slug
parse_slug-IsName url slug h = elim (Option-cases (path_part (trim url))) [
  | inl e ↦ ground arith
  | inr (path, e) ↦ ground (
    arith,
    non_empty_sound (strip_git (last_segment path)) slug,
    any-strip_git is_slash (last_segment path) (no_slash-last_segment path),
  )
]
