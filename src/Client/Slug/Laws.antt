-- ===== src/Client/Slug/Laws.antt =====
-- crossbridge-client/src/slug.rs: what the name of a repository is made of.
use crossbridge.Prelude.{
  ℕ, Bool, false, some, [], ◌∷◌, ◌≡◌, ◌≢◌, inl, inr, any, arith, Option-cases,
}
use crossbridge.Prelude.Text.{Text, codes, strip_suffix, trim, after_last}
use crossbridge.Prelude.Text.Laws.{any-strip_suffix, any-after_last}
use crossbridge.Protocol.Roots.{non_empty}
use crossbridge.Client.Slug.{is_separator, strip_git, parse_origin_url}

any-strip_git : (q : ℕ → Bool) (s : Text) → any q s ≡ false → any q (strip_git s) ≡ false
unfolding strip_git
any-strip_git q s h = elim (Option-cases (strip_suffix (codes ".git") s)) [
  | inl e ↦ ground arith
  | inr (t, e) ↦ ground (arith, any-strip_suffix q (codes ".git") s {t = t} e h)
]

non_empty_sound : (s t : Text) → non_empty s ≡ some t → (s ≡ t) × (t ≢ [])
non_empty_sound [] t h = ground arith
non_empty_sound (c ∷ s) t h = ground arith

-- A name that the client takes from a URL is not empty and has neither slash nor colon.
pub parse_origin_url-IsName :
    (url slug : Text)
    → parse_origin_url url ≡ some slug
    → (slug ≢ []) × (any is_separator slug ≡ false)
unfolding parse_origin_url
parse_origin_url-IsName url slug h = ground (
  arith,
  non_empty_sound (strip_git (after_last is_separator (trim url))) slug,
  any-strip_git is_separator (after_last is_separator (trim url))
      (any-after_last is_separator (trim url)),
)
