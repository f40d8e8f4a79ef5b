-- ===== src/Naming.antt =====
-- The two parsers of origin URLs, parse_slug of crossbridge-server/src/slug.rs and
-- parse_origin_url of crossbridge-client/src/slug.rs, side by side.
use crossbridge.Prelude.{
  ℕ, Bool, true, false, none, some, List, [], ◌∷◌, ◌++◌, ◌≡◌, ◌≢◌, ◌||◌, refl, any, arith, nat_eq,
  ◌∙◌, sym, ap, append_assoc,
}
use crossbridge.Prelude.Text.{
  Text, codes, trim, trim_end_matches, after_last, is_whitespace, split_once, contains_text,
  strip_suffix,
}
use crossbridge.Prelude.Text.Laws.{
  any-append, after_last-skip, after_last_none, take_until_none, trim_none, trim_end-append,
  trim_end-snoc, split_once_first,
}
use crossbridge.Protocol.Roots.{non_empty}
use crossbridge.Server.Slug as ServerSlug
use crossbridge.Server.Slug.{is_slash, is_tail, path_part, last_segment, parse_slug, url_path}
use crossbridge.Client.Slug as ClientSlug
use crossbridge.Client.Slug.{is_separator, parse_origin_url}

-- `org/team/name`
unfoldable pub path_of : List Text → Text → Text
path_of [] name = name
path_of (d ∷ ds) name = d ++ b'/' ∷ path_of ds name

-- `https://host/org/team/name`
unfoldable pub url_of : Text → Text → List Text → Text → Text
unfolding path_of
url_of scheme host ds name = scheme ++ b':' ∷ b'/' ∷ b'/' ∷ (host ++ b'/' ∷ path_of ds name)

-- `user@host:org/team/name`
unfoldable pub scp_of : Text → List Text → Text → Text
unfolding path_of
scp_of host ds name = host ++ b':' ∷ path_of ds name

-- The last segment, which has no slash, colon, space, `?` or `#`.
pub record IsSegment (name : Text) : Type 0 where
  pub not_empty : name ≢ []
  pub no_separator : any is_separator name ≡ false
  pub no_space : any is_whitespace name ≡ false

separator-slash : (name : Text) → any is_separator name ≡ false → any is_slash name ≡ false
separator-slash [] h = refl
separator-slash (c ∷ name) h = ground (arith, separator-slash name)

after_last-path_of :
    (q : ℕ → Bool) (ds : List Text) (name : Text)
    → q b'/' ≡ true
    → any q name ≡ false
    → after_last q (path_of ds name) ≡ name
unfolding path_of
after_last-path_of q [] name slash h = after_last_none q name h
after_last-path_of q (d ∷ ds) name slash h =
    after_last-skip q d b'/' (path_of ds name) slash ∙ after_last-path_of q ds name slash h

path_of-lead : (ds : List Text) (name : Text) → (lead : Text) × (path_of ds name ≡ lead ++ name)
unfolding path_of
path_of-lead [] name = ([], refl)
path_of-lead (d ∷ ds) name =
    let (lead, e) = path_of-lead ds name in
    (d ++ b'/' ∷ lead, ap (λ w. d ++ b'/' ∷ w) e ∙ sym (append_assoc d (b'/' ∷ lead) name))

trim_end-path_of :
    (ds : List Text) (name : Text)
    → IsSegment name
    → trim_end_matches is_slash (path_of ds name) ≡ path_of ds name
unfolding path_of
trim_end-path_of ds name s =
    let (lead, e) = path_of-lead ds name in
    ap (trim_end_matches is_slash) e
    ∙ trim_end-append is_slash lead name (separator-slash name s.no_separator) s.not_empty
    ∙ sym e

last_segment-path_of :
    (ds : List Text) (name : Text)
    → IsSegment name
    → any is_tail (path_of ds name) ≡ false
    → last_segment (path_of ds name) ≡ name
unfolding last_segment
last_segment-path_of ds name s h = rw (
  take_until_none is_tail (path_of ds name) h,
  trim_end-path_of ds name s,
  after_last-path_of is_slash ds name refl (separator-slash name s.no_separator),
  trim_none name s.no_space,
)

scheme_mark : codes "://" ≡ b':' ∷ b'/' ∷ b'/' ∷ []
unfolding codes
scheme_mark = refl

slash_mark : codes "/" ≡ b'/' ∷ []
unfolding codes
slash_mark = refl

colon_mark : codes ":" ≡ b':' ∷ []
unfolding codes
colon_mark = refl

after_last-scheme :
    (scheme host : Text) (ds : List Text) (name : Text)
    → any is_separator name ≡ false
    → after_last is_separator (url_of scheme host ds name) ≡ name
unfolding url_of
after_last-scheme scheme host ds name h =
    after_last-skip is_separator scheme b':' (b'/' ∷ b'/' ∷ (host ++ b'/' ∷ path_of ds name)) refl
    ∙ after_last-skip is_separator [] b'/' (b'/' ∷ (host ++ b'/' ∷ path_of ds name)) refl
    ∙ after_last-skip is_separator [] b'/' (host ++ b'/' ∷ path_of ds name) refl
    ∙ after_last-skip is_separator host b'/' (path_of ds name) refl
    ∙ after_last-path_of is_separator ds name refl h

server_parses :
    (url path name : Text)
    → trim url ≡ url
    → path_part url ≡ some path
    → last_segment path ≡ name
    → url ≢ []
    → parse_slug url ≡ non_empty (ServerSlug.strip_git name)
unfolding parse_slug
server_parses [] path name t p l n = absurd (n refl)
server_parses (u ∷ url) path name t p l n = ground (arith, t, p, l)

client_parses :
    (url name : Text)
    → trim url ≡ url
    → after_last is_separator url ≡ name
    → url ≢ []
    → parse_origin_url url ≡ non_empty (ClientSlug.strip_git name)
unfolding parse_origin_url
client_parses [] name t l n = absurd (n refl)
client_parses (u ∷ url) name t l n = rw (t, l) refl

url_of≢[] : (scheme host : Text) (ds : List Text) (name : Text) → url_of scheme host ds name ≢ []
unfolding url_of
url_of≢[] [] host ds name h = ground arith
url_of≢[] (c ∷ scheme) host ds name h = ground arith

path_part-scheme :
    (scheme host path : Text)
    → any (nat_eq b':') scheme ≡ false
    → any (nat_eq b'/') host ≡ false
    → path_part (scheme ++ b':' ∷ b'/' ∷ b'/' ∷ (host ++ b'/' ∷ path)) ≡ some path
unfolding path_part url_path contains_text
path_part-scheme scheme host path no_colon no_slash =
    let rest = host ++ b'/' ∷ path in
    let url = scheme ++ b':' ∷ b'/' ∷ b'/' ∷ rest in
    let at_scheme : split_once (codes "://") url ≡ some (scheme, rest) =
      ap (λ m. split_once m url) scheme_mark
      ∙ split_once_first b':' (b'/' ∷ b'/' ∷ []) scheme rest no_colon in
    let at_host : split_once (codes "/") rest ≡ some (host, path) =
      ap (λ m. split_once m rest) slash_mark ∙ split_once_first b'/' [] host path no_slash in
    ground (arith, at_scheme, at_host)

path_part-url_of :
    (scheme host : Text) (ds : List Text) (name : Text)
    → any (nat_eq b':') scheme ≡ false
    → any (nat_eq b'/') host ≡ false
    → path_part (url_of scheme host ds name) ≡ some (path_of ds name)
unfolding url_of
path_part-url_of scheme host ds name no_colon no_slash =
    path_part-scheme scheme host (path_of ds name) no_colon no_slash

-- On a URL of the form scheme://host/org/name both parsers give the name without its `.git`, or
-- none if that is empty: for a scheme without a colon, a host without a slash, a last segment
-- that is not empty and has no slash or colon, and no white space, `?` or `#`.
pub parsers_agree_url :
    (scheme host : Text) (ds : List Text) (name : Text)
    → any (nat_eq b':') scheme ≡ false
    → any (nat_eq b'/') host ≡ false
    → IsSegment name
    → any is_tail (path_of ds name) ≡ false
    → any is_whitespace (url_of scheme host ds name) ≡ false
    → (parse_slug (url_of scheme host ds name) ≡ non_empty (ServerSlug.strip_git name))
      × (parse_origin_url (url_of scheme host ds name) ≡ non_empty (ServerSlug.strip_git name))
unfolding ServerSlug.strip_git ClientSlug.strip_git
parsers_agree_url scheme host ds name no_colon no_slash s no_tail no_space =
    let url = url_of scheme host ds name in
    let trimmed = trim_none url no_space in
    (
      server_parses url (path_of ds name) name trimmed
          (path_part-url_of scheme host ds name no_colon no_slash)
          (last_segment-path_of ds name s no_tail) (url_of≢[] scheme host ds name),
      client_parses url name trimmed (after_last-scheme scheme host ds name s.no_separator)
          (url_of≢[] scheme host ds name),
    )

snoc≢[] : (s : Text) (c : ℕ) → s ++ c ∷ [] ≢ []
snoc≢[] [] c h = ground arith
snoc≢[] (d ∷ s) c h = ground arith

path_part-slash :
    (scheme host : Text) (ds : List Text) (name : Text)
    → any (nat_eq b':') scheme ≡ false
    → any (nat_eq b'/') host ≡ false
    → path_part (url_of scheme host ds name ++ b'/' ∷ []) ≡ some (path_of ds name ++ b'/' ∷ [])
unfolding url_of
path_part-slash scheme host ds name no_colon no_slash =
    ap path_part (
      append_assoc scheme (b':' ∷ b'/' ∷ b'/' ∷ (host ++ b'/' ∷ path_of ds name)) (b'/' ∷ [])
      ∙ ap (λ w. scheme ++ b':' ∷ b'/' ∷ b'/' ∷ w)
          (append_assoc host (b'/' ∷ path_of ds name) (b'/' ∷ [])))
    ∙ path_part-scheme scheme host (path_of ds name ++ b'/' ∷ []) no_colon no_slash

last_segment-slash :
    (ds : List Text) (name : Text)
    → IsSegment name
    → any is_tail (path_of ds name) ≡ false
    → last_segment (path_of ds name ++ b'/' ∷ []) ≡ name
unfolding last_segment
last_segment-slash ds name s h =
    ap (λ w. trim (after_last is_slash (trim_end_matches is_slash w)))
      (take_until_none is_tail (path_of ds name ++ b'/' ∷ [])
        (any-append is_tail (path_of ds name) (b'/' ∷ []) ∙ ap (λ b. b || false) h))
    ∙ ap (λ w. trim (after_last is_slash w))
        (trim_end-snoc is_slash (path_of ds name) b'/' refl ∙ trim_end-path_of ds name s)
    ∙ ap trim (after_last-path_of is_slash ds name refl (separator-slash name s.no_separator))
    ∙ trim_none name s.no_space

-- On a URL of the form scheme://host/org/name with one more slash at the end the server's parser
-- gives the name without its `.git`, or none if that is empty, and the client's gives none: for
-- a scheme without a colon, a host without a slash, a last segment that is not empty and has no
-- slash or colon, and no white space, `?` or `#`.
pub trailing_slash_differs :
    (scheme host : Text) (ds : List Text) (name : Text)
    → any (nat_eq b':') scheme ≡ false
    → any (nat_eq b'/') host ≡ false
    → IsSegment name
    → any is_tail (path_of ds name) ≡ false
    → any is_whitespace (url_of scheme host ds name) ≡ false
    → (parse_slug (url_of scheme host ds name ++ codes "/") ≡ non_empty (ServerSlug.strip_git name))
      × (parse_origin_url (url_of scheme host ds name ++ codes "/") ≡ none)
unfolding codes is_whitespace after_last ClientSlug.strip_git strip_suffix
trailing_slash_differs scheme host ds name no_colon no_slash s no_tail no_space =
    let url = url_of scheme host ds name ++ b'/' ∷ [] in
    let trimmed : trim url ≡ url = trim_none url (
      any-append is_whitespace (url_of scheme host ds name) (b'/' ∷ [])
      ∙ ap (λ b. b || false) no_space) in
    let some_text : url ≢ [] = λ e. snoc≢[] (url_of scheme host ds name) b'/' e in
    (
      server_parses url (path_of ds name ++ b'/' ∷ []) name trimmed
          (path_part-slash scheme host ds name no_colon no_slash)
          (last_segment-slash ds name s no_tail) some_text,
      client_parses url [] trimmed
            (after_last-skip is_separator (url_of scheme host ds name) b'/' [] refl) some_text
          ∙ refl,
    )
