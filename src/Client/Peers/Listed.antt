-- ===== src/Client/Peers/Listed.antt =====
-- crossbridge-client/src/peers.rs: which peers are listed, and in which order.
use crossbridge.Prelude.{
  true, false, some, List, [], ◌∷◌, ◌++◌, ◌≡◌, ◌≢◌, ◌⊎◌, ◌↔◌, refl, inl, inr, arith, subst, In,
  nat_eq_iff, Result, ok, err, Bool-cases, Option-cases, Result-cases,
}
use crossbridge.Prelude.Text.{Text, codes, strip_suffix}
use crossbridge.Prelude.Text.Laws.{strip_suffix-append, strip_suffix_sound}
use crossbridge.Protocol.Roots.{OsString, into_string}
use crossbridge.Client.Peers.{text_le, insert_sorted, sort, slug_of_name, collect, list_peers}

-- Each text is at most the one behind it.
unfoldable pub IsSorted : List Text → Type 0
IsSorted [] = Unit
IsSorted (x ∷ []) = Unit
IsSorted (x ∷ y ∷ ys) = (text_le x y ≡ true) × IsSorted (y ∷ ys)

text_le_total : (s t : Text) → text_le s t ≡ false → text_le t s ≡ true
unfolding text_le
text_le_total [] t h = ground arith
text_le_total (c ∷ s) [] h = refl
text_le_total (c ∷ s) (d ∷ t) h = ground (arith, text_le_total s t, nat_eq_iff c d, nat_eq_iff d c)

insert_sorted-IsSorted : (x : Text) (ys : List Text) → IsSorted ys → IsSorted (insert_sorted x ys)
unfolding IsSorted insert_sorted
insert_sorted-IsSorted x [] h = tt
insert_sorted-IsSorted x (y ∷ []) h = elim (Bool-cases (text_le x y)) [
  | inl e ↦ rw e (e, tt)
  | inr e ↦ rw e (text_le_total x y e, tt)
]
insert_sorted-IsSorted x (y ∷ z ∷ ys) h = elim (Bool-cases (text_le x y)) [
  | inl e ↦ rw e (e, h)
  | inr e ↦
      let rest = insert_sorted-IsSorted x (z ∷ ys) h.1 in
      elim (Bool-cases (text_le x z)) [
        | inl f ↦ rw (e, f) (text_le_total x y e, (f, h.1))
        | inr f ↦ rw (e, f) (h.0, rw f at rest)
      ]
]

sort-IsSorted : (xs : List Text) → IsSorted (sort xs)
unfolding sort IsSorted
sort-IsSorted [] = tt
sort-IsSorted (x ∷ xs) = insert_sorted-IsSorted x (sort xs) (sort-IsSorted xs)

In-insert_sorted : (z x : Text) (ys : List Text) → In z (insert_sorted x ys) ↔ ((z ≡ x) ⊎ In z ys)
unfolding insert_sorted
In-insert_sorted z x [] = ground arith
In-insert_sorted z x (y ∷ ys) = ground (arith, In-insert_sorted z x ys)

In-sort : (z : Text) (xs : List Text) → In z (sort xs) ↔ In z xs
unfolding sort
In-sort z [] = ground arith
In-sort z (x ∷ xs) = ground (arith, In-sort z xs, In-insert_sorted z x (sort xs))

-- The name of a peer's socket.
abbrev pub socket_entry : Text → OsString
socket_entry slug = record { text = slug ++ codes ".socket"; is_utf8 = true }

slug_of_name_iff :
    (name : OsString) (slug : Text)
    → (slug_of_name name ≡ some slug) ↔ ((slug ≢ []) × (name ≡ socket_entry slug))
unfolding slug_of_name into_string
slug_of_name_iff name slug = elim (Bool-cases name.is_utf8) [
  | inr e ↦ (λ h. ground arith, λ h. ground arith)
  | inl e ↦ (
    λ h. elim (Option-cases (strip_suffix (codes ".socket") name.text)) [
      | inl n ↦ ground arith
      | inr (u, n) ↦ ground (arith, strip_suffix_sound (codes ".socket") name.text {t = u} n)
    ],
    λ h. ground (arith, strip_suffix-append (codes ".socket") slug),
  )
]

collect_lem :
    (entries : List (Result Text OsString)) (slugs : List Text)
    → collect entries ≡ ok slugs
    → (slug : Text) → In slug slugs ↔ ((slug ≢ []) × In (ok (socket_entry slug)) entries)
unfolding collect
collect_lem [] slugs h slug = ground arith
collect_lem (err e ∷ entries) slugs h slug = ground arith
collect_lem (ok name ∷ entries) slugs h slug = elim (Option-cases (slug_of_name name)) [
  | inl e ↦
      ground (arith, slug_of_name_iff name slug, collect_lem entries slugs (ground arith) slug)
  | inr (u, e) ↦ elim (Result-cases (collect entries)) [
    | inr (x, he) ↦ ground arith
    | inl (more, he) ↦ ground (
      arith,
      slug_of_name_iff name slug,
      slug_of_name_iff name u,
      collect_lem entries more he slug,
    )
  ]
]

-- The list has exactly the slugs, not empty, that stand before `.socket` in the name of an entry
-- that is UTF-8, in alphabetical order.
pub list_peers_lem :
    (entries : List (Result Text OsString)) (dir : Text) (peers : List Text)
    → list_peers (ok entries) dir ≡ ok peers
    → IsSorted peers
      × ((slug : Text) → In slug peers ↔ ((slug ≢ []) × In (ok (socket_entry slug)) entries))
unfolding list_peers
list_peers_lem entries dir peers h = elim (Result-cases (collect entries)) [
  | inr (e, he) ↦ absurd (ground arith)
  | inl (slugs, he) ↦
      let same : sort slugs ≡ peers = ground arith in
      (
        subst IsSorted same (sort-IsSorted slugs),
        λ slug.
            subst (λ ps. In slug ps ↔ ((slug ≢ []) × In (ok (socket_entry slug)) entries)) same
              (ground (arith, In-sort slug slugs, collect_lem entries slugs he slug)),
      )
]
