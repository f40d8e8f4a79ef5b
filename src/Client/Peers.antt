-- ===== src/Client/Peers.antt =====
-- crossbridge-client/src/peers.rs: the peers are the sockets in the own directory.
pub mod Listed
use mathlib.Core.Option
use crossbridge.Prelude.{
  ℕ, Bool, true, false, Option, none, some, List, [], ◌∷◌, ◌++◌, if◌then◌else◌, ltb, nat_eq, Result,
  ok, err,
}
use crossbridge.Prelude.Text.{Text, codes, strip_suffix}
use crossbridge.Protocol.{IoError, ErrorKind, not_found, unexpected_eof, other}
use crossbridge.Protocol.Roots.{OsString, into_string, non_empty}

-- `str`'s order. For UTF-8 text the order of the bytes is that of the code points.
unfoldable pub text_le : Text → Text → Bool
text_le [] t = true
text_le (c ∷ s) [] = false
text_le (c ∷ s) (d ∷ t) = let later = text_le s t in if nat_eq c d then later else ltb c d

unfoldable pub insert_sorted : Text → List Text → List Text
insert_sorted x [] = x ∷ []
insert_sorted x (y ∷ ys) =
    let rest = insert_sorted x ys in if text_le x y then x ∷ y ∷ ys else y ∷ rest

-- `peers.sort()`: any sort that keeps equal texts in order gives this list.
unfoldable pub sort : List Text → List Text
sort [] = []
sort (x ∷ xs) = insert_sorted x (sort xs)

-- The slug that the name of a directory entry stands for.
unfoldable pub slug_of_name : OsString → Option Text
slug_of_name name = elim (into_string name) [
  | none ↦ none
  | some t ↦ elim (strip_suffix (codes ".socket") t) [ none ↦ none | some s ↦ non_empty s ]
]

-- The loop over the entries of the directory, each of which may be an error.
unfoldable pub collect : List (Result Text OsString) → Result Text (List Text)
collect [] = ok []
collect (entry ∷ entries) =
    let later = collect entries in
    elim entry [
      | err e ↦ err e
      | ok name ↦ elim (slug_of_name name) [
        | none ↦ later
        | some slug ↦ elim later [ err e ↦ err e | ok slugs ↦ ok (slug ∷ slugs) ]
      ]
    ]

-- `read_dir` of the system is an argument; `dir` is the path as it is displayed.
unfoldable pub list_peers :
    Result IoError (List (Result Text OsString)) → Text → Result Text (List Text)
list_peers (ok entries) dir = elim (collect entries) [ err e ↦ err e | ok slugs ↦ ok (sort slugs) ]
list_peers (err e) dir = elim e.kind [
  | not_found ↦ err (codes "not registered with crossbridge (no socket dir)")
  | unexpected_eof ↦
      err (codes "failed to read socket directory " ++ dir ++ codes ": " ++ e.message)
  | other ↦ err (codes "failed to read socket directory " ++ dir ++ codes ": " ++ e.message)
]
