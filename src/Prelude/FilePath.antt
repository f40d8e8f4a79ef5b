-- ===== src/Prelude/FilePath.antt =====
-- `std::path`: a path is its components, which is what Rust compares paths by.
-- `..` is a component like any other, and a leading `.` is dropped, as the file system does.
use Prim.Native.Nat.{ℕ}
use mathlib.Core.Path.{◌≡◌, refl, ap, ◌∙◌}
use mathlib.Core.Logic.{◌↔◌, ◌≢◌, inl, inr}
use mathlib.Core.Bool.{Bool, true, false, not, ◌&&◌}
use mathlib.Core.Bool.{beq as bool_eq}
use mathlib.Core.Option.{Option, none, some}
use mathlib.Core.List.{List, [], ◌∷◌, ◌++◌}
use native.Mathlib.Omega.{arith}
use crossbridge.Prelude.Tests.{nat_eq, if◌then◌else◌, PartialEq, ◌==◌, Option-cases, Bool-cases}
use crossbridge.Prelude.Lists.{any, filter, is_empty}
use crossbridge.Prelude.Text.{Text, codes, split, text_has_eq, text_eq_iff}
use crossbridge.Prelude.Text as T

pub record FilePath : Type 0 where
  pub absolute : Bool
  pub components : List Text

abbrev pub is_slash : ℕ → Bool
is_slash c = nat_eq c b'/'

-- Empty components and `.` do not count.
abbrev is_component : Text → Bool
is_component w = not (is_empty w) && not (w == codes ".")

abbrev starts_with_slash : Text → Bool
starts_with_slash [] = false
starts_with_slash (c ∷ s) = is_slash c

-- `PathBuf::from(s)`
unfoldable pub of_text : Text → FilePath
unfolding split
of_text s = record {
  absolute = starts_with_slash s;
  components = filter is_component (split is_slash s);
}

-- `p.join(q)`: an absolute `q` replaces `p`.
unfoldable pub join : FilePath → FilePath → FilePath
join p q =
    if q.absolute
    then q
    else record { absolute = p.absolute; components = p.components ++ q.components }

abbrev pub drop_last : List Text → Option (List Text)
drop_last [] = none
drop_last (w ∷ []) = some []
drop_last (w ∷ v ∷ ws) = elim (drop_last (v ∷ ws)) [ none ↦ none | some r ↦ some (w ∷ r) ]

-- `p.parent()`
unfoldable pub parent : FilePath → Option FilePath
parent p = elim (drop_last p.components) [
  | none ↦ none
  | some cs ↦ some (record { absolute = p.absolute; components = cs })
]

-- `p.display()`
unfoldable pub display : FilePath → Text
display p =
    if p.absolute
    then codes "/" ++ T.join (codes "/") p.components
    else T.join (codes "/") p.components

-- `q.starts_with(p)`, by components.
unfoldable pub strip_components : List Text → List Text → Option (List Text)
strip_components [] ws = some ws
strip_components (v ∷ vs) [] = none
strip_components (v ∷ vs) (w ∷ ws) = if v == w then strip_components vs ws else none

-- `q.starts_with(p)`
unfoldable pub is_under : FilePath → FilePath → Bool
is_under p q =
    bool_eq p.absolute q.absolute
    && elim (strip_components p.components q.components) [ none ↦ false | some r ↦ true ]

bool_eq_iff : (a b : Bool) → (bool_eq a b ≡ true) ↔ (a ≡ b)
bool_eq_iff a b = ground arith

texts_eq : List Text → List Text → Bool
texts_eq [] [] = true
texts_eq [] (w ∷ ws) = false
texts_eq (v ∷ vs) [] = false
texts_eq (v ∷ vs) (w ∷ ws) = v == w && texts_eq vs ws

texts_eq_iff : (vs ws : List Text) → (texts_eq vs ws ≡ true) ↔ (vs ≡ ws)
unfolding texts_eq
texts_eq_iff [] [] = ground arith
texts_eq_iff [] (w ∷ ws) = ground arith
texts_eq_iff (v ∷ vs) [] = ground arith
texts_eq_iff (v ∷ vs) (w ∷ ws) = ground (arith, text_eq_iff v w, texts_eq_iff vs ws)

unfoldable pub path_eq : FilePath → FilePath → Bool
unfolding texts_eq
path_eq p q = bool_eq p.absolute q.absolute && texts_eq p.components q.components

pub path_eq_iff : (p q : FilePath) → (path_eq p q ≡ true) ↔ (p ≡ q)
unfolding path_eq
path_eq_iff p q =
    ground (arith, bool_eq_iff p.absolute q.absolute, texts_eq_iff p.components q.components)

instance abbrev pub path_has_eq : PartialEq FilePath
path_has_eq = record { is_eq = path_eq; is_eq_iff = path_eq_iff }

-- A name that `join` adds as one component.
pub record IsPlain (name : Text) : Type 0 where
  pub no_slash : any is_slash name ≡ false
  pub not_empty : name ≢ []
  pub not_dot : name ≢ codes "."

split_no_slash : (s : Text) → any is_slash s ≡ false → split is_slash s ≡ s ∷ []
unfolding split
split_no_slash [] h = refl
split_no_slash (c ∷ s) h = ground (arith, split_no_slash s)

pub of_text_plain :
    (s : Text) → IsPlain s → of_text s ≡ record { absolute = false; components = s ∷ [] }
unfolding of_text
of_text_plain [] h = absurd (h.not_empty refl)
of_text_plain (c ∷ s) h =
    rw (split_no_slash (c ∷ s) h.no_slash)
      (ground (arith, h.no_slash, h.not_dot, text_eq_iff (c ∷ s) (codes ".")))

pub join_plain :
    (p : FilePath) (s : Text)
    → IsPlain s
    → join p (of_text s) ≡ record { absolute = p.absolute; components = p.components ++ s ∷ [] }
unfolding join
join_plain p s h = rw (of_text_plain s h)

strip_components_self : (ws : List Text) → strip_components ws ws ≡ some []
unfolding strip_components
strip_components_self [] = refl
strip_components_self (w ∷ ws) = ground (arith, text_eq_iff w w, strip_components_self ws)

pub is_under_refl : (p : FilePath) → is_under p p ≡ true
unfolding is_under
is_under_refl p =
    ground (arith, strip_components_self p.components, bool_eq_iff p.absolute p.absolute)

pub join_absolute : (p : FilePath) (s w : Text) → s ≡ b'/' ∷ w → join p (of_text s) ≡ of_text s
unfolding join of_text
join_absolute p s w e = rw e

drop_last-append : (ws : List Text) (w : Text) → drop_last (ws ++ w ∷ []) ≡ some ws
drop_last-append [] w = refl
drop_last-append (v ∷ []) w = refl
drop_last-append (v ∷ u ∷ ws) w = rw (drop_last-append (u ∷ ws) w)

pub parent-join_plain : (p : FilePath) (s : Text) → IsPlain s → parent (join p (of_text s)) ≡ some p
unfolding parent
parent-join_plain p s h = rw (join_plain p s h) (rw (drop_last-append p.components s, parent))

drop_last-strip :
    (us vs ws : List Text)
    → drop_last vs ≡ some us
    → (r : List Text) → strip_components vs ws ≡ some r
    → (r' : List Text) × (strip_components us ws ≡ some r')
unfolding strip_components
drop_last-strip us [] ws h r e = absurd (cc)
drop_last-strip us (v ∷ []) ws h r e = rw (us_empty h) (ws, refl)
  where
    us_empty : some [] ≡ some us → us ≡ []
    us_empty k = ground (arith, k)
drop_last-strip us (v ∷ u ∷ vs) [] h r e = absurd (cc)
drop_last-strip us (v ∷ u ∷ vs) (w ∷ ws) h r e = elim (Option-cases (drop_last (u ∷ vs))) [
  | inl n ↦ absurd (ground (arith, n, h))
  | inr (xs, n) ↦ elim (Bool-cases (v == w)) [
    | inr other ↦ absurd (ground (arith, other, e))
    | inl same ↦
        let us_lem : us ≡ v ∷ xs = ground (arith, n, h) in
        let (r', found) = drop_last-strip xs (u ∷ vs) ws n r (ground (arith, same, e)) in
        rw us_lem (r', rw same found)
  ]
]

drop_last-not : (us vs : List Text) → drop_last vs ≡ some us → strip_components vs us ≡ none
unfolding strip_components
drop_last-not us [] h = absurd (cc)
drop_last-not us (v ∷ []) h = ground (arith, h)
drop_last-not us (v ∷ u ∷ vs) h = elim (Option-cases (drop_last (u ∷ vs))) [
  | inl n ↦ absurd (ground (arith, n, h))
  | inr (xs, n) ↦
      let us_lem : us ≡ v ∷ xs = ground (arith, n, h) in
      rw us_lem (rw ((text_eq_iff v v).1 refl) (drop_last-not xs (u ∷ vs) n))
]

module _ (p base : FilePath) (up : parent p ≡ some base) where
  parent_parts : (p.absolute ≡ base.absolute) × (drop_last p.components ≡ some base.components)
  unfolding parent
  parent_parts = elim (Option-cases (drop_last p.components)) [
    | inl n ↦ absurd (ground (arith, n, up))
    | inr (xs, n) ↦
        let same : record { absolute = p.absolute; components = xs } ≡ base =
          ground (arith, n, up) in
        (ap (λ (x : FilePath). x.absolute) same, n ∙ ap (λ (x : FilePath). some x.components) same)
  ]

-- What is under an entry of a directory is under the directory, which is not under its entry.
pub is_under-child :
    (p base q : FilePath) → parent p ≡ some base → is_under p q ≡ true → is_under base q ≡ true
unfolding is_under
is_under-child p base q up h =
    let (same, shorter) = parent_parts p base up in
    elim (Option-cases (strip_components p.components q.components)) [
      | inl n ↦ absurd (ground (arith, n, h))
      | inr (r, n) ↦
          let (r', n') = drop_last-strip base.components p.components q.components shorter r n in
          ground (arith, same, n, n', h)
    ]

pub child_not_under : (p base : FilePath) → parent p ≡ some base → is_under p base ≡ false
unfolding is_under
child_not_under p base up =
    let (same, shorter) = parent_parts p base up in
    ground (arith, drop_last-not base.components p.components shorter)
