-- ===== src/Prelude/FileSystem.antt =====
-- `std::fs` over a table of what exists. Symbolic links and permissions are not modelled; a call
-- that the system refuses is a fault that the caller of the model supplies.
use mathlib.Core.Path.{◌≡◌, refl, sym, subst, ◌∙◌}
use mathlib.Core.Logic.{inl, inr, ◌≢◌, ◌↔◌}
use mathlib.Core.Bool.{Bool, true, false, not, ◌&&◌, ◌||◌}
use mathlib.Core.Option.{Option, none, some}
use mathlib.Core.List.{List, [], ◌∷◌, map}
use native.Mathlib.Omega.{arith}
use crossbridge.Prelude.Tests.{if◌then◌else◌, Bool-cases, Option-cases, ◌==◌}
use crossbridge.Prelude.Lists.{any, contains, contains_iff, filter, In, In-map, In-filter}
use crossbridge.Prelude.Text.{Text}
use crossbridge.Prelude.HashMap
use crossbridge.Prelude.HashMap.{HashMap}
use crossbridge.Prelude.HashMap.Laws.{get-insert, In-keys-get, In-keys_of_get, contains_key-some}
use crossbridge.Prelude.FilePath.{FilePath, parent, is_under, path_has_eq, path_eq_iff}

pub data FileKind : Type 0 where
  dir file : FileKind

abbrev pub FileSystem : Type 0
FileSystem = HashMap FilePath FileKind

-- `p.exists()`
unfoldable pub exists : FilePath → FileSystem → Bool
unfolding HashMap.contains_key
exists p fs = HashMap.contains_key p fs

-- The path and the directories above it, the root aside.
unfoldable pub heads : List Text → List (List Text)
heads [] = []
heads (w ∷ ws) = (w ∷ []) ∷ map (λ vs. w ∷ vs) (heads ws)

unfoldable pub ancestors : FilePath → List FilePath
ancestors p = map (λ cs. record { absolute = p.absolute; components = cs }) (heads p.components)

unfoldable pub is_file : FileSystem → FilePath → Bool
unfolding HashMap.get
is_file fs p = elim (HashMap.get p fs) [ some file ↦ true | some dir ↦ false | none ↦ false ]

unfoldable pub make_dirs : List FilePath → FileSystem → FileSystem
unfolding HashMap.insert exists
make_dirs [] fs = fs
make_dirs (p ∷ ps) fs =
    let fs' = make_dirs ps fs in if exists p fs' then fs' else HashMap.insert p dir fs'

-- `fs::create_dir_all(p)`; `none` if a file stands in the way.
unfoldable pub create_dir_all : FilePath → FileSystem → Option FileSystem
create_dir_all p fs =
    if any (is_file fs) (ancestors p) then none else some (make_dirs (ancestors p) fs)

unfoldable pub remove_under : FilePath → FileSystem → FileSystem
remove_under p [] = []
remove_under p ((q, k) ∷ fs) =
    let rest = remove_under p fs in if is_under p q then rest else (q, k) ∷ rest

-- `fs::remove_dir_all(p)`: `none` if a file or nothing is at `p`. What is below a path makes it a
-- directory, whether or not the table lists it.
unfoldable pub remove_dir_all : FilePath → FileSystem → Option FileSystem
remove_dir_all p fs =
    if is_file fs p || not (any (is_under p) (HashMap.keys fs))
    then none
    else some (remove_under p fs)

-- `fs::read_dir(p)`: the paths of the entries of the directory.
is_child : FilePath → FilePath → Bool
is_child p q = elim (parent q) [ none ↦ false | some r ↦ r == p ]

unfoldable pub read_dir : FilePath → FileSystem → List FilePath
unfolding is_child
read_dir p fs = filter (is_child p) (HashMap.keys fs)

get-remove_under :
    (p q : FilePath) (fs : FileSystem)
    → HashMap.get q (remove_under p fs) ≡ (if is_under p q then none else HashMap.get q fs)
unfolding remove_under HashMap.get
get-remove_under p q [] = ground arith
get-remove_under p q ((r, k) ∷ fs) = elim (Bool-cases (r == q)) [
  | inl same ↦
      subst
        (λ x.
          HashMap.get q (remove_under p ((x, k) ∷ fs))
          ≡ (if is_under p q then none else HashMap.get q ((x, k) ∷ fs)))
        (sym ((path_eq_iff r q).0 same)) (ground (arith, get-remove_under p q fs, path_eq_iff q q))
  | inr other ↦ ground (arith, get-remove_under p q fs, other)
]

pub exists-remove_under :
    (p q : FilePath) (fs : FileSystem)
    → exists q (remove_under p fs) ≡ (exists q fs && not (is_under p q))
unfolding exists
exists-remove_under p q fs = ground (arith, get-remove_under p q fs)

pub exists_of_get :
    (p : FilePath) (k : FileKind) (fs : FileSystem) → HashMap.get p fs ≡ some k → exists p fs ≡ true
unfolding exists
exists_of_get p k fs h = ground (arith, h)

-- The entries of a directory are what exists and has it for its parent.
pub In-read_dir :
    (base p : FilePath) (fs : FileSystem)
    → In p (read_dir base fs) ↔ ((parent p ≡ some base) × (exists p fs ≡ true))
unfolding read_dir is_child exists
In-read_dir base p fs = (
  λ h.
      let (listed, child) = (In-filter (is_child base) p (HashMap.keys fs)).0 h in
      let (k, found) = In-keys-get p fs listed in
      (ground (arith, child, is_child_iff), ground (arith, found)),
  λ h.
      let (k, found) = contains_key-some p fs h.1 in
      (In-filter (is_child base) p (HashMap.keys fs)).1
        (In-keys_of_get p k fs found, ground (arith, h.0, is_child_iff)),
)
  where
    is_child_iff : (is_child base p ≡ true) ↔ (parent p ≡ some base)
    is_child_iff = elim (Option-cases (parent p)) [
      | inl n ↦ ground (arith, n)
      | inr (r, n) ↦ ground (arith, n, path_eq_iff r base)
    ]

-- Removing a directory removes exactly what stands at or below it.
pub exists-remove_dir_all :
    (p q : FilePath) (fs fs' : FileSystem)
    → remove_dir_all p fs ≡ some fs'
    → exists q fs' ≡ (exists q fs && not (is_under p q))
unfolding remove_dir_all exists
exists-remove_dir_all p q fs fs' h = ground (arith, get-remove_under p q fs, h)

any-In :
    (f : FilePath → Bool) (x : FilePath) (xs : List FilePath)
    → In x xs
    → f x ≡ true
    → any f xs ≡ true
any-In f x [] h e = absurd h
any-In f x (y ∷ ys) (inl same) e = ground (arith, same, e)
any-In f x (y ∷ ys) (inr h) e = ground (arith, any-In f x ys h e)

-- Where removing the directory comes to nothing, a file is at the path, or nothing at or below it.
pub remove_dir_all-none :
    (p q : FilePath) (fs : FileSystem)
    → remove_dir_all p fs ≡ none
    → is_file fs p ≡ false
    → is_under p q ≡ true
    → exists q fs ≡ false
unfolding remove_dir_all exists
remove_dir_all-none p q fs h no_file under = elim (Bool-cases (exists q fs)) [
  | inr e ↦ ground (arith, e)
  | inl e ↦
      let (k, found) = contains_key-some q fs (ground (arith, e)) in
      absurd (
        ground (
          arith,
          h,
          no_file,
          any-In (is_under p) q (HashMap.keys fs) (In-keys_of_get q k fs found) under,
        ))
]

-- After removing what is at a path, if that is no file, nothing is at or below it.
pub gone_below :
    (p q : FilePath) (fs : FileSystem)
    → is_file fs p ≡ false
    → is_under p q ≡ true
    → exists q (elim (remove_dir_all p fs) [ none ↦ fs | some fs' ↦ fs' ]) ≡ false
gone_below p q fs no_file under = elim (Option-cases (remove_dir_all p fs)) [
  | inl e ↦ rw e (remove_dir_all-none p q fs e no_file under)
  | inr (fs', e) ↦ rw e (exists-remove_dir_all p q fs fs' e ∙ ground (arith, under))
]

exists-insert :
    (p q : FilePath) (k : FileKind) (fs : FileSystem)
    → exists q (HashMap.insert p k fs) ≡ (p == q || exists q fs)
unfolding exists
exists-insert p q k fs = ground (arith, get-insert p q k fs)

exists-make_dirs :
    (ps : List FilePath) (q : FilePath) (fs : FileSystem)
    → exists q (make_dirs ps fs) ≡ (contains ps q || exists q fs)
unfolding make_dirs
exists-make_dirs [] q fs = refl
exists-make_dirs (p ∷ ps) q fs =
    ground
      (arith, exists-make_dirs ps q fs, exists-insert p q dir (make_dirs ps fs), path_eq_iff p q)

-- Creating a directory creates it and what is missing above it, and removes nothing.
pub exists-create_dir_all :
    (p q : FilePath) (fs fs' : FileSystem)
    → create_dir_all p fs ≡ some fs'
    → exists q fs' ≡ (contains (ancestors p) q || exists q fs)
unfolding create_dir_all
exists-create_dir_all p q fs fs' h = ground (arith, exists-make_dirs (ancestors p) q fs)

In-heads : (w : Text) (ws : List Text) → In (w ∷ ws) (heads (w ∷ ws))
unfolding heads
In-heads w [] = inl refl
In-heads w (v ∷ ws) = inr (In-map (λ vs. w ∷ vs) (v ∷ ws) (heads (v ∷ ws)) (In-heads v ws))

abbrev path_of : Bool → List Text → FilePath
path_of a ws = record { absolute = a; components = ws }

In-ancestors : (a : Bool) (ws : List Text) → ws ≢ [] → In (path_of a ws) (ancestors (path_of a ws))
unfolding ancestors
In-ancestors a [] h = absurd (h refl)
In-ancestors a (w ∷ ws) h = In-map (path_of a) (w ∷ ws) (heads (w ∷ ws)) (In-heads w ws)

pub contains-ancestors : (p : FilePath) → p.components ≢ [] → contains (ancestors p) p ≡ true
contains-ancestors p h = (contains_iff p (ancestors p)).1 (In-ancestors p.absolute p.components h)
