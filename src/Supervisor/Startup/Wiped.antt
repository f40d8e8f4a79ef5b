-- ===== src/Supervisor/Startup/Wiped.antt =====
-- crossbridge-supervisor/src/lib.rs, prepare_base_dir: what a start leaves of an earlier run.
use crossbridge.Prelude.{
  true, false, not, ◌&&◌, some, List, [], ◌∷◌, ◌≡◌, refl, inl, inr, arith, any, In, ok,
  Option-cases, Bool-cases,
}
use crossbridge.Prelude.HashMap
use crossbridge.Prelude.FilePath.{
  FilePath, parent, is_under, path_has_eq, is_under-child, child_not_under,
}
use crossbridge.Prelude.FileSystem.{
  FileSystem, dir, exists, read_dir, In-read_dir, remove_under, exists-remove_under, exists_of_get,
}
use crossbridge.Supervisor.{Faults}
use crossbridge.Supervisor.Startup.{remove_entries, prepare_base_dir}

exists-remove_entries :
    (f : Faults) (ps : List FilePath) (fs fs' : FileSystem) (q : FilePath)
    → remove_entries f ps fs ≡ ok fs'
    → exists q fs' ≡ (exists q fs && not (any (λ p. is_under p q) ps))
unfolding remove_entries
exists-remove_entries f [] fs fs' q h = ground (arith, h)
exists-remove_entries f (p ∷ ps) fs fs' q h = elim (Option-cases (f.remove_dir p)) [
  | inr (e, refused) ↦ absurd (ground (arith, refused, h))
  | inl goes ↦ ground (
    arith,
    exists-remove_under p q fs,
    exists-remove_entries f ps (remove_under p fs) fs' q (ground (arith, goes, h)),
  )
]

any_of_In :
    (q p : FilePath) (ps : List FilePath)
    → In p ps
    → is_under p q ≡ true
    → any (λ x. is_under x q) ps ≡ true
any_of_In q p [] h u = absurd h
any_of_In q p (x ∷ ps) (inl same) u = ground (arith, same, u)
any_of_In q p (x ∷ ps) (inr h) u = ground (arith, any_of_In q p ps h u)

none_under :
    (q : FilePath) (ps : List FilePath)
    → ((p : FilePath) → In p ps → is_under p q ≡ false)
    → any (λ x. is_under x q) ps ≡ false
none_under q [] h = refl
none_under q (p ∷ ps) h = ground (arith, h p (inl refl), none_under q ps (λ x m. h x (inr m)))

-- When the supervisor starts over a base directory of an earlier run and can remove what is there:
-- nothing is left of any entry of the directory nor of what stood below it, the directory itself is
-- there, and nothing outside it has changed.
pub start_wipes_base :
    (f : Faults) (base : FilePath) (fs fs' : FileSystem)
    → HashMap.get base fs ≡ some dir
    → prepare_base_dir f base fs ≡ ok fs'
    → ((p q : FilePath)
        → parent p ≡ some base
        → exists p fs ≡ true
        → is_under p q ≡ true
        → exists q fs' ≡ false)
      × (exists base fs' ≡ true)
      × ((q : FilePath) → is_under base q ≡ false → exists q fs' ≡ exists q fs)
unfolding prepare_base_dir
start_wipes_base f base fs fs' there h =
    let h' : remove_entries f (read_dir base fs) fs ≡ ok fs' = ground (arith, there, h) in
    let left = exists-remove_entries f (read_dir base fs) fs fs' in
    (
      λ p q up here under. ground (
        arith,
        left q h',
        any_of_In q p (read_dir base fs) ((In-read_dir base p fs).1 (up, here)) under,
      ),
      ground (
        arith,
        left base h',
        exists_of_get base dir fs there,
        none_under base (read_dir base fs)
            (λ p m. child_not_under p base ((In-read_dir base p fs).0 m).0),
      ),
      λ q outside. ground (
        arith,
        left q h',
        none_under q (read_dir base fs)
            (λ p m. child_outside p q ((In-read_dir base p fs).0 m).0 outside),
      ),
    )
  where
    child_outside :
        (p q : FilePath) → parent p ≡ some base → is_under base q ≡ false → is_under p q ≡ false
    child_outside p q up outside = elim (Bool-cases (is_under p q)) [
      | inr e ↦ e
      | inl e ↦ absurd (ground (arith, outside, is_under-child p base q up e))
    ]
