-- ===== src/Supervisor/Directories.antt =====
-- crossbridge-supervisor/src/lib.rs: the directories that registrations create and departures remove.
use crossbridge.Prelude.{
  true, false, not, ◌&&◌, ◌||◌, none, some, List, [], ◌∷◌, ◌++◌, ◌≡◌, ◌≢◌, inl, inr, sym, ◌∙◌,
  arith, Option-cases, nat_has_eq, contains, ok, false≢true,
}
use crossbridge.Prelude.Text.{Text}
use crossbridge.Prelude.HashMap
use crossbridge.Prelude.FilePath.{
  FilePath, of_text, is_under, is_under_refl, join_absolute, join_plain, IsPlain, path_has_eq,
}
use crossbridge.Prelude.FileSystem.{
  FileSystem, exists, remove_dir_all, exists-create_dir_all, exists-remove_dir_all,
  remove_dir_all-none, gone_below, exists_of_get, is_file, dir, ancestors, contains-ancestors,
}
use crossbridge.Protocol.{Register}
use crossbridge.Supervisor.{
  ConnId, StreamId, ConnRecord, State, Faults, slug_dir, try_create_dir, try_remove_dir, enroll,
  depart, handle_registration, handle_departure,
}
use crossbridge.Supervisor.Registration.{Accepts, accepted_lem}
use crossbridge.Supervisor.Departure.{departs_lem, departure_effect}

-- Unless the system refuses it, a directory is removed with exactly what stands below it.
exists-try_remove_dir :
    (f : Faults) (p q : FilePath) (fs : FileSystem)
    → f.remove_dir p ≡ none
    → HashMap.get p fs ≡ some dir
    → exists q (try_remove_dir f p fs) ≡ (exists q fs && not (is_under p q))
unfolding try_remove_dir is_file
exists-try_remove_dir f p q fs h there = elim (Option-cases (remove_dir_all p fs)) [
  | inl gone ↦ absurd (
      false≢true (
        sym (remove_dir_all-none p p fs gone (ground (arith, there)) (is_under_refl p))
        ∙ exists_of_get p dir fs there))
  | inr (fs', removed) ↦
      rw (h, try_remove_dir) (rw removed (exists-remove_dir_all p q fs fs' removed))
]

exists-try_create_dir :
    (f : Faults) (p q : FilePath) (fs fs' : FileSystem)
    → try_create_dir f p fs ≡ ok fs'
    → exists q fs' ≡ (contains (ancestors p) q || exists q fs)
unfolding try_create_dir
exists-try_create_dir f p q fs fs' h = exists-create_dir_all p q fs fs' (ground (arith, h))

slug_dir-ne-nil : (s : State) (slug : Text) → IsPlain slug → (slug_dir s slug).components ≢ []
unfolding slug_dir
slug_dir-ne-nil s slug plain =
    rw (join_plain s.base_dir slug plain) (append-cons-ne-nil s.base_dir.components)
  where
    append-cons-ne-nil : (ws : List Text) → ws ++ slug ∷ [] ≢ []
    append-cons-ne-nil [] = λ e. cc
    append-cons-ne-nil (w ∷ ws) = λ e. cc

-- Whether or not it was there, nothing is left of it, if it is no file.
gone-try_remove_dir :
    (f : Faults) (p q : FilePath) (fs : FileSystem)
    → f.remove_dir p ≡ none
    → is_file fs p ≡ false
    → is_under p q ≡ true
    → exists q (try_remove_dir f p fs) ≡ false
unfolding try_remove_dir
gone-try_remove_dir f p q fs h no_file under =
    rw (h, try_remove_dir) (gone_below p q fs no_file under)

-- Unless the system refuses it, the departure of a server whose slug's directory exists removes
-- exactly what stands at or below that directory: nothing there survives, and nothing else is
-- touched.
pub departure_removes_dir :
    (f : Faults) (id : ConnId) (rec : ConnRecord) (s : State)
    → HashMap.get id s.conns ≡ some rec
    → f.remove_dir (slug_dir s rec.slug) ≡ none
    → HashMap.get (slug_dir s rec.slug) s.fs ≡ some dir
    → (q : FilePath)
    → exists q (handle_departure f id s).fs
      ≡ (exists q s.fs && not (is_under (slug_dir s rec.slug) q))
unfolding depart slug_dir
departure_removes_dir f id rec s e h there q =
    rw (departs_lem f id rec s e) (exists-try_remove_dir f (slug_dir s rec.slug) q s.fs h there)

-- A server that is accepted under a plain slug has its directory, and no path is lost.
pub registration_makes_dir :
    (f : Faults) (stream : StreamId) (reg : Register) (s : State) (fs : FileSystem)
    → Accepts f stream reg s fs
    → IsPlain reg.slug
    → (exists (slug_dir s reg.slug) (handle_registration f stream reg s).fs ≡ true)
      × ((q : FilePath)
          → exists q s.fs ≡ true
          → exists q (handle_registration f stream reg s).fs ≡ true)
unfolding enroll
registration_makes_dir f stream reg s fs a plain = rw (accepted_lem f stream reg s fs a) (
  exists-try_create_dir f (slug_dir s reg.slug) (slug_dir s reg.slug) s.fs fs a.makes_dir
      ∙ rw (contains-ancestors (slug_dir s reg.slug) (slug_dir-ne-nil s reg.slug plain)),
  λ q there.
      exists-try_create_dir f (slug_dir s reg.slug) q s.fs fs a.makes_dir ∙ ground (arith, there),
)

-- Unless the system refuses it: where two connected servers have the same slug, in different
-- groups, and no file stands at the directory of that slug, the departure of one leaves nothing at
-- or below the directory that the other, still connected, is reached through.
pub departure_removes_shared_dir :
    (f : Faults) (id id' : ConnId) (rec rec' : ConnRecord) (s : State)
    → HashMap.get id s.conns ≡ some rec
    → HashMap.get id' s.conns ≡ some rec'
    → id ≢ id'
    → rec.slug ≡ rec'.slug
    → f.remove_dir (slug_dir s rec.slug) ≡ none
    → is_file s.fs (slug_dir s rec.slug) ≡ false
    → let t = handle_departure f id s in
      (HashMap.get id' t.conns ≡ some rec')
      × (exists (slug_dir t rec'.slug) t.fs ≡ false)
      × ((q : FilePath) → is_under (slug_dir t rec'.slug) q ≡ true → exists q t.fs ≡ false)
unfolding depart slug_dir
departure_removes_shared_dir f id id' rec rec' s e e' ne same h no_file = (
  (departure_effect f id rec s e).1 id' ∙ ground (arith, e'),
  rw (departs_lem f id rec s e, ← same)
      (gone-try_remove_dir f (slug_dir s rec.slug) (slug_dir s rec.slug) s.fs h no_file
        (is_under_refl (slug_dir s rec.slug))),
  λ q.
      rw (departs_lem f id rec s e, ← same)
        (gone-try_remove_dir f (slug_dir s rec.slug) q s.fs h no_file),
)

-- Unless the system refuses it: the departure of a server whose slug is an absolute path at which
-- there is a directory removes that directory with exactly what stands below it, though it may be
-- outside the base directory.
pub departure_removes_absolute :
    (f : Faults) (id : ConnId) (rec : ConnRecord) (s : State) (w : Text)
    → HashMap.get id s.conns ≡ some rec
    → rec.slug ≡ b'/' ∷ w
    → f.remove_dir (of_text rec.slug) ≡ none
    → HashMap.get (of_text rec.slug) s.fs ≡ some dir
    → (q : FilePath)
    → exists q (handle_departure f id s).fs ≡ (exists q s.fs && not (is_under (of_text rec.slug) q))
unfolding depart slug_dir
departure_removes_absolute f id rec s w e abs h there q =
    rw (departs_lem f id rec s e, join_absolute s.base_dir rec.slug w abs)
      (exists-try_remove_dir f (of_text rec.slug) q s.fs h there)
