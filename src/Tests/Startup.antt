-- ===== src/Tests/Startup.antt =====
-- A start over what an earlier run has left.
use crossbridge.Prelude.{true, false, some, [], ◌∷◌, ◌≡◌, refl, ok}
use crossbridge.Prelude.Text.{codes, text_eq}
use crossbridge.Prelude.HashMap
use crossbridge.Prelude.FilePath.{
  FilePath, parent, is_under, strip_components, path_eq, path_has_eq,
}
use crossbridge.Prelude.FileSystem.{FileSystem, dir, file, exists, read_dir, remove_under}
use crossbridge.Supervisor.Startup.{remove_entries, prepare_base_dir}
use crossbridge.Supervisor.Startup.Wiped.{start_wipes_base}
use crossbridge.Tests.Supervisor.{base, no_faults}

abbrev stale_dir : FilePath
stale_dir = record { absolute = true; components = codes "run" ∷ codes "a" ∷ [] }

abbrev stale_socket : FilePath
stale_socket = record {
  absolute = true;
  components = codes "run" ∷ codes "a" ∷ codes "b.socket" ∷ [];
}

abbrev other : FilePath
other = record { absolute = true; components = codes "home" ∷ [] }

abbrev before : FileSystem
before = (base, dir) ∷ (stale_dir, dir) ∷ (stale_socket, file) ∷ (other, dir) ∷ []

abbrev after : FileSystem
after = (base, dir) ∷ (other, dir) ∷ []

is_dir : HashMap.get base before ≡ some dir
unfolding HashMap.get path_eq codes text_eq
is_dir = refl

prepares : prepare_base_dir no_faults base before ≡ ok after
unfolding prepare_base_dir remove_entries read_dir remove_under is_under strip_components parent
    HashMap.get path_eq codes text_eq
prepares = refl

is_stale : (exists stale_dir before ≡ true) × (is_under stale_dir stale_socket ≡ true)
unfolding exists HashMap.contains_key HashMap.get is_under strip_components path_eq codes text_eq
is_stale = (refl, refl)

in_base : parent stale_dir ≡ some base
unfolding parent
in_base = refl

start_wipes_base_example : exists stale_socket after ≡ false
start_wipes_base_example =
    (start_wipes_base no_faults base before after is_dir prepares).0 stale_dir stale_socket in_base
      is_stale.0 is_stale.1
