-- ===== src/Tests/Directories.antt =====
-- A server that registers under an absolute path and departs.
use crossbridge.Prelude.{true, false, not, ◌&&◌, some, [], ◌∷◌, ◌≡◌, refl, ◌∙◌, nat_has_eq}
use crossbridge.Prelude.Text.{Text, codes, text_eq, text_has_eq, split}
use crossbridge.Prelude.HashMap
use crossbridge.Prelude.FilePath.{
  FilePath, of_text, join, path_eq, path_has_eq, is_under, strip_components,
}
use crossbridge.Prelude.FileSystem.{
  FileSystem, dir, file, exists, is_file, create_dir_all, make_dirs, ancestors, heads,
}
use crossbridge.Supervisor.{
  ConnRecord, registered, State, init, group_map, slug_dir, write_message, deliver_one, deliver,
  try_create_dir, enroll, acknowledge, is_registered, handle_registration, handle_departure,
  handle_event,
}
use crossbridge.Supervisor.Directories.{departure_removes_absolute}
use crossbridge.Tests.Supervisor.{base, no_faults}

-- A server that registers as `/x`, where somebody keeps a file at `/x/k`.
abbrev slug_x : Text
slug_x = b'/' ∷ b'x' ∷ []

abbrev rec_x : ConnRecord
rec_x = record { slug = slug_x; group = codes "g"; write_half = 3 }

abbrev kept_file : FilePath
kept_file = record { absolute = true; components = (b'x' ∷ []) ∷ (b'k' ∷ []) ∷ [] }

abbrev files_of_x : FileSystem
files_of_x = (base, dir) ∷ (of_text slug_x, dir) ∷ (kept_file, file) ∷ []

abbrev absolute_slug : State
absolute_slug =
    handle_event no_faults (registered 3 (record { slug = slug_x; group = codes "g" }))
      (init base files_of_x)

x_connected : HashMap.get 0 absolute_slug.conns ≡ some rec_x
unfolding init handle_event handle_registration is_registered group_map HashMap.contains_key
    HashMap.get HashMap.insert HashMap.remove try_create_dir slug_dir of_text join split
    create_dir_all make_dirs exists ancestors heads is_file path_eq acknowledge enroll write_message
    deliver deliver_one codes text_eq
x_connected = refl

x_has_dir : HashMap.get (of_text slug_x) absolute_slug.fs ≡ some dir
unfolding init handle_event handle_registration is_registered group_map HashMap.contains_key
    HashMap.get HashMap.insert HashMap.remove try_create_dir slug_dir of_text join split
    create_dir_all make_dirs exists ancestors heads is_file path_eq acknowledge enroll write_message
    deliver deliver_one codes text_eq
x_has_dir = refl

x_keeps : exists kept_file absolute_slug.fs ≡ true
unfolding init handle_event handle_registration is_registered group_map HashMap.contains_key
    HashMap.get HashMap.insert HashMap.remove try_create_dir slug_dir of_text join split
    create_dir_all make_dirs exists ancestors heads is_file path_eq acknowledge enroll write_message
    deliver deliver_one codes text_eq
x_keeps = refl

departure_removes_absolute_example :
    exists kept_file (handle_departure no_faults 0 absolute_slug).fs
    ≡ (exists kept_file absolute_slug.fs && not (is_under (of_text slug_x) kept_file))
departure_removes_absolute_example =
    departure_removes_absolute no_faults 0 rec_x absolute_slug (b'x' ∷ []) x_connected refl refl
      x_has_dir kept_file

x_is_lost : exists kept_file (handle_departure no_faults 0 absolute_slug).fs ≡ false
unfolding of_text split is_under strip_components text_eq codes
x_is_lost =
    departure_removes_absolute no_faults 0 rec_x absolute_slug (b'x' ∷ []) x_connected refl refl
      x_has_dir kept_file
    ∙ rw x_keeps refl
