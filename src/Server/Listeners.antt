-- ===== src/Server/Listeners.antt =====
-- crossbridge-server/src/listeners.rs: the sockets that a server puts up for its peers. A listening
-- task runs as long as its entry is in the set.
pub mod Files
use crossbridge.Prelude
use crossbridge.Prelude.{
  Result, ok, err, ℕ, Bool, true, false, not, ◌&&◌, Option, none, some, List, [], ◌∷◌, ◌++◌, filter,
  if◌then◌else◌, ◌==◌,
}
use crossbridge.Prelude.Text.{Text, codes, text_has_eq}
use crossbridge.Prelude.HashMap
use crossbridge.Prelude.HashMap.{HashMap}
use crossbridge.Prelude.FilePath.{FilePath, path_has_eq}
use crossbridge.Prelude.FileSystem.{
  FileSystem, FileKind, dir, file, exists, is_file, create_dir_all,
}
use crossbridge.Server.Paths.{SocketLayout, peer_dir, listener_socket}

-- `Entry`, its `abort` handle being that of the task for the slug, and `ListenerSet`, whose channel
-- is not modelled.
pub record ListenerSet : Type 0 where
  pub own_slug : Text
  pub layout : SocketLayout
  pub entries : HashMap Text FilePath

-- The set, the files, and the faults of the system: whether making the directory or binding fails.
pub record World : Type 0 where
  pub set : ListenerSet
  pub fs : FileSystem

pub record Refusals : Type 0 where
  pub create_dir : Bool
  pub bind : Bool

unfoldable pub new : Text → SocketLayout → ListenerSet
new own layout = record { own_slug = own; layout = layout; entries = [] }

unfoldable pub length : ListenerSet → ℕ
length set = Prelude.length (HashMap.keys set.entries)

unfoldable pub is_empty : ListenerSet → Bool
is_empty set = elim set.entries [ [] ↦ true | e ∷ es ↦ false ]

-- `std::fs::remove_file`, whose failure, on a directory or where there is nothing, is ignored.
unfoldable pub remove_file : FilePath → FileSystem → FileSystem
remove_file p fs = if is_file fs p then HashMap.remove p fs else fs

unfoldable pub remove : Text → World → Bool × World
remove peer_slug w = elim (HashMap.get peer_slug w.set.entries) [
  | none ↦ (false, w)
  | some path ↦ (
    true,
    record {
      set = record w.set { entries = HashMap.remove peer_slug w.set.entries };
      fs = remove_file path w.fs;
    },
  )
]

-- `UnixListener::bind`, which fails if the path exists.
unfoldable pub bind : Bool → FilePath → FileSystem → Option FileSystem
bind refused p fs =
    if refused then none else if exists p fs then none else some (HashMap.insert p file fs)

-- What add does once the directory is there.
unfoldable pub install : Refusals → Text → World → Bool × World
install f peer_slug w =
    let path = listener_socket w.set.layout peer_slug w.set.own_slug in
    let (had, w') = remove peer_slug w in
    let cleared = if exists path w'.fs then remove_file path w'.fs else w'.fs in
    elim (bind f.bind path cleared) [
      | none ↦ (false, record w' { fs = cleared })
      | some fs ↦ (
        true,
        record {
          set = record w'.set { entries = HashMap.insert peer_slug path w'.set.entries };
          fs = fs;
        },
      )
    ]

-- `false` stands for the error.
unfoldable pub add : Refusals → Text → World → Bool × World
add f peer_slug w =
    if f.create_dir
    then (false, w)
    else elim (create_dir_all (peer_dir w.set.layout peer_slug) w.fs) [
      | none ↦ (false, w)
      | some fs ↦ install f peer_slug (record w { fs = fs })
    ]

unfoldable pub remove_each : List Text → World → World
remove_each [] w = w
remove_each (s ∷ ss) w = let (had, w') = remove s w in remove_each ss w'

-- clear, which is also what dropping the set does.
unfoldable pub clear : World → World
clear w = remove_each (HashMap.keys w.set.entries) w

-- The loop of a listening task over what accepting comes to, each with whether the receiver is still
-- there: the connections that it passes on.
unfoldable pub listen_loop : {C : Type 0} → Text → List (Result Text C × Bool) → List (Text × C)
listen_loop slug [] = []
listen_loop slug ((ok stream, true) ∷ rest) = (slug, stream) ∷ listen_loop slug rest
listen_loop slug ((ok stream, false) ∷ rest) = []
listen_loop slug ((err e, alive) ∷ rest) = []
