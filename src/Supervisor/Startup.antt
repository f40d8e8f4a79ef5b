-- ===== src/Supervisor/Startup.antt =====
-- crossbridge-supervisor/src/lib.rs, run up to its loop, and crossbridge-supervisor/src/main.rs.
pub mod Wiped
use crossbridge.Prelude.{Option, none, some, List, [], ◌∷◌, ◌++◌, Result, ok, err}
use crossbridge.Prelude.Text.{Text, codes}
use crossbridge.Prelude.HashMap
use crossbridge.Prelude.FilePath
use crossbridge.Prelude.FilePath.{FilePath, parent, path_has_eq}
use crossbridge.Prelude.FileSystem.{FileSystem, FileKind, dir, file, read_dir, remove_under}
use crossbridge.Protocol.Roots.{Env}
use crossbridge.Supervisor.{State, Faults, init, try_create_dir}
use crossbridge.Supervisor.Socket.{resolve_register_socket}

-- The context of the error for an entry, by its type.
unfoldable pub removing : Option FileKind → Text
removing (some dir) = codes "removing directory "
removing (some file) = codes "removing file "
removing none = codes "removing file "

-- The loop of prepare_base_dir over the entries, a directory with all that is below it. What the
-- system refuses, of a directory or of a file, is `remove_dir` of the faults.
unfoldable pub remove_entries : Faults → List FilePath → FileSystem → Result Text FileSystem
remove_entries f [] fs = ok fs
remove_entries f (p ∷ ps) fs = elim (f.remove_dir p) [
  | some e ↦ err (removing (HashMap.get p fs) ++ FilePath.display p ++ codes ": " ++ e.message)
  | none ↦ remove_entries f ps (remove_under p fs)
]

-- What stands in the directory is removed, and a missing one is created.
unfoldable pub prepare_base_dir : Faults → FilePath → FileSystem → Result Text FileSystem
prepare_base_dir f base fs = elim (HashMap.get base fs) [
  | none ↦ elim (try_create_dir f base fs) [
    | err e ↦ err (codes "creating " ++ FilePath.display base ++ codes ": " ++ e.message)
    | ok fs' ↦ ok fs'
  ]
  | some file ↦ err (codes "Not a directory (os error 20)")
  | some dir ↦ remove_entries f (read_dir base fs) fs
]

-- The state that the loop starts from, or the error that ends the program. `bind` is what binding
-- the socket to its path comes to, in the prepared file system.
unfoldable pub start :
    Faults
    → (FilePath → FileSystem → Result Text FileSystem)
    → FilePath
    → FileSystem
    → Result Text State
start f bind socket_path fs = elim (parent socket_path) [
  | none ↦
      err
        (codes "socket path '" ++ FilePath.display socket_path ++ codes "' has no parent directory")
  | some base_dir ↦ elim (prepare_base_dir f base_dir fs) [
    | err e ↦ err (codes "preparing base directory: " ++ e)
    | ok fs' ↦ elim (bind socket_path fs') [
      | err e ↦
          err
            (codes "binding register socket at " ++ FilePath.display socket_path ++ codes ": " ++ e)
      | ok fs'' ↦ ok (init base_dir fs'')
    ]
  ]
]

pub record Cli : Type 0 where
  pub socket : Option FilePath

-- main, once the runtime is built, up to the loop.
unfoldable pub main :
    Faults
    → (FilePath → FileSystem → Result Text FileSystem)
    → Cli
    → Env
    → FileSystem
    → Result Text State
main f bind cli env fs = start f bind (resolve_register_socket cli.socket env) fs
