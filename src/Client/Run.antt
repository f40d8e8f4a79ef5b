-- ===== src/Client/Run.antt =====
-- crossbridge-client/src/main.rs: the choice of the command. What is printed is the result, a list of
-- lines; opening the database and reading the directory are the system's and crosslink's.
use crossbridge.Prelude.{ℕ, Option, none, some, List, [], ◌∷◌, ◌++◌, Result, ok, err}
use crossbridge.Prelude.Text.{Text, codes}
use crossbridge.Prelude.Decimal.{ℤ}
use crossbridge.Prelude.Action.{Action}
use crossbridge.Prelude.FilePath
use crossbridge.Prelude.FilePath.{FilePath, of_text}
use crossbridge.Prelude.FileSystem.{FileSystem}
use crossbridge.Protocol.{IoError, ClientRequest, ServerResponse}
use crossbridge.Protocol.Roots.{Env, OsString}
use crossbridge.Crosslink.{Database}
use crossbridge.Remote.{Repo}
use crossbridge.Client.Commands.{socket_dir, repo_root_from, submit_cmd, answer_cmd}
use crossbridge.Client.Peers.{list_peers}
use crossbridge.Client.Slug.{resolve_own_slug}

pub data Cmd : Type 0 where
  peers : Cmd
  submit : ℤ → Text → Cmd
  answer : ℤ → Cmd

pub record Cli : Type 0 where
  pub slug : Option Text
  pub cmd : Cmd

module _ {D : Type 0} (db : Database D) (fs : FileSystem) (env : Env)
    (exchange : FilePath → Text → ClientRequest → Result Text ServerResponse)
    (open_db : FilePath → Result Text D)
    (read_dir : FilePath → Result IoError (List (Result Text OsString)))
    (repo_at : FilePath → Repo) where
  unfoldable pub peers_cmd : Text → Result Text (List Text)
  peers_cmd own = list_peers (read_dir (socket_dir env own)) (FilePath.display (socket_dir env own))

  -- Opening the database, and a command on it: its line, and the database after it.
  unfoldable pub with_database : FilePath → Action D Text Text → Result Text (List Text) × Option D
  with_database repo_root command =
      let path =
        FilePath.join (FilePath.join repo_root (of_text (codes ".crosslink")))
          (of_text (codes "issues.db")) in
      elim (open_db path) [
        | err e ↦ (
          err (codes "failed to open crosslink DB at " ++ FilePath.display path ++ codes ": " ++ e),
          none,
        )
        | ok d ↦
            let (line, d') = command d in
            (elim line [ err e ↦ err e | ok l ↦ ok (l ∷ []) ], some d')
      ]

  unfoldable pub run_cmd : FilePath → Text → Cmd → Result Text (List Text) × Option D
  run_cmd repo_root own peers = (peers_cmd own, none)
  run_cmd repo_root own (submit issue target) =
      with_database repo_root (submit_cmd db fs env exchange own issue target)
  run_cmd repo_root own (answer issue) =
      with_database repo_root (answer_cmd db fs env exchange own issue)

  -- `cwd` is what asking for the current directory comes to.
  unfoldable pub run : Result Text FilePath → Cli → Result Text (List Text) × Option D
  run cwd cli = elim cwd [
    | err e ↦ (err (codes "could not read current directory: " ++ e), none)
    | ok start ↦
        let repo_root = repo_root_from fs start in
        elim (resolve_own_slug cli.slug env (repo_at repo_root)) [
          | err e ↦ (err e, none)
          | ok own ↦ run_cmd repo_root own cli.cmd
        ]
  ]

  -- The lines on standard output, those on standard error, and the exit status.
  unfoldable pub main : Result Text FilePath → Cli → (List Text × (List Text × ℕ)) × Option D
  main cwd cli =
      let (outcome, left) = run cwd cli in
      (elim outcome [ ok lines ↦ (lines, ([], 0)) | err e ↦ ([], (e ∷ [], 1)) ], left)
