-- ===== src/Server/Run.antt =====
-- crossbridge-server/src/run.rs, run from its start, and crossbridge-server/src/main.rs. The canonical
-- path of the repository, what its remotes are, opening the database and building the runtime are
-- parameters.
pub mod Ends
use crossbridge.Prelude.{Option, none, some, List, [], ◌∷◌, ◌++◌, if◌then◌else◌, Result, ok, err}
use crossbridge.Prelude.Text.{Text, codes}
use crossbridge.Prelude.Action.{Action}
use crossbridge.Prelude.FilePath
use crossbridge.Prelude.FilePath.{FilePath}
use crossbridge.Prelude.FileSystem.{FileSystem, exists}
use crossbridge.Protocol.Roots.{Env}
use crossbridge.Remote.{Repo}
use crossbridge.Server.Paths.{SocketLayout, resolve_runtime_root}
use crossbridge.Server.Slug.{resolve_slug}
use crossbridge.Server.Listeners.{World, Refusals, new}
use crossbridge.Server.Session
use crossbridge.Server.Session.{Input, run_sessions}

pub record ServerConfig : Type 0 where
  pub slug : Text
  pub group : Text
  pub repo_path : FilePath
  pub layout : SocketLayout

unfoldable pub db_path : ServerConfig → FilePath
db_path cfg = Session.db_path cfg.repo_path

pub record Cli : Type 0 where
  pub group : Text
  pub slug : Option Text
  pub repo_path : FilePath
  pub runtime_root : Option FilePath

module _ {C D : Type 0} (serve : FilePath → Text → C → Action D Text Unit)
    (open_db : FilePath → Result Text D) where
  -- `sessions` is what run_sessions goes through. The last part is what is left once the loop ends.
  unfoldable pub run :
      List (Result Text (List Text) × (Refusals × List (Input C)))
      → ServerConfig
      → FileSystem
      → Result Text Unit × Option (World × D)
  run sessions cfg fs =
      if exists (db_path cfg) fs
      then elim (open_db (db_path cfg)) [
        | err e ↦ (
          err (
              codes "opening crosslink DB at "
              ++ FilePath.display (db_path cfg)
              ++ codes ": "
              ++ e),
          none,
        )
        | ok d ↦
            let (ended, left) =
              run_sessions (serve cfg.repo_path) sessions
                (record { set = new cfg.slug cfg.layout; fs = fs }) d in
            (ended, some left)
      ]
      else (
        err (
            codes "crosslink DB not found at "
            ++ FilePath.display (db_path cfg)
            ++ codes " (run `crosslink init` in "
            ++ FilePath.display cfg.repo_path
            ++ codes " first)"),
        none,
      )

  -- The configuration of main.
  unfoldable pub configure :
      (FilePath → Result Text FilePath) → (FilePath → Repo) → Cli → Env → Result Text ServerConfig
  configure canonicalize repo_at cli env = elim (canonicalize cli.repo_path) [
    | err e ↦
        err (codes "resolving --repo-path " ++ FilePath.display cli.repo_path ++ codes ": " ++ e)
    | ok repo_path ↦ elim (resolve_slug cli.slug env (repo_at repo_path)) [
      | err e ↦ err e
      | ok slug ↦ ok (record {
        slug = slug;
        group = cli.group;
        repo_path = repo_path;
        layout = record { root = resolve_runtime_root cli.runtime_root env };
      })
    ]
  ]

  -- Ctrl-C is the shutdown among the inputs of a session.
  unfoldable pub main :
      (FilePath → Result Text FilePath)
      → (FilePath → Repo)
      → Result Text Unit
      → List (Result Text (List Text) × (Refusals × List (Input C)))
      → Cli
      → Env
      → FileSystem
      → Result Text Unit × Option (World × D)
  main canonicalize repo_at runtime sessions cli env fs =
      elim (configure canonicalize repo_at cli env) [
        | err e ↦ (err e, none)
        | ok cfg ↦ elim runtime [
          | err e ↦ (err (codes "building tokio runtime: " ++ e), none)
          | ok u ↦ run sessions cfg fs
        ]
      ]
