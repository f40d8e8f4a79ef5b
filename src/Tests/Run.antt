-- ===== src/Tests/Run.antt =====
-- A server with one session, which is rejected when it registers again.
use crossbridge.Prelude.{ℕ, ◌+◌, true, false, none, some, List, [], ◌∷◌, ◌≡◌, refl, Result, ok, err}
use crossbridge.Prelude.Text.{Text, codes, text_eq, text_has_eq, split}
use crossbridge.Prelude.Action.{Action}
use crossbridge.Prelude.HashMap
use crossbridge.Prelude.FilePath.{FilePath, join, of_text, path_eq}
use crossbridge.Prelude.FileSystem.{FileSystem, file, exists}
use crossbridge.Server.Listeners.{World, Refusals, new}
use crossbridge.Server.Session
use crossbridge.Server.Session.{Input, accepted, shutdown, run_sessions}
use crossbridge.Server.Run.{ServerConfig, db_path, run}
use crossbridge.Server.Run.Ends.{IsRegistrationError, run_ends}
use crossbridge.Tests.Supervisor.{base}

abbrev cfg : ServerConfig
cfg = record {
  slug = codes "a";
  group = codes "g";
  repo_path = record { absolute = true; components = codes "r" ∷ [] };
  layout = record { root = base };
}

abbrev disk : FileSystem
disk = (db_path cfg, file) ∷ []

abbrev serve : FilePath → Text → Unit {0} → Action ℕ Text Unit
serve repo peer conn d = (ok tt, d + 1)

abbrev open_it : FilePath → Result Text ℕ
open_it p = ok 5

abbrev fine : Refusals
fine = record { create_dir = false; bind = false }

abbrev sessions : List (Result Text (List Text) × (Refusals × List (Input Unit)))
sessions =
    (ok (codes "b" ∷ []), (fine, accepted (codes "b") tt ∷ shutdown ∷ []))
    ∷ (err (codes "rejected"), (fine, []))
    ∷ []

abbrev start : World
start = record { set = new cfg.slug cfg.layout; fs = disk }

abbrev left : World × ℕ
left = (run_sessions (serve cfg.repo_path) sessions start 5).1

runs :
    run serve open_it sessions cfg disk
    ≡ ((run_sessions (serve cfg.repo_path) sessions start 5).0, some (left.0, left.1))
unfolding run db_path Session.db_path exists HashMap.contains_key HashMap.get join of_text split
    path_eq codes text_eq
runs = refl

run_ends_example :
    ((peer : Text) → HashMap.get peer left.0.set.entries ≡ none)
    × IsRegistrationError sessions (run_sessions (serve cfg.repo_path) sessions start 5).0
run_ends_example =
    run_ends serve open_it sessions cfg disk (run_sessions (serve cfg.repo_path) sessions start 5).0
      left.0 left.1 runs
