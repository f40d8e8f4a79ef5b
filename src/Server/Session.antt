-- ===== src/Server/Session.antt =====
-- crossbridge-server/src/run.rs: a session with the supervisor, and the loop over sessions. What the
-- `select!` of the loop takes next is an input; the code prefers a shutdown to the rest.
pub mod Told
pub mod Exact
use crossbridge.Prelude.{
  Bool, Option, none, some, List, [], ◌∷◌, ◌++◌, if◌then◌else◌, Result, ok, err,
}
use crossbridge.Prelude.Text.{Text, codes}
use crossbridge.Prelude.Action.{Action}
use crossbridge.Prelude.FilePath
use crossbridge.Prelude.FilePath.{FilePath, of_text}
use crossbridge.Prelude.FileSystem.{FileSystem, exists}
use crossbridge.Protocol.{Notification, peer_joined, peer_left}
use crossbridge.Server.Listeners.{World, Refusals, add, remove, clear}

-- A notification comes with what the system refuses while it is handled, a connection with what is
-- needed to serve it.
pub data Input (C : Type 0) : Type 0 where
  shutdown : Input C
  notified : Refusals → Result Text (Option Notification) → Input C
  accepted : Text → C → Input C

unfoldable pub add_each : Refusals → List Text → World → World
add_each f [] w = w
add_each f (p ∷ ps) w = let (added, w') = add f p w in add_each f ps w'

unfoldable pub notice : Refusals → Notification → World → World
notice f (peer_joined slug) w = let (added, w') = add f slug w in w'
notice f (peer_left slug) w = let (had, w') = remove slug w in w'

module _ {C D : Type 0} (serve : Text → C → Action D Text Unit) where
  -- The loop, as far as the inputs go, and its result once it ends.
  unfoldable pub session_loop : List (Input C) → World → D → Option (Result Text Unit) × (World × D)
  session_loop [] w d = (none, (w, d))
  session_loop (shutdown ∷ rest) w d = (some (ok tt), (clear w, d))
  session_loop (notified f (ok (some n)) ∷ rest) w d = session_loop rest (notice f n w) d
  session_loop (notified f (ok none) ∷ rest) w d = (some (ok tt), (w, d))
  session_loop (notified f (err e) ∷ rest) w d = (some (err e), (w, d))
  session_loop (accepted peer conn ∷ rest) w d =
      let (served, d') = serve peer conn d in session_loop rest w d'

  unfoldable pub serve_one_session :
      Refusals → List Text → List (Input C) → World → D → Option (Result Text Unit) × (World × D)
  serve_one_session f peers inputs w d = session_loop inputs (add_each f peers w) d

  -- The outer loop over what registering comes to and the inputs of the session; after the last
  -- the shutdown is taken. The outcome of a session is only logged.
  unfoldable pub run_sessions :
      List (Result Text (List Text) × (Refusals × List (Input C)))
      → World
      → D
      → Result Text Unit × (World × D)
  run_sessions [] w d = (ok tt, (clear w, d))
  run_sessions ((err e, session) ∷ rest) w d = (err e, (w, d))
  run_sessions ((ok peers, (f, inputs)) ∷ rest) w d =
      let (ended, (w', d')) = serve_one_session f peers inputs w d in
      run_sessions rest (clear w') d'

unfoldable pub db_path : FilePath → FilePath
db_path repo_path =
    FilePath.join (FilePath.join repo_path (of_text (codes ".crosslink")))
      (of_text (codes "issues.db"))
